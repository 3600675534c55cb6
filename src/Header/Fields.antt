-- ===== src/Header/Fields.antt =====
-- The bit fields of the common header as arithmetic, and the round trips of `setType` and `setCrc`.
use Prim.Native.Nat.{bit_and}
use native.Mathlib.Nat.{pow-le-pow_right}
use inecontainer.Prelude.{
  ℕ, ◌+◌, ◌-◌, ◌*◌, ◌/◌, ◌%◌, ◌^◌, ◌≤◌, ◌<◌, ◌≡◌, refl, sym, ◌∙◌, ap, true, arith,
}
use inecontainer.Prelude.Words.{u8, ◌>>>◌, sub32}
use inecontainer.Prelude.Bits.{bit_or_field, field-bit_or, bit_and_mask}
use inecontainer.Prelude.Range.{agree_below, agree_below_lem}
use inecontainer.Header.{
  ChunkHeader, ChunkType, file_header_chunk, stream_start_chunk, stream_data_chunk, fill_chunk,
  type_code, to_type, IsBytes, type, number_invalid_bytes, chunk_size, number_valid_bytes, set_type,
  set_crc, crc, header_word,
}

pub type_mod : (h : ChunkHeader) → type h ≡ to_type (h.b0 % 4)
unfolding type
type_mod h = ap to_type (bit_and_mask 2 3 h.b0 refl)

pub chunk_size_pow : (h : ChunkHeader) → chunk_size h ≡ 2 ^ (h.b0 / 4 % 8 + 5)
unfolding chunk_size
chunk_size_pow h = rw (bit_and_mask 3 7 (h.b0 / 4) refl) (omega arith)

pub number_invalid_bytes_sum : (h : ChunkHeader) → number_invalid_bytes h ≡ h.b0 / 32 % 8 + h.b1 * 8
unfolding number_invalid_bytes
number_invalid_bytes_sum h =
    rw (bit_and_mask 3 7 (h.b0 / 32) refl) (field-bit_or 3 (h.b0 / 32 % 8) h.b1 (omega arith))

-- Both readings look only at what stands above the type's two bits.
pub chunk_size_same : (h h' : ChunkHeader) → h'.b0 / 4 ≡ h.b0 / 4 → chunk_size h' ≡ chunk_size h
chunk_size_same h h' e =
    chunk_size_pow h' ∙ ap (λ (q : ℕ). 2 ^ (q % 8 + 5)) e ∙ sym (chunk_size_pow h)

pub number_valid_bytes_same :
    (h h' : ChunkHeader)
    → h'.b0 / 4 ≡ h.b0 / 4
    → h'.b1 ≡ h.b1
    → number_valid_bytes h' ≡ number_valid_bytes h
unfolding number_valid_bytes
number_valid_bytes_same h h' e f = cc (chunk_size_same h h' e, invalid)
  where
    invalid : number_invalid_bytes h' ≡ number_invalid_bytes h
    invalid = omega (arith, number_invalid_bytes_sum h, number_invalid_bytes_sum h')

-- A chunk size is one of the powers of two from 32 to 4096.
pub chunk_size_range : (h : ChunkHeader) → (32 ≤ chunk_size h) × (chunk_size h ≤ 4096)
chunk_size_range h = rw (chunk_size_pow h) (sizes (h.b0 / 4 % 8) (omega arith))
  where
    sizes : (p : ℕ) → p < 8 → (32 ≤ 2 ^ (p + 5)) × (2 ^ (p + 5) ≤ 4096)
    sizes p small = (
      pow-le-pow_right {n = 2} (omega arith) {i = 5} {j = p + 5} (omega arith),
      pow-le-pow_right {n = 2} (omega arith) {i = p + 5} {j = 12} (omega arith),
    )

pub header_word_sum :
    (t bits invalid : ℕ)
    → t < 4
    → 5 ≤ bits
    → bits ≤ 12
    → invalid < 2048
    → header_word t bits invalid ≡ t + (bits - 5) * 4 + invalid * 32
unfolding header_word
header_word_sum t bits invalid ht lo hi hv =
    rw
      (
        shifted,
        bit_or_field 2 t (bits - 5) ht,
        bit_or_field 5 (t + (bits - 5) * 4) invalid (omega arith),
      )
      (omega arith)
  where
    shifted : sub32 bits 5 ≡ bits - 5
    shifted = omega arith

-- A stored CRC is read back as its low 16 bits, whatever the header held.
pub crc-set_crc : (c : ℕ) (h : ChunkHeader) → crc (set_crc c h) ≡ c % 65536
unfolding crc set_crc
crc-set_crc c h = rw (field-bit_or 8 (u8 c) (u8 (c >>> 8)) (omega arith)) (omega arith)

clear_type : (b : ℕ) → b < 256 → bit_and b 0xFC ≡ b / 4 * 4
clear_type b h = agree_below_lem _ _ 256 checked b h
  where
    checked : agree_below 256 (λ b. bit_and b 0xFC) (λ b. b / 4 * 4) ≡ true
    checked = unfold agree_below in refl

code_small : (t : ChunkType) → type_code t < 4
code_small file_header_chunk = omega arith
code_small stream_start_chunk = omega arith
code_small stream_data_chunk = omega arith
code_small fill_chunk = omega arith

type_of_code : (t : ChunkType) → to_type (type_code t) ≡ t
type_of_code file_header_chunk = refl
type_of_code stream_start_chunk = refl
type_of_code stream_data_chunk = refl
type_of_code fill_chunk = refl

set_type_sum :
    (t : ChunkType) (h : ChunkHeader) → IsBytes h → (set_type t h).b0 ≡ type_code t + h.b0 / 4 * 4
unfolding set_type
set_type_sum t h v =
    rw (clear_type h.b0 v.byte0, masked) (field-bit_or 2 (type_code t) (h.b0 / 4) (code_small t))
  where
    masked : bit_and (type_code t) 0x03 ≡ type_code t
    masked = bit_and_mask 2 3 (type_code t) refl ∙ omega (arith, code_small t)

-- `setType` stores the type, and leaves the chunk size and the count of valid bytes alone.
pub set_type_lem :
    (t : ChunkType) (h : ChunkHeader)
    → IsBytes h
    → (type (set_type t h) ≡ t)
      × (chunk_size (set_type t h) ≡ chunk_size h)
      × (number_valid_bytes (set_type t h) ≡ number_valid_bytes h)
      × IsBytes (set_type t h)
unfolding set_type
set_type_lem t h v =
    let low : (set_type t h).b0 ≡ type_code t + h.b0 / 4 * 4 = set_type_sum t h v in
    let small : type_code t < 4 = code_small t in
    let code : (set_type t h).b0 % 4 ≡ type_code t = omega arith in
    let same : (set_type t h).b0 / 4 ≡ h.b0 / 4 = omega arith in
    (
      type_mod (set_type t h) ∙ ap to_type code ∙ type_of_code t,
      chunk_size_same h (set_type t h) same,
      number_valid_bytes_same h (set_type t h) same refl,
      record { byte0 = omega arith; byte1 = v.byte1; byte2 = v.byte2; byte3 = v.byte3 },
    )
