-- ===== src/Header/Sizes.antt =====
-- `setNumberValidBytes`, `setBestFitSize` and `FillChunk`: which chunk size is chosen, and what the
-- header then says.
use native.Mathlib.Nat.{pow-suc, pow-le-pow_right}
use native.Mathlib.Decide.{dec_lt}
use Prim.Native.Nat.{bit_and}
use inecontainer.Prelude.{
  ℕ, suc, ◌+◌, ◌-◌, ◌*◌, ◌/◌, ◌%◌, ◌^◌, ◌≤◌, ◌<◌, min, ◌≡◌, refl, sym, ◌∙◌, ap, true, false, not,
  Bool, ◌⊎◌, inl, inr, ◌==◌, Bool-cases, ltb, lt→ltb, ge→ltb, if◌then◌else◌, arith,
}
use inecontainer.Prelude.Words.{u8, ◌>>>◌, ◌<<<◌, sub32, add32}
use inecontainer.Header.{
  ChunkHeader, type, to_type, chunk_size, number_valid_bytes, log2, required_bits, header_word,
  maximum_payload_size, set_number_valid_bytes, write_valid_count,
}
use inecontainer.Prelude.Bits.{bit_and_mask}
use inecontainer.Header.Log2.{log2_bounds}
use inecontainer.Header.Fields.{
  type_mod, chunk_size_pow, chunk_size_range, number_invalid_bytes_sum, header_word_sum,
}

-- What `requiredBits` is: the least exponent from 5 on whose power of two holds the chunk.
pub record Fits (count bits : ℕ) : Type 0 where
  pub at_least : 5 ≤ bits
  pub at_most : bits ≤ 12
  pub holds : count + 4 ≤ 2 ^ bits
  pub tight : (bits ≡ 5) ⊎ (2 ^ bits < 2 * (count + 4))

pub pow_two_mono : (m n : ℕ) → m ≤ n → 2 ^ m ≤ 2 ^ n
pow_two_mono m n h = pow-le-pow_right {n = 2} (omega arith) {i = m} {j = n} h

-- A power of two under a bound has a small exponent.
pub exponent_lt : (l k : ℕ) → 2 ^ l < 2 ^ k → l < k
exponent_lt l k h = elim (dec_lt l k) [
  | yes p ↦ p
  | no p ↦ absurd (omega (arith, pow_two_mono k l (omega arith)))
]

rounded-Fits :
    (count l : ℕ)
    → count ≤ 4092
    → 2 ^ l ≤ count + 3
    → count + 3 < 2 ^ suc l
    → Fits count (if ltb (l + 1) 5 then 5 else l + 1)
rounded-Fits count l small lo hi = elim (dec_lt (l + 1) 5) [
  | yes p ↦
      let under : 2 ^ suc l ≤ 2 ^ 4 = pow_two_mono (suc l) 4 (omega arith) in
      rw (lt→ltb _ _ p) (record {
        at_least = omega arith;
        at_most = omega arith;
        holds = omega arith;
        tight = inl refl;
      })
  | no p ↦
      let top : l < 12 = exponent_lt l 12 (omega arith) in
      let bits : l + 1 ≡ suc l = omega arith in
      rw (ge→ltb (l + 1) 5 (omega arith), bits)
        (record {
          at_least = omega arith;
          at_most = omega arith;
          holds = omega arith;
          tight = inr (omega (arith, pow-suc 2 l));
        })
]

pub required_bits-Fits : (count : ℕ) → count ≤ 4092 → Fits count (required_bits count)
unfolding required_bits
required_bits-Fits count small =
    rw last (rounded-Fits count (log2 (count + 3)) small bounds.0 bounds.1)
  where
    last : sub32 (add32 count 4) 1 ≡ count + 3
    last = omega arith

    bounds : (2 ^ log2 (count + 3) ≤ count + 3) × (count + 3 < 2 ^ suc (log2 (count + 3)))
    bounds = log2_bounds (count + 3) (omega arith) (omega arith)

-- The largest payload is at most what a 4096-byte chunk takes, and `setNumberValidBytes` asserts no more.
maximum_payload_size_range :
    (grow : Bool) (h : ChunkHeader)
    → (28 ≤ maximum_payload_size grow h) × (maximum_payload_size grow h ≤ 4092)
unfolding maximum_payload_size
maximum_payload_size_range true h = omega arith
maximum_payload_size_range false h = omega (arith, chunk_size_range h)

Fits-room : (count bits : ℕ) → Fits count bits → count ≤ 4092 → 2 ^ bits - count - 4 < 2048
Fits-room count bits f small = elim f.tight [
  | inl e ↦ omega (arith, pow_two_mono bits 5 (omega arith))
  | inr e ↦ omega (arith, pow_two_mono bits 12 f.at_most)
]

-- A header whose two first bytes spell the fields that `setNumberValidBytes` computed.
written_word :
    (h' : ChunkHeader) (t count bits : ℕ)
    → t < 4
    → Fits count bits
    → count ≤ 4092
    → h'.b0 ≡ u8 (header_word t bits (2 ^ bits - count - 4))
    → h'.b1 ≡ u8 (header_word t bits (2 ^ bits - count - 4) >>> 8)
    → (chunk_size h' ≡ 2 ^ bits) × (number_valid_bytes h' ≡ count) × (h'.b0 % 4 ≡ t)
unfolding number_valid_bytes
written_word h' t count bits ht f small e0 e1 =
    let top : 2 ^ bits ≤ 2 ^ 12 = pow_two_mono bits 12 f.at_most in
    let room : 2 ^ bits - count - 4 < 2048 = Fits-room count bits f small in
    let word : header_word t bits (2 ^ bits - count - 4)
        ≡ t + (bits - 5) * 4 + (2 ^ bits - count - 4) * 32 =
      header_word_sum t bits (2 ^ bits - count - 4) ht f.at_least f.at_most room in
    let p2 : h'.b0 / 4 % 8 + 5 ≡ bits = omega (arith, f.at_least, f.at_most) in
    let size : chunk_size h' ≡ 2 ^ bits = chunk_size_pow h' ∙ ap (λ (k : ℕ). 2 ^ k) p2 in
    (size, omega (arith, number_invalid_bytes_sum h', f.holds), omega arith)

record Written (h : ChunkHeader) (count : ℕ) : Type 0 where
  size : chunk_size (write_valid_count count h) ≡ 2 ^ required_bits count
  valid : number_valid_bytes (write_valid_count count h) ≡ count
  kind : type (write_valid_count count h) ≡ type h

write_valid_count-Written : (h : ChunkHeader) (count : ℕ) → count ≤ 4092 → Written h count
unfolding write_valid_count
write_valid_count-Written h count small = record { size = fields.0; valid = fields.1; kind = kind }
  where
    f : Fits count (required_bits count)
    f = required_bits-Fits count small

    low : bit_and h.b0 0x03 ≡ h.b0 % 4
    low = bit_and_mask 2 3 h.b0 refl

    invalid :
        sub32 (sub32 (1 <<< required_bits count) count) 4 ≡ 2 ^ required_bits count - count - 4
    invalid = omega (arith, f.holds, pow_two_mono (required_bits count) 12 f.at_most)

    fields :
        (chunk_size (write_valid_count count h) ≡ 2 ^ required_bits count)
        × (number_valid_bytes (write_valid_count count h) ≡ count)
        × ((write_valid_count count h).b0 % 4 ≡ h.b0 % 4)
    fields =
        written_word (write_valid_count count h) (h.b0 % 4) count (required_bits count)
          (omega arith) f small (rw (low, invalid)) (rw (low, invalid))

    kind : type (write_valid_count count h) ≡ type h
    kind = type_mod (write_valid_count count h) ∙ ap to_type fields.2 ∙ sym (type_mod h)

-- The header `write_valid_count kept h` says `kept` valid bytes and the old type, in the smallest
-- chunk size for them.
abbrev pub Smallest : ℕ → ChunkHeader → Type 0
Smallest kept h =
    (number_valid_bytes (write_valid_count kept h) ≡ kept)
    × (type (write_valid_count kept h) ≡ type h)
    × (kept + 4 ≤ chunk_size (write_valid_count kept h))
    × ((chunk_size (write_valid_count kept h) ≡ 32)
        ⊎ (chunk_size (write_valid_count kept h) < 2 * (kept + 4)))
    × (not ((1 <<< required_bits kept) == chunk_size h)
        ≡ not (chunk_size (write_valid_count kept h) == chunk_size h))

write_valid_count-Smallest : (h : ChunkHeader) (kept : ℕ) → kept ≤ 4092 → Smallest kept h
write_valid_count-Smallest h kept small = (
  w.valid,
  w.kind,
  omega (arith, w.size, f.holds),
  smallest f.tight,
  ap (λ (k : ℕ). not (k == chunk_size h)) (omega (arith, w.size)),
)
  where
    w : Written h kept
    w = write_valid_count-Written h kept small

    f : Fits kept (required_bits kept)
    f = required_bits-Fits kept small

    smallest :
        (required_bits kept ≡ 5) ⊎ (2 ^ required_bits kept < 2 * (kept + 4))
        → (chunk_size (write_valid_count kept h) ≡ 32)
          ⊎ (chunk_size (write_valid_count kept h) < 2 * (kept + 4))
    smallest (inl e) = inl (w.size ∙ ap (λ (k : ℕ). 2 ^ k) e)
    smallest (inr e) = inr (omega (arith, w.size))

-- For any header and any wanted count, `setNumberValidBytes` keeps as much of the count as the
-- largest allowed chunk takes, the new header reads back exactly that count and the old type, and
-- its chunk size is the smallest of the eight sizes that holds the count behind a 4-byte header.
pub set_number_valid_bytes_lem :
    (count : ℕ) (grow : Bool) (h : ChunkHeader)
    → let (h', kept, changed) = set_number_valid_bytes count grow h in
      (kept ≡ min count (maximum_payload_size grow h))
      × ((number_valid_bytes h' ≡ kept)
          × (type h' ≡ type h)
          × (kept + 4 ≤ chunk_size h')
          × ((chunk_size h' ≡ 32) ⊎ (chunk_size h' < 2 * (kept + 4)))
          × (changed ≡ not (chunk_size h' == chunk_size h)))
unfolding set_number_valid_bytes
set_number_valid_bytes_lem count grow h =
    elim (Bool-cases (ltb (maximum_payload_size grow h) count)) [
      | inl over ↦ rw over (ground arith, parts (maximum_payload_size grow h) range.1)
      | inr under ↦ rw under (ground arith, parts count (ground (arith, range)))
    ]
  where
    range : (28 ≤ maximum_payload_size grow h) × (maximum_payload_size grow h ≤ 4092)
    range = maximum_payload_size_range grow h

    parts : (kept : ℕ) → kept ≤ 4092 → Smallest kept h
    parts kept small = write_valid_count-Smallest h kept small
