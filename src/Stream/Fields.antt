-- ===== src/Stream/Fields.antt =====
-- The stream identifier, the mark of the last chunk and the offset are stored side by side: each is
-- read back, and writing one leaves the others alone.
use Prim.Native.Nat.{bit_and, bit_or}
use inecontainer.Prelude.{
  ℕ, ◌+◌, ◌*◌, ◌/◌, ◌%◌, ◌≤◌, ◌<◌, ◌≡◌, refl, ◌∙◌, Bool, true, false, not, List, [], ◌∷◌, ◌==◌,
  length, All, get_or, arith,
}
use inecontainer.Prelude.Words.{u8, ◌>>>◌, ◌<<<◌}
use inecontainer.Prelude.Bits.{bit_or_field, bit_and_mask}
use inecontainer.Prelude.Range.{agree_below, agree_below_lem}
use inecontainer.Header.{ChunkHeader}
use inecontainer.Stream.{
  byte, set_stream_identifier, stream_identifier, set_last, is_last, set_chunk_offset, chunk_offset,
}

-- The bytes of the array are bytes.
abbrev pub IsByte : ℕ → Type 0
IsByte b = b < 256

-- A list with four elements at least is a cons of four.
with_four :
    (P : List ℕ → Type 0)
    → ((a b c d : ℕ) (rest : List ℕ) → P (a ∷ b ∷ c ∷ d ∷ rest))
    → (xs : List ℕ) → 4 ≤ length xs
    → P xs
with_four P f (a ∷ b ∷ c ∷ d ∷ rest) le = f a b c d rest
with_four P f [] le = absurd (omega arith)
with_four P f (a ∷ []) le = absurd (omega arith)
with_four P f (a ∷ b ∷ []) le = absurd (omega arith)
with_four P f (a ∷ b ∷ c ∷ []) le = absurd (omega arith)

abbrev join_four : ℕ → ℕ → ℕ → ℕ → ℕ
join_four a b c d = bit_or (bit_or (bit_or a (b <<< 8)) (c <<< 16)) (d <<< 24)

join_four_lem :
    (a b c d : ℕ)
    → a < 256
    → b < 256
    → c < 256
    → join_four a b c d ≡ a + b * 256 + c * 65536 + d * 16777216
join_four_lem a b c d la lb lc =
    rw (bit_or_field 8 a b (omega arith), bit_or_field 16 (a + b * 256) c (omega arith))
      (bit_or_field 24 (a + b * 256 + c * 65536) d (omega arith))

top_bit : (b : ℕ) → b < 256 → bit_and b 0x80 ≡ b / 128 * 128
top_bit b h = agree_below_lem _ _ 256 checked b h
  where
    checked : agree_below 256 (λ b. bit_and b 0x80) (λ b. b / 128 * 128) ≡ true
    checked = unfold agree_below in refl

set_top_bit : (b : ℕ) → b < 256 → bit_or b 0x80 ≡ b % 128 + 128
set_top_bit b h = agree_below_lem _ _ 256 checked b h
  where
    checked : agree_below 256 (λ b. bit_or b 0x80) (λ b. b % 128 + 128) ≡ true
    checked = unfold agree_below in refl

identifier_of :
    (a b c d : ℕ)
    → a < 256
    → b < 256
    → c < 256
    → bit_and (join_four a b c d) 0x7FFFFFFF ≡ a + b * 256 + c * 65536 + d % 128 * 16777216
identifier_of a b c d la lb lc =
    bit_and_mask 31 0x7FFFFFFF (join_four a b c d) refl
    ∙ rw (join_four_lem a b c d la lb lc) (omega arith)

stored_identifier_byte :
    (x d : ℕ) → d < 256 → bit_or (bit_and (u8 x) 0x7F) (bit_and d 0x80) ≡ x % 128 + d / 128 * 128
stored_identifier_byte x d ld =
    rw (bit_and_mask 7 0x7F (u8 x) refl, top_bit d ld)
      (bit_or_field 7 (u8 x % 128) (d / 128) (omega arith) ∙ omega arith)

mark_same :
    (d e : ℕ)
    → d < 256
    → e < 256
    → d / 128 ≡ e / 128
    → not (bit_and d 0x80 == 0) ≡ not (bit_and e 0x80 == 0)
mark_same d e ld le same = rw (top_bit d ld, top_bit e le, same) refl

marked : (d : ℕ) → d < 256 → not (bit_and (bit_or d 0x80) 0x80 == 0) ≡ true
marked d ld = rw (set_top_bit d ld, top_bit (d % 128 + 128) (omega arith), one) refl
  where
    one : (d % 128 + 128) / 128 ≡ 1
    one = omega arith

unmarked : (d : ℕ) → d < 256 → not (bit_and (bit_and d 0x7F) 0x80 == 0) ≡ false
unmarked d ld = rw (bit_and_mask 7 0x7F d refl, top_bit (d % 128) (omega arith), none) refl
  where
    none : d % 128 / 128 ≡ 0
    none = omega arith

same_identifier :
    (a b c d e : ℕ)
    → a < 256
    → b < 256
    → c < 256
    → e % 128 ≡ d % 128
    → bit_and (join_four a b c e) 0x7FFFFFFF ≡ bit_and (join_four a b c d) 0x7FFFFFFF
same_identifier a b c d e la lb lc same =
    rw (identifier_of a b c e la lb lc, identifier_of a b c d la lb lc, same) refl

-- The identifier is read back modulo 2^31, and the mark of the last chunk and the offset stay.
pub set_stream_identifier_lem :
    (id : ℕ) (h : ChunkHeader)
    → 4 ≤ length h.additional
    → byte 3 h < 256
    → (stream_identifier (set_stream_identifier id h) ≡ id % 2147483648)
      × (is_last (set_stream_identifier id h) ≡ is_last h)
      × (chunk_offset (set_stream_identifier id h) ≡ chunk_offset h)
unfolding stream_identifier set_stream_identifier is_last chunk_offset
set_stream_identifier_lem id h le b3 =
    with_four
      (λ (xs : List ℕ).
        get_or xs 3 0 < 256
        → (stream_identifier (set_stream_identifier id (record h { additional = xs }))
            ≡ id % 2147483648)
          × (is_last (set_stream_identifier id (record h { additional = xs }))
              ≡ is_last (record h { additional = xs }))
          × (chunk_offset (set_stream_identifier id (record h { additional = xs }))
              ≡ chunk_offset (record h { additional = xs })))
      (λ a b c d rest ld. (
        rw (stored_identifier_byte (id >>> 24) d ld) (
            identifier_of (u8 id) (u8 (id >>> 8)) (u8 (id >>> 16)) _ (omega arith) (omega arith)
              (omega arith)
            ∙ omega arith),
        rw (stored_identifier_byte (id >>> 24) d ld)
            (mark_same ((id >>> 24) % 128 + d / 128 * 128) d (omega arith) ld (omega arith)),
        refl,
      ))
      h.additional le b3

-- The mark of the last chunk is read back, and the identifier and the offset stay.
pub set_last_lem :
    (now_last : Bool) (h : ChunkHeader)
    → 4 ≤ length h.additional
    → All IsByte h.additional
    → (is_last (set_last now_last h) ≡ now_last)
      × (stream_identifier (set_last now_last h) ≡ stream_identifier h)
      × (chunk_offset (set_last now_last h) ≡ chunk_offset h)
unfolding stream_identifier set_last is_last chunk_offset
set_last_lem true h le bytes =
    with_four
      (λ (xs : List ℕ).
        All IsByte xs
        → (is_last (set_last true (record h { additional = xs })) ≡ true)
          × (stream_identifier (set_last true (record h { additional = xs }))
              ≡ stream_identifier (record h { additional = xs }))
          × (chunk_offset (set_last true (record h { additional = xs }))
              ≡ chunk_offset (record h { additional = xs })))
      (λ a b c d rest l. (
        marked d l.1.1.1.0,
        same_identifier a b c d (bit_or d 0x80) l.0 l.1.0 l.1.1.0
            (rw (set_top_bit d l.1.1.1.0) (omega arith)),
        refl,
      ))
      h.additional le bytes
set_last_lem false h le bytes =
    with_four
      (λ (xs : List ℕ).
        All IsByte xs
        → (is_last (set_last false (record h { additional = xs })) ≡ false)
          × (stream_identifier (set_last false (record h { additional = xs }))
              ≡ stream_identifier (record h { additional = xs }))
          × (chunk_offset (set_last false (record h { additional = xs }))
              ≡ chunk_offset (record h { additional = xs })))
      (λ a b c d rest l. (
        unmarked d l.1.1.1.0,
        same_identifier a b c d (bit_and d 0x7F) l.0 l.1.0 l.1.1.0
            (rw (bit_and_mask 7 0x7F d refl) (omega arith)),
        refl,
      ))
      h.additional le bytes

with_six :
    (P : List ℕ → Type 0)
    → ((a b c d e f : ℕ) (rest : List ℕ) → P (a ∷ b ∷ c ∷ d ∷ e ∷ f ∷ rest))
    → (xs : List ℕ) → 6 ≤ length xs
    → P xs
with_six P f (a ∷ b ∷ c ∷ d ∷ e ∷ g ∷ rest) le = f a b c d e g rest
with_six P f [] le = absurd (omega arith)
with_six P f (a ∷ []) le = absurd (omega arith)
with_six P f (a ∷ b ∷ []) le = absurd (omega arith)
with_six P f (a ∷ b ∷ c ∷ []) le = absurd (omega arith)
with_six P f (a ∷ b ∷ c ∷ d ∷ []) le = absurd (omega arith)
with_six P f (a ∷ b ∷ c ∷ d ∷ e ∷ []) le = absurd (omega arith)

join_six_lem :
    (a b c d e f : ℕ)
    → a < 256
    → b < 256
    → c < 256
    → d < 256
    → e < 256
    → bit_or (bit_or (join_four a b c d) (e <<< 32)) (f <<< 40)
      ≡ a + b * 256 + c * 65536 + d * 16777216 + e * 4294967296 + f * 1099511627776
join_six_lem a b c d e f la lb lc ld le =
    rw
      (
        join_four_lem a b c d la lb lc,
        bit_or_field 32 (a + b * 256 + c * 65536 + d * 16777216) e (omega arith),
      )
      (bit_or_field 40 (a + b * 256 + c * 65536 + d * 16777216 + e * 4294967296) f (omega arith))

stored_offset :
    (o : ℕ)
    → bit_or
        (bit_or
          (join_four (u8 o) (u8 (o >>> 8)) (u8 (o >>> 16)) (u8 (o >>> 24)))
          (u8 (o >>> 32) <<< 32))
        (u8 (o >>> 40) <<< 40)
      ≡ o % 281474976710656
stored_offset o =
    join_six_lem (u8 o) (u8 (o >>> 8)) (u8 (o >>> 16)) (u8 (o >>> 24)) (u8 (o >>> 32))
      (u8 (o >>> 40)) (omega arith) (omega arith) (omega arith) (omega arith) (omega arith)
    ∙ omega arith

-- The offset of a chunk is read back modulo 2^48, and the identifier and the mark of the last chunk
-- stay.
pub set_chunk_offset_lem :
    (offset : ℕ) (h : ChunkHeader)
    → 10 ≤ length h.additional
    → (chunk_offset (set_chunk_offset offset h) ≡ offset % 281474976710656)
      × (stream_identifier (set_chunk_offset offset h) ≡ stream_identifier h)
      × (is_last (set_chunk_offset offset h) ≡ is_last h)
unfolding stream_identifier is_last chunk_offset set_chunk_offset
set_chunk_offset_lem offset h le =
    with_four
      (λ (xs : List ℕ).
        10 ≤ length xs
        → (chunk_offset (set_chunk_offset offset (record h { additional = xs }))
            ≡ offset % 281474976710656)
          × (stream_identifier (set_chunk_offset offset (record h { additional = xs }))
              ≡ stream_identifier (record h { additional = xs }))
          × (is_last (set_chunk_offset offset (record h { additional = xs }))
              ≡ is_last (record h { additional = xs })))
      (λ a b c d rest le.
        with_six
          (λ (ys : List ℕ).
            (chunk_offset (set_chunk_offset offset (record h { additional = a ∷ b ∷ c ∷ d ∷ ys }))
              ≡ offset % 281474976710656)
            × (stream_identifier
                  (set_chunk_offset offset (record h { additional = a ∷ b ∷ c ∷ d ∷ ys }))
                ≡ stream_identifier (record h { additional = a ∷ b ∷ c ∷ d ∷ ys }))
            × (is_last (set_chunk_offset offset (record h { additional = a ∷ b ∷ c ∷ d ∷ ys }))
                ≡ is_last (record h { additional = a ∷ b ∷ c ∷ d ∷ ys })))
          (λ e f g i j k tail. (stored_offset offset, refl, refl)) rest (omega arith))
      h.additional (omega arith) le
