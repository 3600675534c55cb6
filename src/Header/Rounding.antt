-- ===== src/Header/Rounding.antt =====
-- File indices and positions, and the rounding of a space to a chunk size.
use native.Mathlib.Nat.{pow-le-pow_right}
use inecontainer.Prelude.{
  ◌↔◌, some, le→leb, ℕ, suc, ◌+◌, ◌-◌, ◌*◌, ◌^◌, ◌≤◌, ◌<◌, ◌≡◌, ◌∙◌, ap, arith,
}
use inecontainer.Prelude.Words.{u8, u32, sub32}
use inecontainer.Header.{
  log2, to_position, to_file_index, to_chunk_size, reduce_p2, to_closest_smaller_chunk_p2,
  to_closest_larger_chunk_p2,
}
use inecontainer.Header.Log2.{log2_bounds}
use inecontainer.Header.Sizes.{exponent_lt}

-- An index below 2^27, that is of a position below 4 GiB, is found again from its position.
pub to_file_index-to_position :
    (index : ℕ)
    → index < 134217728
    → (to_file_index (to_position index) ≡ index) × (to_position index ≡ 32 * index)
unfolding to_file_index to_position
to_file_index-to_position index small = (omega arith, omega arith)

log2_range : (x : ℕ) → 32 ≤ x → x < 2 ^ 32 → (5 ≤ log2 x) × (log2 x < 32)
log2_range x lo hi = (
  omega (arith, exponent_lt 5 (suc (log2 x)) (omega (arith, log2_bounds x (omega arith) hi))),
  exponent_lt (log2 x) 32 (omega (arith, log2_bounds x (omega arith) hi)),
)

same_power : (m n : ℕ) → m ≡ n → 2 ^ m ≡ 2 ^ n
same_power m n e = ap (λ (k : ℕ). 2 ^ k) e

reduced_p2 : (p2 : ℕ) → 5 ≤ p2 → p2 < 256 → reduce_p2 p2 ≡ p2 - 5
reduced_p2 p2 lo hi = ground arith

smaller_exponent : (x : ℕ) → 32 ≤ x → x < 2 ^ 32 → to_closest_smaller_chunk_p2 x ≡ log2 x - 5
unfolding to_closest_smaller_chunk_p2
smaller_exponent x lo hi = rw (word, byte) (reduced_p2 (log2 x) r.0 (omega (arith, r.1)))
  where
    r : (5 ≤ log2 x) × (log2 x < 32)
    r = log2_range x lo hi

    word : u32 x ≡ x
    word = omega arith

    byte : u8 (log2 x) ≡ log2 x
    byte = omega (arith, r.1)

smaller_bounds :
    (space : ℕ)
    → 32 ≤ space
    → space < 2 ^ 32
    → (2 ^ (to_closest_smaller_chunk_p2 space + 5) ≤ space)
      × (space < 2 ^ (to_closest_smaller_chunk_p2 space + 6))
smaller_bounds space lo hi =
    rw
      (
        same_power (to_closest_smaller_chunk_p2 space + 5) (log2 space) (omega (arith, e, r.0)),
        same_power (to_closest_smaller_chunk_p2 space + 6) (suc (log2 space))
            (omega (arith, e, r.0)),
      )
      (log2_bounds space (omega arith) hi)
  where
    e : to_closest_smaller_chunk_p2 space ≡ log2 space - 5
    e = smaller_exponent space lo hi

    r : (5 ≤ log2 space) × (log2 space < 32)
    r = log2_range space lo hi

-- Given 32 to 2^32 - 1 bytes, toClosestSmallerChunkP2 is the exponent of the largest power of two, in
-- units of 32 bytes, that the space holds; it is one of a chunk size, 7 at most, exactly for a space
-- below 8192.
pub to_closest_smaller_chunk_p2_lem :
    (space : ℕ)
    → 32 ≤ space
    → space < 2 ^ 32
    → let p2 = to_closest_smaller_chunk_p2 space in
      ((2 ^ (p2 + 5) ≤ space) × (space < 2 ^ (p2 + 6))) × ((p2 ≤ 7) ↔ (space < 8192))
to_closest_smaller_chunk_p2_lem space lo hi =
    let b = smaller_bounds space lo hi in
    (
      b,
      (
        λ le. omega (
          arith,
          b.1,
          pow-le-pow_right {n = 2} (omega arith) {i = to_closest_smaller_chunk_p2 space + 6}
              {j = 13} (omega (arith, le)),
        ),
        λ lt. omega (
          arith,
          exponent_lt (to_closest_smaller_chunk_p2 space + 5) 13 (omega (arith, b.0, lt)),
        ),
      ),
    )

larger_exponent : (x : ℕ) → 32 < x → x < 2 ^ 32 → to_closest_larger_chunk_p2 x ≡ log2 (x - 1) - 4
unfolding to_closest_larger_chunk_p2
larger_exponent x lo hi =
    rw (word, byte)
      (reduced_p2 (log2 (x - 1) + 1) (omega (arith, r.0)) (omega (arith, r.1)) ∙ omega arith)
  where
    r : (5 ≤ log2 (x - 1)) × (log2 (x - 1) < 32)
    r = log2_range (x - 1) (omega arith) (omega arith)

    word : sub32 x 1 ≡ x - 1
    word = omega arith

    byte : u8 (log2 (x - 1) + 1) ≡ log2 (x - 1) + 1
    byte = omega (arith, r.1)

larger_bounds :
    (space : ℕ)
    → 32 < space
    → space < 2 ^ 32
    → (space ≤ 2 ^ (to_closest_larger_chunk_p2 space + 5))
      × (2 ^ (to_closest_larger_chunk_p2 space + 4) < space)
larger_bounds space lo hi =
    rw
      (
        same_power (to_closest_larger_chunk_p2 space + 5) (suc (log2 (space - 1)))
            (omega (arith, e, r.0)),
        same_power (to_closest_larger_chunk_p2 space + 4) (log2 (space - 1))
            (omega (arith, e, r.0)),
      )
      (omega (arith, b.1), omega (arith, b.0))
  where
    e : to_closest_larger_chunk_p2 space ≡ log2 (space - 1) - 4
    e = larger_exponent space lo hi

    r : (5 ≤ log2 (space - 1)) × (log2 (space - 1) < 32)
    r = log2_range (space - 1) (omega arith) (omega arith)

    b : (2 ^ log2 (space - 1) ≤ space - 1) × (space - 1 < 2 ^ suc (log2 (space - 1)))
    b = log2_bounds (space - 1) (omega arith) (omega arith)

-- Given 33 to 4096 bytes, toClosestLargerChunkP2 is an exponent that toChunkSize takes, 7 at most, and
-- the chunk size of it is the smallest that is not below the space.
pub to_closest_larger_chunk_p2_lem :
    (space : ℕ)
    → 32 < space
    → space ≤ 4096
    → let p2 = to_closest_larger_chunk_p2 space in
      (size : ℕ) × (to_chunk_size p2 ≡ some size) × (space ≤ size) × (size < 2 * space)
unfolding to_chunk_size
to_closest_larger_chunk_p2_lem space lo hi =
    let b = larger_bounds space lo (omega arith) in
    let small : to_closest_larger_chunk_p2 space ≤ 7 =
      omega (arith, exponent_lt (to_closest_larger_chunk_p2 space + 4) 12 (omega (arith, b.1))) in
    (
      2 ^ (to_closest_larger_chunk_p2 space + 5),
      rw (le→leb (to_closest_larger_chunk_p2 space) 7 small) (ap some (omega arith)),
      b.0,
      omega (
        arith,
        b.1,
        same_power (to_closest_larger_chunk_p2 space + 5)
            (suc (to_closest_larger_chunk_p2 space + 4)) (omega arith),
      ),
    )
