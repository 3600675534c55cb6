-- ===== src/Header/Fill.antt =====
-- `setBestFitSize`, `setAllBytesValid` and the fill chunks that are built from them.
use native.Mathlib.Nat.{pow-suc}
use native.Mathlib.Decide.{dec_lt}
use Prim.Native.Nat.{bit_and, bit_or}
use inecontainer.Prelude.{
  ℕ, suc, ◌+◌, ◌-◌, ◌*◌, ◌/◌, ◌%◌, ◌^◌, ◌≤◌, ◌<◌, ◌≡◌, refl, sym, ◌∙◌, ap, true, ◌⊎◌, inl, inr,
  lt→ltb, ge→ltb, [], arith,
}
use inecontainer.Prelude.Words.{u8, ◌<<<◌, sub32}
use inecontainer.Prelude.Bits.{bit_and_mask}
use inecontainer.Prelude.Range.{agree_in_rows, agree_in_rows_lem}
use inecontainer.Header.{
  ChunkHeader, IsBytes, type, to_type, fill_chunk, number_invalid_bytes, chunk_size,
  number_valid_bytes, log2, best_fit_bits, set_best_fit_size, set_all_bytes_valid, new_fill_chunk,
  new_chunk_header, set_type, set_number_valid_bytes, write_valid_count,
}
use inecontainer.Header.Log2.{log2_bounds}
use inecontainer.Header.Fields.{
  type_mod, chunk_size_pow, chunk_size_range, number_invalid_bytes_sum, set_type_lem,
}
use inecontainer.Header.Sizes.{pow_two_mono, exponent_lt}

-- The byte that `setBestFitSize` writes keeps the type and the count's low bits.
put_p2 : (b p : ℕ) → b < 256 → p < 8 → bit_or (bit_and b 0xE3) (p * 4) ≡ b % 4 + p * 4 + b / 32 * 32
put_p2 b p hb hp = agree_in_rows_lem _ _ 8 256 checked p hp b hb
  where
    checked :
        agree_in_rows 8 256
          (λ p b. bit_or (bit_and b 0xE3) (p * 4))
          (λ p b. b % 4 + p * 4 + b / 32 * 32)
        ≡ true
    checked = unfold agree_in_rows in refl

-- What stays when the power of two `p` is put into the first byte.
put_p2_lem :
    (p : ℕ) (h : ChunkHeader)
    → IsBytes h
    → p < 8
    → let h' = record h { b0 = u8 (bit_or (bit_and h.b0 0xE3) (p * 4)) } in
      (chunk_size h' ≡ 2 ^ (p + 5))
      × (type h' ≡ type h)
      × (number_invalid_bytes h' ≡ number_invalid_bytes h)
      × IsBytes h'
put_p2_lem p h v small =
    let b : bit_or (bit_and h.b0 0xE3) (p * 4) ≡ h.b0 % 4 + p * 4 + h.b0 / 32 * 32 =
      put_p2 h.b0 p v.byte0 small in
    let b0 : ℕ = u8 (bit_or (bit_and h.b0 0xE3) (p * 4)) in
    let h' : ChunkHeader = record h { b0 = b0 } in
    let exponent : b0 / 4 % 8 + 5 ≡ p + 5 = omega arith in
    let kind : b0 % 4 ≡ h.b0 % 4 = omega arith in
    (
      chunk_size_pow h' ∙ ap (λ (k : ℕ). 2 ^ k) exponent,
      type_mod h' ∙ ap to_type kind ∙ sym (type_mod h),
      omega (arith, number_invalid_bytes_sum h, number_invalid_bytes_sum h'),
      record { byte0 = omega arith; byte1 = v.byte1; byte2 = v.byte2; byte3 = v.byte3 },
    )

-- `requiredBits` of `setBestFitSize`: the largest exponent whose power of two is a chunk size in the space.
best_fit_bits_lem :
    (space : ℕ)
    → 32 ≤ space
    → space < 2 ^ 32
    → (5 ≤ best_fit_bits space)
      × (best_fit_bits space ≤ 12)
      × (2 ^ best_fit_bits space ≤ space)
      × ((2 ^ best_fit_bits space ≡ 4096) ⊎ (space < 2 * 2 ^ best_fit_bits space))
unfolding best_fit_bits
best_fit_bits_lem space lo hi = elim (dec_lt 12 (log2 space)) [
  | yes p ↦ rw (lt→ltb 12 (log2 space) p) (
    omega arith,
    omega arith,
    omega (arith, b.0, pow_two_mono 12 (log2 space) (omega arith)),
    inl refl,
  )
  | no p ↦ rw (ge→ltb 12 (log2 space) (omega arith)) (
    omega (arith, exponent_lt 5 (suc (log2 space)) (omega (arith, b.1))),
    omega arith,
    b.0,
    inr (omega (arith, b.1, pow-suc 2 (log2 space))),
  )
]
  where
    b : (2 ^ log2 space ≤ space) × (space < 2 ^ suc (log2 space))
    b = log2_bounds space (omega arith) hi

-- Given at least 32 bytes, `setBestFitSize` returns the largest chunk size that the space holds, the
-- header then says that size, and its type and its count of invalid bytes stay as they were.
pub set_best_fit_size_lem :
    (space : ℕ) (h : ChunkHeader)
    → IsBytes h
    → 32 ≤ space
    → space < 2 ^ 32
    → let (h', size) = set_best_fit_size space h in
      (size ≤ space)
      × ((size ≡ 4096) ⊎ (space < 2 * size))
      × (chunk_size h' ≡ size)
      × (type h' ≡ type h)
      × (number_invalid_bytes h' ≡ number_invalid_bytes h)
      × IsBytes h'
unfolding set_best_fit_size
set_best_fit_size_lem space h v lo hi =
    let p = put_p2_lem (best_fit_bits space - 5) h v (omega (arith, f)) in
    rw (ge→ltb space 32 lo, one_pow, exponent)
      (f.2, f.3, p.0 ∙ ap (λ (k : ℕ). 2 ^ k) back, p.1, p.2, p.3)
  where
    f :
        (5 ≤ best_fit_bits space)
        × (best_fit_bits space ≤ 12)
        × (2 ^ best_fit_bits space ≤ space)
        × ((2 ^ best_fit_bits space ≡ 4096) ⊎ (space < 2 * 2 ^ best_fit_bits space))
    f = best_fit_bits_lem space lo hi

    exponent : sub32 (best_fit_bits space) 5 ≡ best_fit_bits space - 5
    exponent = omega (arith, f)

    back : best_fit_bits space - 5 + 5 ≡ best_fit_bits space
    back = omega (arith, f)

    one_pow : 1 <<< best_fit_bits space ≡ 2 ^ best_fit_bits space
    one_pow = omega arith

set_all_bytes_valid_lem :
    (h : ChunkHeader)
    → (chunk_size (set_all_bytes_valid h) ≡ chunk_size h)
      × (type (set_all_bytes_valid h) ≡ type h)
      × (number_invalid_bytes (set_all_bytes_valid h) ≡ 0)
unfolding set_all_bytes_valid
set_all_bytes_valid_lem h =
    let h' : ChunkHeader = record h { b0 = bit_and h.b0 0x1F; b1 = 0 } in
    let low : h'.b0 ≡ h.b0 % 32 = bit_and_mask 5 31 h.b0 refl in
    let exponent : h'.b0 / 4 % 8 ≡ h.b0 / 4 % 8 = omega arith in
    let kind : h'.b0 % 4 ≡ h.b0 % 4 = omega arith in
    (
      chunk_size_pow h' ∙ ap (λ (q : ℕ). 2 ^ (q + 5)) exponent ∙ sym (chunk_size_pow h),
      type_mod h' ∙ ap to_type kind ∙ sym (type_mod h),
      omega (arith, number_invalid_bytes_sum h'),
    )

fresh-IsBytes : IsBytes (new_chunk_header [])
unfolding new_chunk_header set_number_valid_bytes write_valid_count
fresh-IsBytes = record {
  byte0 = omega arith;
  byte1 = omega arith;
  byte2 = omega arith;
  byte3 = omega arith;
}

-- `FillChunk` over at least 32 bytes of free space: a fill chunk of the largest size that the space
-- holds, all of whose bytes behind the 4-byte header count as valid.
pub new_fill_chunk_lem :
    (space : ℕ)
    → 32 ≤ space
    → space < 2 ^ 32
    → let h = new_fill_chunk space in
      (type h ≡ fill_chunk)
      × (chunk_size h ≤ space)
      × ((chunk_size h ≡ 4096) ⊎ (space < 2 * chunk_size h))
      × (number_valid_bytes h ≡ chunk_size h - 4)
unfolding new_fill_chunk number_valid_bytes
new_fill_chunk_lem space lo hi =
    let (kind, size₀, valid₀, bytes) =
      set_type_lem fill_chunk (new_chunk_header []) fresh-IsBytes in
    let (fits, largest, size, kind', invalid, bytes') =
      set_best_fit_size_lem space (set_type fill_chunk (new_chunk_header [])) bytes lo hi in
    let h' : ChunkHeader =
      (set_best_fit_size space (set_type fill_chunk (new_chunk_header []))).0 in
    let (same_size, same_kind, none_invalid) = set_all_bytes_valid_lem h' in
    (
      same_kind ∙ kind' ∙ kind,
      omega arith,
      rw (same_size, size) largest,
      omega (arith, chunk_size_range (new_fill_chunk space)),
    )
