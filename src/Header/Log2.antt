-- ===== src/Header/Log2.antt =====
-- `ChunkHeader::log2` is the integer logarithm: the De Bruijn table against the two powers around it.
use native.Mathlib.Decide.{dec_lt}
use inecontainer.Prelude.{
  ℕ, zero, suc, ◌*◌, ◌-◌, ◌^◌, ◌≤◌, ◌<◌, ◌≡◌, refl, ap, ◌∙◌, true, get_or, arith,
}
use inecontainer.Prelude.Words.{u32, ◌>>>◌}
use inecontainer.Prelude.Range.{agree_below, agree_below_lem}
use inecontainer.Header.Tables.{mul_de_bruijn_bit_table}
use inecontainer.Header.{log2, smear_word}
use inecontainer.Header.Bits.{smear_fills}

table_entry : ℕ → ℕ
table_entry y = get_or mul_de_bruijn_bit_table (u32 (y * 0x07C4ACDD) >>> 27) 0

-- The table answers for each of the 32 smeared words.
table_checked : agree_below 32 (λ n. table_entry (2 ^ suc n - 1)) (λ n. n) ≡ true
unfolding agree_below table_entry mul_de_bruijn_bit_table
table_checked = refl

log2_between : (n x : ℕ) → n < 32 → 2 ^ n ≤ x → x < 2 ^ suc n → log2 x ≡ n
unfolding log2 table_entry
log2_between n x small lo hi =
    ap table_entry filled
    ∙ agree_below_lem (λ n. table_entry (2 ^ suc n - 1)) (λ n. n) 32 table_checked n small
  where
    filled : smear_word x ≡ 2 ^ suc n - 1
    filled = omega (arith, smear_fills n x small lo hi)

-- Every positive word lies between two neighbouring powers of two.
power_below : (k x : ℕ) → 0 < x → x < 2 ^ k → (n : ℕ) × (n < k) × (2 ^ n ≤ x) × (x < 2 ^ suc n)
power_below zero x pos small = absurd (omega arith)
power_below (suc k) x pos small = elim (dec_lt x (2 ^ k)) [
  | yes p ↦ let (n, below, lo, hi) = power_below k x pos p in (n, omega arith, lo, hi)
  | no p ↦ (k, omega arith, omega arith, small)
]

-- For a positive 32-bit word `log2` is the exponent of the largest power of two that is not above it.
pub log2_bounds : (x : ℕ) → 0 < x → x < 2 ^ 32 → (2 ^ log2 x ≤ x) × (x < 2 ^ suc (log2 x))
log2_bounds x pos small =
    let (n, below, lo, hi) = power_below 32 x pos small in
    rw (log2_between n x below lo hi) (lo, hi)
