-- ===== src/Header/Bits.antt =====
-- Single bits of a word: what the smearing steps of `ChunkHeader::log2` do to each of them.
use native.Mathlib.Nat.{pow-suc, pow-succ', div-div-eq-div-mul, le_refl, zero-add, suc-add}
use native.Mathlib.Decide.{dec_lt}
use Prim.Native.Nat.{bit_or}
use inecontainer.Prelude.{
  ℕ, zero, suc, ◌+◌, ◌/◌, ◌%◌, ◌^◌, ◌≤◌, ◌<◌, max, ◌≡◌, refl, sym, ◌∙◌, ap, ap₂, arith,
}
use inecontainer.Prelude.Words.{◌>>>◌}
use inecontainer.Prelude.Bits.{bit_or_step}
use inecontainer.Header.{smear, smear_word}

pub bit : ℕ → ℕ → ℕ
bit x zero = x % 2
bit x (suc i) = bit (x / 2) i

-- The highest of the `k` bits of `x` from position `i` on.
pub any_bit : ℕ → ℕ → ℕ → ℕ
any_bit zero x i = 0
any_bit (suc k) x i = max (bit x i) (any_bit k x (suc i))

bit-bit_or : (i a b : ℕ) → bit (bit_or a b) i ≡ max (bit a i) (bit b i)
unfolding bit
bit-bit_or zero a b = omega (arith, bit_or_step a b)
bit-bit_or (suc i) a b = rw (halve, bit) (bit-bit_or i (a / 2) (b / 2))
  where
    halve : bit_or a b / 2 ≡ bit_or (a / 2) (b / 2)
    halve = omega (arith, bit_or_step a b)

halve_shift : (x k : ℕ) → x / 2 ^ suc k ≡ x / 2 / 2 ^ k
halve_shift x k = rw (pow-succ' 2 k) (sym (div-div-eq-div-mul x 2 (2 ^ k)))

same_bit : {x y i j : ℕ} → x ≡ y → i ≡ j → bit x i ≡ bit y j
same_bit e f = ap₂ bit e f

bit_shift : (k x i : ℕ) → bit (x >>> k) i ≡ bit x (k + i)
unfolding bit
bit_shift zero x i = same_bit {x = x >>> 0} {y = x} {i = i} {j = 0 + i} (omega arith) (omega arith)
bit_shift (suc k) x i = rw (halve_shift x k) (bit_shift k (x / 2) i ∙ sym (ap (bit x) next))
  where
    next : suc k + i ≡ suc (k + i)
    next = omega arith

bit-le : (i x : ℕ) → bit x i ≤ 1
unfolding bit
bit-le zero x = omega arith
bit-le (suc i) x = bit-le i (x / 2)

any_bit-le : (k x i : ℕ) → any_bit k x i ≤ 1
unfolding any_bit
any_bit-le zero x i = omega arith
any_bit-le (suc k) x i = omega (arith, bit-le i x, any_bit-le k x (suc i))

any_bit-add : (k m x i : ℕ) → any_bit (k + m) x i ≡ max (any_bit k x i) (any_bit m x (k + i))
unfolding any_bit
any_bit-add zero m x i = cc (to_m, to_i)
  where
    to_m : 0 + m ≡ m
    to_m = omega arith

    to_i : max 0 (any_bit m x (0 + i)) ≡ any_bit m x i
    to_i = rw zero-add (omega arith)
any_bit-add (suc k) m x i =
    rw suc-add (omega (arith, any_bit-add k m x (suc i), ap (any_bit m x) same_place))
  where
    same_place : k + suc i ≡ suc k + i
    same_place = omega arith

-- One step of the smearing doubles how far each bit looks up.
smear-any_bit :
    (k x y : ℕ)
    → ((i : ℕ) → bit y i ≡ any_bit k x i)
    → (i : ℕ) → bit (smear k y) i ≡ any_bit (k + k) x i
smear-any_bit k x y h i =
    bit-bit_or i y (y >>> k)
    ∙ ap₂ max (h i) (bit_shift k y i ∙ h (k + i))
    ∙ sym (any_bit-add k k x i)

-- All five steps together: every bit of the result tells whether any bit of `x` stands there or above.
pub smear_all : (x i : ℕ) → bit (smear_word x) i ≡ any_bit 32 x i
unfolding any_bit
smear_all x =
    smear-any_bit 16 x _
      (smear-any_bit 8 x _ (smear-any_bit 4 x _ (smear-any_bit 2 x _ (smear-any_bit 1 x _ start))))
  where
    start : (i : ℕ) → bit x i ≡ any_bit 1 x i
    start i = omega (arith, bit-le i x)

any_bit-one : (k x i n : ℕ) → bit x n ≡ 1 → i ≤ n → n < k + i → any_bit k x i ≡ 1
unfolding any_bit
any_bit-one zero x i n h lo hi = absurd (omega arith)
any_bit-one (suc k) x i n h lo hi = elim (dec_lt i n) [
  | yes p ↦ omega (arith, bit-le i x, any_bit-one k x (suc i) n h (omega arith) (omega arith))
  | no p ↦
      let at_n : i ≡ n = omega arith in omega (arith, any_bit-le k x (suc i), ap (bit x) at_n, h)
]

any_bit-zero : (k x i : ℕ) → ((j : ℕ) → i ≤ j → bit x j ≡ 0) → any_bit k x i ≡ 0
unfolding any_bit
any_bit-zero zero x i h = refl
any_bit-zero (suc k) x i h =
    omega (arith, h i (omega arith), any_bit-zero k x (suc i) (λ j p. h j (omega arith)))

-- A word between two powers of two has its top bit there, and none above.
bit_top : (n x : ℕ) → 2 ^ n ≤ x → x < 2 ^ suc n → bit x n ≡ 1
unfolding bit
bit_top zero x lo hi = omega arith
bit_top (suc n) x lo hi =
    bit_top n (x / 2) (omega (arith, pow-suc 2 n)) (omega (arith, pow-suc 2 n, pow-suc 2 (suc n)))

bit_above : (n x i : ℕ) → x < 2 ^ n → n ≤ i → bit x i ≡ 0
unfolding bit
bit_above zero x zero hi p = omega arith
bit_above zero x (suc i) hi p = bit_above zero (x / 2) i (omega arith) (omega arith)
bit_above (suc n) x zero hi p = absurd (omega arith)
bit_above (suc n) x (suc i) hi p = bit_above n (x / 2) i (omega (arith, pow-suc 2 n)) (omega arith)

no_bit : (k y : ℕ) → y ≤ k → ((i : ℕ) → bit y i ≡ 0) → y ≡ 0
unfolding bit
no_bit zero y le h = omega arith
no_bit (suc k) y le h = elim (dec_lt 0 y) [
  | yes p ↦ omega (arith, h 0, no_bit k (y / 2) (omega arith) (λ i. h (suc i)))
  | no p ↦ omega arith
]

all_bits :
    (n y : ℕ) → ((i : ℕ) → i < n → bit y i ≡ 1) → ((i : ℕ) → n ≤ i → bit y i ≡ 0) → y + 1 ≡ 2 ^ n
unfolding bit
all_bits zero y low high = omega (arith, no_bit y y (le_refl y) (λ i. high i (omega arith)))
all_bits (suc n) y low high = omega (
  arith,
  pow-suc 2 n,
  low 0 (omega arith),
  all_bits n (y / 2) (λ i p. low (suc i) (omega arith)) (λ i p. high (suc i) (omega arith)),
)

-- Smearing fills every position up to the top bit.
pub smear_fills : (n x : ℕ) → n < 32 → 2 ^ n ≤ x → x < 2 ^ suc n → smear_word x + 1 ≡ 2 ^ suc n
smear_fills n x small lo hi =
    all_bits (suc n) _
      (λ i p. smear_all x i ∙ any_bit-one 32 x i n (bit_top n x lo hi) (omega arith) (omega arith))
      (λ i p. smear_all x i ∙ any_bit-zero 32 x i (λ j q. bit_above (suc n) x j hi (omega arith)))
