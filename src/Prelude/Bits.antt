-- ===== src/Prelude/Bits.antt =====
-- Laws of `&` and `|` at variables: their digit recursion, fields, masks and single bits.
use Prim.Native.Nat.{
  ℕ, zero, suc, ◌+◌, ◌*◌, ◌-◌, ◌/◌, ◌%◌, ◌^◌, ◌≤◌, ◌<◌, min, max, bit_and, bit_or, digits,
  bit_and-bitwise, bit_or-bitwise,
}
use mathlib.Core.Path.{◌≡◌, refl, sym, ap, ◌∙◌}
use native.Mathlib.Omega.{arith}
use native.Mathlib.Nat.{pow-suc, one-le-pow}

-- An operation that digit recursion defines, with `z` for what is left of the second operand when the
-- first has no digit any more, and `f` for a pair of digits.
module _ (z : ℕ → ℕ) (f : ℕ → ℕ → ℕ) where
  -- One more unit of fuel than the first operand needs changes nothing, hence no surplus does.
  spare_unit : (b fuel a : ℕ) → a ≤ fuel → digits z f fuel a b ≡ digits z f (suc fuel) a b
  spare_unit b fuel zero enough = elim fuel as (λ n. digits z f n 0 b ≡ digits z f (suc n) 0 b) [
    | zero ↦ refl
    | suc _ ↦ refl
  ]
  spare_unit b zero (suc a) enough = absurd (omega arith)
  spare_unit b (suc fuel) (suc a) enough =
      let halved = spare_unit (b / 2) fuel (suc a / 2) (omega arith) in
      ap (λ (t : ℕ). t * 2 + f (suc a % 2) (b % 2)) halved

  spare_fuel :
      (surplus fuel a b : ℕ) → a ≤ fuel → digits z f fuel a b ≡ digits z f (surplus + fuel) a b
  spare_fuel zero fuel a b enough = ap (λ (n : ℕ). digits z f n a b) (omega arith)
  spare_fuel (suc surplus) fuel a b enough =
      spare_fuel surplus fuel a b enough
      ∙ spare_unit b (surplus + fuel) a (omega arith)
      ∙ ap (λ (n : ℕ). digits z f n a b) {x = suc (surplus + fuel)} (omega arith)

  module _ (op : ℕ → ℕ → ℕ) (is_digitwise : (a b : ℕ) → op a b ≡ digits z f a a b)
      (no_digit : (b : ℕ) → z b ≡ z (b / 2) * 2 + f 0 (b % 2)) where
    lowest_digit : (b a : ℕ) → op a b ≡ op (a / 2) (b / 2) * 2 + f (a % 2) (b % 2)
    lowest_digit b zero = grind (arith, is_digitwise 0 b, is_digitwise 0 (b / 2), no_digit b)
    lowest_digit b (suc a) =
        is_digitwise (suc a) b ∙ ap (λ (t : ℕ). t * 2 + f (suc a % 2) (b % 2)) halves
      where
        needed : (a - (suc a / 2)) + (suc a / 2) ≡ a
        needed = omega arith

        halves : digits z f a (suc a / 2) (b / 2) ≡ op (suc a / 2) (b / 2)
        halves =
            sym (
              spare_fuel (a - (suc a / 2)) (suc a / 2) (suc a / 2) (b / 2) (omega arith)
              ∙ ap (λ (n : ℕ). digits z f n (suc a / 2) (b / 2)) needed)
            ∙ sym (is_digitwise (suc a / 2) (b / 2))

zero-bit_or : (b : ℕ) → bit_or 0 b ≡ b
zero-bit_or b = bit_or-bitwise 0 b

pub bit_or_step : (a b : ℕ) → bit_or a b ≡ bit_or (a / 2) (b / 2) * 2 + max (a % 2) (b % 2)
bit_or_step a b = lowest_digit (λ y. y) max bit_or bit_or-bitwise (λ y. omega arith) b a

pub bit_and_step : (a b : ℕ) → bit_and a b ≡ bit_and (a / 2) (b / 2) * 2 + min (a % 2) (b % 2)
bit_and_step a b = lowest_digit (λ _. 0) min bit_and bit_and-bitwise (λ y. omega arith) b a

double_pow : (b k : ℕ) → b * 2 ^ suc k ≡ b * 2 ^ k * 2
double_pow b k = omega (arith, ap (λ (t : ℕ). b * t) (pow-suc 2 k))

-- A value below `2 ^ k` and a field shifted up by `k` bits share no bit.
pub bit_or_field : (k a b : ℕ) → a < 2 ^ k → bit_or a (b * 2 ^ k) ≡ a + b * 2 ^ k
bit_or_field zero zero b h = omega (arith, zero-bit_or (b * 1))
bit_or_field zero (suc a) b h = absurd (omega arith)
bit_or_field (suc k) a b h =
    ground
      (arith, bit_or_step a (b * 2 ^ suc k), double_pow b k, pow-suc 2 k, bit_or_field k (a / 2) b)

bit_or-zero : (k a : ℕ) → a ≤ k → bit_or a 0 ≡ a
bit_or-zero k zero h = zero-bit_or 0
bit_or-zero zero (suc a) h = absurd (omega arith)
bit_or-zero (suc k) (suc a) h =
    omega (arith, bit_or_step (suc a) 0, bit_or-zero k (suc a / 2) (omega arith))

-- The same with the shifted field first.
pub field-bit_or : (k a b : ℕ) → a < 2 ^ k → bit_or (b * 2 ^ k) a ≡ a + b * 2 ^ k
field-bit_or zero zero b h = omega (arith, bit_or-zero (b * 1) (b * 1) (omega arith))
field-bit_or zero (suc a) b h = absurd (omega arith)
field-bit_or (suc k) a b h =
    ground
      (arith, bit_or_step (b * 2 ^ suc k) a, double_pow b k, pow-suc 2 k, field-bit_or k (a / 2) b)

bit_and-zero : (k a : ℕ) → a ≤ k → bit_and a 0 ≡ 0
bit_and-zero k zero h = bit_and-bitwise 0 0
bit_and-zero zero (suc a) h = absurd (omega arith)
bit_and-zero (suc k) (suc a) h =
    omega (arith, bit_and_step (suc a) 0, bit_and-zero k (suc a / 2) (omega arith))

-- A mask of `k` low bits is the remainder by `2 ^ k`; `m` is `2 ^ k - 1`.
pub bit_and_mask : (k m a : ℕ) → m + 1 ≡ 2 ^ k → bit_and a m ≡ a % 2 ^ k
bit_and_mask zero m a h = ground (arith, bit_and-zero a a)
bit_and_mask (suc k) m a h = ground (
  arith,
  bit_and_step a m,
  pow-suc 2 k,
  one-le-pow k 2,
  bit_and_mask k (m / 2) (a / 2),
  halve_rem,
)
  where
    halve_rem : a % (2 ^ k * 2) ≡ (a / 2) % 2 ^ k * 2 + a % 2
    halve_rem = grind (arith, one-le-pow k 2)
