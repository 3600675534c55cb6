-- ===== src/Area/Laws.antt =====
-- Shrinking and growing a container area.
use inecontainer.Prelude.{ℕ, ◌+◌, ◌≤◌, ◌<◌, ◌≡◌, ◌↔◌, true, false, arith}
use inecontainer.Area.{
  ContainerArea, Side, from_front, from_back, ending_index, reduce_by, expand_by, area_eq, area_ne,
}

-- An area whose end is a valid file index.
pub record Fits (a : ContainerArea) : Type 0 where
  pub end_small : a.starting_index + a.area_size < 4294967296

-- `reduceBy` by at most the size keeps the end when it takes from the front and the start when it
-- takes from the back, and takes off exactly the amount.
pub reduce_by_lem :
    (a : ContainerArea) (amount : ℕ)
    → Fits a
    → amount ≤ a.area_size
    → (ending_index (reduce_by amount from_front a).0 ≡ ending_index a)
      × ((reduce_by amount from_front a).0.starting_index ≡ a.starting_index + amount)
      × ((reduce_by amount from_back a).0.starting_index ≡ a.starting_index)
      × (ending_index (reduce_by amount from_back a).0 + amount ≡ ending_index a)
unfolding reduce_by ending_index
reduce_by_lem a amount f h = ground arith

-- On either side, growing an area that was shrunk by the same amount gives it back.
pub expand_by-reduce_by :
    (a : ContainerArea) (amount : ℕ) (side : Side)
    → Fits a
    → amount ≤ a.area_size
    → expand_by amount side (reduce_by amount side a).0 ≡ (a, true)
unfolding reduce_by expand_by
expand_by-reduce_by a amount from_front f h = ground arith
expand_by-reduce_by a amount from_back f h = ground arith

-- `operator==` decides equality of areas, and `operator!=` is its negation.
pub area_eq_iff :
    (a b : ContainerArea) → ((area_eq a b ≡ true) ↔ (a ≡ b)) × ((area_ne a b ≡ false) ↔ (a ≡ b))
unfolding area_eq area_ne
area_eq_iff a b = ((λ h. ground arith, λ h. ground arith), (λ h. ground arith, λ h. ground arith))
