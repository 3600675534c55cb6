-- ===== src/Prelude/Range.antt =====
-- Two functions that agree at every value below a bound, as a test that is evaluated.
use native.Mathlib.Decide.{dec_lt}
use inecontainer.Prelude.{ℕ, zero, suc, ◌<◌, ◌≡◌, subst, Bool, true, ◌&&◌, ◌==◌, ==_iff, arith}

both : (a b : Bool) → (a && b) ≡ true → (a ≡ true) × (b ≡ true)
both a b h = ground arith

unfoldable pub agree_below : ℕ → (ℕ → ℕ) → (ℕ → ℕ) → Bool
agree_below zero f g = true
agree_below (suc n) f g = agree_below n f g && (f n == g n)

pub agree_below_lem : (f g : ℕ → ℕ) (n : ℕ) → agree_below n f g ≡ true → (x : ℕ) → x < n → f x ≡ g x
unfolding agree_below
agree_below_lem f g zero same x lt = absurd (omega arith)
agree_below_lem f g (suc n) same x lt =
    let (before, here) = both _ _ same in
    elim (dec_lt x n) [
      | yes p ↦ agree_below_lem f g n before x p
      | no p ↦ let at : n ≡ x = omega arith in subst (λ k. f k ≡ g k) at ((==_iff _ _).0 here)
    ]

-- The same over a table of rows.
unfoldable pub agree_in_rows : ℕ → ℕ → (ℕ → ℕ → ℕ) → (ℕ → ℕ → ℕ) → Bool
unfolding agree_below
agree_in_rows zero n f g = true
agree_in_rows (suc m) n f g = agree_in_rows m n f g && agree_below n (f m) (g m)

pub agree_in_rows_lem :
    (f g : ℕ → ℕ → ℕ) (m n : ℕ)
    → agree_in_rows m n f g ≡ true
    → (y : ℕ) → y < m
    → (x : ℕ) → x < n
    → f y x ≡ g y x
unfolding agree_in_rows
agree_in_rows_lem f g zero n same y ly x lx = absurd (omega arith)
agree_in_rows_lem f g (suc m) n same y ly x lx =
    let (before, here) = both _ _ same in
    elim (dec_lt y m) [
      | yes p ↦ agree_in_rows_lem f g m n before y p x lx
      | no p ↦
          let at : m ≡ y = omega arith in
          subst (λ k. f k x ≡ g k x) at (agree_below_lem (f m) (g m) n here x lx)
    ]
