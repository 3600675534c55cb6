-- ===== src/Ring/Queue.antt =====
-- What a ring promises: a first-in first-out queue of at most `L` entries, oldest first.
use inecontainer.Prelude.{ℕ, Bool, true, false, List, [], ◌∷◌, ◌++◌, ltb, if◌then◌else◌, length}

module _ {ℓ} {A : Type ℓ} where
  unfoldable pub push : ℕ → A → List A → List A × Bool
  push L x q = if ltb (length q) L then (q ++ x ∷ [], true) else (q, false)

  unfoldable pub pop : A → List A → List A × A
  pop default_value [] = ([], default_value)
  pop default_value (x ∷ q) = (q, x)
