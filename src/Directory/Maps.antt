-- ===== src/Directory/Maps.antt =====
-- `find` after `insert` and `erase`, for keys that a Boolean test compares.
use inecontainer.Prelude.{
  ◌≡◌, ◌≢◌, refl, sym, ◌∙◌, Bool, true, false, Option, none, some, List, [], ◌∷◌, Bool-cases, inl,
  inr, ◌↔◌,
}
use inecontainer.Directory.{find, erase, insert}

ne→eq :
    {K : Type 0} (eq : K → K → Bool)
    → ((a b : K) → (eq a b ≡ true) ↔ (a ≡ b))
    → (a b : K) → a ≢ b
    → eq a b ≡ false
ne→eq eq eq_iff a b ne = elim (Bool-cases (eq a b)) [
  | inl t ↦ absurd (ne ((eq_iff a b).0 t))
  | inr f ↦ f
]

module _ {K V : Type 0} (eq : K → K → Bool) (eq_iff : (a b : K) → (eq a b ≡ true) ↔ (a ≡ b)) where
  pub find-insert_self :
      (k : K) (v : V) (m : List (K × V)) → find eq k m ≡ none → find eq k (insert eq k v m) ≡ some v
  unfolding insert
  find-insert_self k v m absent = rw (insert, absent) (unfold find in rw ((eq_iff k k).1 refl) refl)

  pub find-insert_ne :
      (k j : K) (v : V) (m : List (K × V)) → k ≢ j → find eq j (insert eq k v m) ≡ find eq j m
  unfolding insert
  find-insert_ne k j v m ne = added (find eq k m)
    where
      added : (o : Option V) → find eq j (elim o [ none ↦ (k, v) ∷ m | some w ↦ m ]) ≡ find eq j m
      added none = unfold find in rw (ne→eq eq eq_iff k j ne) refl
      added (some w) = refl

  -- An insertion over a key that is there is ignored.
  pub insert_there :
      (k : K) (v w : V) (m : List (K × V)) → find eq k m ≡ some w → insert eq k v m ≡ m
  unfolding insert
  insert_there k v w m there = rw (insert, there) refl

  pub find-erase_self : (k : K) (m : List (K × V)) → find eq k (erase eq k m) ≡ none
  unfolding find erase
  find-erase_self k [] = refl
  find-erase_self k ((j, v) ∷ m) = elim (Bool-cases (eq j k)) [
    | inl t ↦ rw t (find-erase_self k m)
    | inr f ↦ rw (f, f) (find-erase_self k m)
  ]

  pub find-erase_ne : (k j : K) (m : List (K × V)) → k ≢ j → find eq j (erase eq k m) ≡ find eq j m
  unfolding find erase
  find-erase_ne k j [] ne = refl
  find-erase_ne k j ((i, v) ∷ m) ne = elim (Bool-cases (eq i k)) [
    | inl t ↦
        rw (t, ne→eq eq eq_iff i j (λ e. ne (sym ((eq_iff i k).0 t) ∙ e))) (find-erase_ne k j m ne)
    | inr f ↦ rw (f, find-erase_ne k j m ne) refl
  ]
