-- ===== src/Container/Traverse/Lookups.antt =====
-- Lookups in the maps and the list of files that `traverseContainer` changes.
use mathlib.Core.Bool.{true≢false}
use mathlib.Core.Option.{some-injective}
use inecontainer.Prelude.{
  ℕ, zero, suc, ◌+◌, ◌≤◌, ◌<◌, ◌≡◌, ◌≢◌, refl, sym, ◌∙◌, ap, subst, false, Option, none, some, List,
  [], ◌∷◌, ◌++◌, ◌==◌, ==_iff, length, get_or, get_or-set_self, get_or-set_ne, set, Bool-cases,
  Option-cases, ◌⊎◌, inl, inr, arith,
}
use inecontainer.Directory.{Name, name_eq, find, insert, is_some}
use inecontainer.Directory.Maps.{find-insert_self, find-insert_ne, insert_there}
use inecontainer.Directory.Names.{name_eq_iff}
use inecontainer.VirtualFile.{VirtualFile}
use inecontainer.Container.Traverse.{no_file}

pub length-insert : (k v : ℕ) (m : List (ℕ × ℕ)) → length (insert ◌==◌ k v m) ≤ length m + 1
unfolding insert
length-insert k v m = elim (Option-cases (find ◌==◌ k m)) [
  | inl absent ↦ rw (insert, absent) (omega arith)
  | inr (w, there) ↦ rw (insert, there) (omega arith)
]

abbrev pub identifier_at : ℕ → List VirtualFile → ℕ
identifier_at g xs = (get_or xs g no_file).current_stream_identifier

pub get_or-front :
    (xs : List VirtualFile) (x : VirtualFile) (g : ℕ)
    → g < length xs
    → get_or (xs ++ x ∷ []) g no_file ≡ get_or xs g no_file
get_or-front [] x g lt = absurd (omega arith)
get_or-front (y ∷ xs) x zero lt = refl
get_or-front (y ∷ xs) x (suc g) lt = get_or-front xs x g (omega arith)

pub get_or-last :
    (xs : List VirtualFile) (x : VirtualFile) → get_or (xs ++ x ∷ []) (length xs) no_file ≡ x
get_or-last [] x = refl
get_or-last (y ∷ xs) x = get_or-last xs x

pub absent : {A : Type 0} (o : Option A) → is_some o ≡ false → o ≡ none
absent none h = refl
absent (some a) h = absurd (true≢false h)

-- Changing a file but not its identifier.
pub identifier-set_same :
    (xs : List VirtualFile) (file g : ℕ) (f' : VirtualFile)
    → f'.current_stream_identifier ≡ identifier_at file xs
    → g < length xs
    → identifier_at g (set xs file f') ≡ identifier_at g xs
identifier-set_same xs file g f' same lt = elim (Bool-cases (file == g)) [
  | inl t ↦
      let e : file ≡ g = (==_iff file g).0 t in
      subst (λ (i : ℕ). identifier_at i (set xs file f') ≡ identifier_at i xs) e
        (ap (λ (f : VirtualFile). f.current_stream_identifier)
            (get_or-set_self xs file f' no_file (omega (arith, e)))
          ∙ same)
  | inr f ↦
      ap (λ (f : VirtualFile). f.current_stream_identifier)
        (get_or-set_ne xs file g f' no_file (ground (arith, f)))
]

pub named_in_step :
    (name n : Name) (file : ℕ) (m m' : List (Name × ℕ))
    → find name_eq name m ≡ none
    → find name_eq name m' ≡ none
    → is_some (find name_eq n m) ≡ is_some (find name_eq n m')
    → is_some (find name_eq n (insert name_eq name file m))
      ≡ is_some (find name_eq n (insert name_eq name file m'))
named_in_step name n file m m' free free' same = elim (Bool-cases (name_eq name n)) [
  | inl t ↦
      subst
        (λ (n : Name).
          is_some (find name_eq n (insert name_eq name file m))
          ≡ is_some (find name_eq n (insert name_eq name file m')))
        ((name_eq_iff name n).0 t)
        (ap is_some (find-insert_self name_eq name_eq_iff name file m free)
          ∙ sym (ap is_some (find-insert_self name_eq name_eq_iff name file m' free')))
  | inr f ↦
      let ne : name ≢ n = λ e. true≢false (sym ((name_eq_iff name n).1 e) ∙ f) in
      ap is_some (find-insert_ne name_eq name_eq_iff name n file m ne)
      ∙ same
      ∙ sym (ap is_some (find-insert_ne name_eq name_eq_iff name n file m' ne))
]

pub ==→≢ : (a b : ℕ) → (a == b) ≡ false → a ≢ b
==→≢ a b f e = true≢false (sym ((==_iff a b).1 e) ∙ f)

-- What is found after an insertion was there, or is what was inserted.
pub inserted :
    (k j v w : ℕ) (m : List (ℕ × ℕ))
    → find ◌==◌ j (insert ◌==◌ k v m) ≡ some w
    → (find ◌==◌ j m ≡ some w) ⊎ ((j ≡ k) × (w ≡ v))
inserted k j v w m there = elim (Bool-cases (k == j)) [
  | inr f ↦ inl (sym (find-insert_ne ◌==◌ ==_iff k j v m (==→≢ k j f)) ∙ there)
  | inl t ↦ elim (Option-cases (find ◌==◌ k m)) [
    | inr (u, taken) ↦ inl (
        ap (λ (l : List (ℕ × ℕ)). find ◌==◌ j l) (sym (insert_there ◌==◌ ==_iff k v u m taken))
        ∙ there)
    | inl free ↦
        let same : k ≡ j = (==_iff k j).0 t in
        inr (
          sym same,
          some-injective w v (
              sym there
              ∙ ap (λ (i : ℕ). find ◌==◌ i (insert ◌==◌ k v m)) (sym same)
              ∙ find-insert_self ◌==◌ ==_iff k v m free),
        )
  ]
]
