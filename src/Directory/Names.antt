-- ===== src/Directory/Names.antt =====
-- Renaming and erasing a virtual file in the maps by name.
use mathlib.Core.Bool.{true≢false}
use inecontainer.Prelude.{
  ℕ, ◌≡◌, ◌≢◌, refl, sym, ◌∙◌, ap₂, subst, true, Option, none, some, List, [], ◌∷◌, ◌==◌, ==_iff,
  Bool-cases, inl, inr, ◌↔◌,
}
use inecontainer.Directory.{
  Name, name_eq, find, erase, insert, Directory, rename_to, file_renamed, file_erased,
}
use inecontainer.Directory.Maps.{
  find-insert_self, find-insert_ne, insert_there, find-erase_self, find-erase_ne,
}

name_eq→≡ : (a b : Name) → name_eq a b ≡ true → a ≡ b
unfolding name_eq
name_eq→≡ [] [] h = refl
name_eq→≡ [] (y ∷ ys) h = absurd (true≢false (sym h))
name_eq→≡ (x ∷ xs) [] h = absurd (true≢false (sym h))
name_eq→≡ (x ∷ xs) (y ∷ ys) h = elim (Bool-cases (x == y)) [
  | inl t ↦ ap₂ ◌∷◌ ((==_iff x y).0 t) (name_eq→≡ xs ys (sym (rw t refl) ∙ h))
  | inr f ↦ absurd (true≢false (sym h ∙ rw f refl))
]

name_eq_refl : (a : Name) → name_eq a a ≡ true
unfolding name_eq
name_eq_refl [] = refl
name_eq_refl (x ∷ xs) = rw ((==_iff x x).1 refl) (name_eq_refl xs)

pub name_eq_iff : (a b : Name) → (name_eq a b ≡ true) ↔ (a ≡ b)
name_eq_iff a b = (name_eq→≡ a b, λ e. subst (λ (c : Name). name_eq a c ≡ true) e (name_eq_refl a))

abbrev pub find_name : Name → List (Name × ℕ) → Option ℕ
find_name = find name_eq

-- A map by name in which a file has moved from one name to another.
pub record Renamed (old_name new_name : Name) (file : ℕ) (m m' : List (Name × ℕ)) : Type 0 where
  pub at_new : find_name new_name m' ≡ some file
  pub not_at_old : find_name old_name m' ≡ none
  pub others : (n : Name) → n ≢ old_name → n ≢ new_name → find_name n m' ≡ find_name n m

moved :
    (old_name new_name : Name) (file : ℕ) (m : List (Name × ℕ))
    → old_name ≢ new_name
    → find_name new_name m ≡ none
    → Renamed old_name new_name file m (erase name_eq old_name (insert name_eq new_name file m))
moved old_name new_name file m ne free = record {
  at_new =
      find-erase_ne name_eq name_eq_iff old_name new_name (insert name_eq new_name file m) ne
      ∙ find-insert_self name_eq name_eq_iff new_name file m free;
  not_at_old = find-erase_self name_eq name_eq_iff old_name (insert name_eq new_name file m);
  others = λ n ne_old ne_new.
      find-erase_ne name_eq name_eq_iff old_name n (insert name_eq new_name file m)
        (λ e. ne_old (sym e))
      ∙ find-insert_ne name_eq name_eq_iff new_name n file m (λ e. ne_new (sym e));
}

module _ (old_name new_name : Name) (api file : ℕ) (d : Directory)
    (api_there : find_name old_name d.file_apis_by_name ≡ some api)
    (file_there : find_name old_name d.files_by_name ≡ some file) where
  renamed_to : file_renamed old_name new_name d ≡ (rename_to old_name new_name api file d, true)
  unfolding file_renamed
  renamed_to = rw (file_renamed, api_there, file_there) refl

  -- A file that both maps have under its old name is found afterwards under the new name, if that one
  -- was free and is another; the old name is gone, the other names and the identifiers stay.
  pub file_renamed_lem :
      old_name ≢ new_name
      → find_name new_name d.file_apis_by_name ≡ none
      → find_name new_name d.files_by_name ≡ none
      → ((file_renamed old_name new_name d).1 ≡ true)
        × Renamed old_name new_name api d.file_apis_by_name
            (file_renamed old_name new_name d).0.file_apis_by_name
        × Renamed old_name new_name file d.files_by_name
            (file_renamed old_name new_name d).0.files_by_name
        × ((file_renamed old_name new_name d).0.files_by_identifier ≡ d.files_by_identifier)
  file_renamed_lem ne api_free file_free = rw renamed_to (
    refl,
    moved old_name new_name api d.file_apis_by_name ne api_free,
    moved old_name new_name file d.files_by_name ne file_free,
    refl,
  )

  kept :
      (value other : ℕ) (m : List (Name × ℕ))
      → old_name ≢ new_name
      → find_name new_name m ≡ some other
      → (find_name old_name (erase name_eq old_name (insert name_eq new_name value m)) ≡ none)
        × ((n : Name)
            → n ≢ old_name
            → find_name n (erase name_eq old_name (insert name_eq new_name value m))
              ≡ find_name n m)
  kept value other m ne taken = rw (insert_there name_eq name_eq_iff new_name value other m taken) (
    find-erase_self name_eq name_eq_iff old_name m,
    λ n ne_old. find-erase_ne name_eq name_eq_iff old_name n m (λ e. ne_old (sym e)),
  )

  -- When both maps have another file under the new name already, the rename reports success all the
  -- same: in both maps the old name is gone and every other name, the new one too, finds what it found
  -- before; the identifiers stay.
  pub file_renamed-taken :
      (other_api other_file : ℕ)
      → old_name ≢ new_name
      → find_name new_name d.file_apis_by_name ≡ some other_api
      → find_name new_name d.files_by_name ≡ some other_file
      → let (d', success) = file_renamed old_name new_name d in
        (success ≡ true)
        × (find_name old_name d'.file_apis_by_name ≡ none)
        × (find_name old_name d'.files_by_name ≡ none)
        × ((n : Name)
            → n ≢ old_name
            → (find_name n d'.file_apis_by_name ≡ find_name n d.file_apis_by_name)
              × (find_name n d'.files_by_name ≡ find_name n d.files_by_name))
        × (d'.files_by_identifier ≡ d.files_by_identifier)
  file_renamed-taken other_api other_file ne api_taken file_taken =
      let apis = kept api other_api d.file_apis_by_name ne api_taken in
      let files = kept file other_file d.files_by_name ne file_taken in
      rw renamed_to (refl, apis.0, files.0, (λ n ne_old. (apis.1 n ne_old, files.1 n ne_old)), refl)

-- Erasing a file that both maps have takes its name out of both; the other names, and the map by
-- identifier, stay as they were.
pub file_erased_lem :
    (name : Name) (api file : ℕ) (d : Directory)
    → find_name name d.file_apis_by_name ≡ some api
    → find_name name d.files_by_name ≡ some file
    → ((file_erased name d).1 ≡ true)
      × (find_name name (file_erased name d).0.files_by_name ≡ none)
      × (find_name name (file_erased name d).0.file_apis_by_name ≡ none)
      × ((n : Name)
          → n ≢ name
          → (find_name n (file_erased name d).0.files_by_name ≡ find_name n d.files_by_name)
            × (find_name n (file_erased name d).0.file_apis_by_name
                ≡ find_name n d.file_apis_by_name))
      × ((file_erased name d).0.files_by_identifier ≡ d.files_by_identifier)
unfolding file_erased
file_erased_lem name api file d api_there file_there = rw erased_both (
  refl,
  find-erase_self name_eq name_eq_iff name d.files_by_name,
  find-erase_self name_eq name_eq_iff name d.file_apis_by_name,
  λ n ne. (
    find-erase_ne name_eq name_eq_iff name n d.files_by_name (λ e. ne (sym e)),
    find-erase_ne name_eq name_eq_iff name n d.file_apis_by_name (λ e. ne (sym e)),
  ),
  refl,
)
  where
    erased_both : file_erased name d ≡ (
      record d {
        file_apis_by_name = erase name_eq name d.file_apis_by_name;
        files_by_name = erase name_eq name d.files_by_name;
      },
      true,
    )
    erased_both = rw (api_there, file_there) refl
