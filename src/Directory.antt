-- ===== src/Directory.antt =====
-- The maps of virtual files of inecontainer/source/container_impl.cpp: by name, by name for the API,
-- and by stream identifier. A name is the list of its characters, and a file is the number that
-- stands for its object, so that a shared pointer is that number. A `std::map` is the list of its
-- entries; only its lookups by key are used, and `insert` keeps an entry that is there.
pub mod Maps
pub mod Identifiers
pub mod Names
mod Tests
use inecontainer.Prelude.{
  ℕ, zero, suc, ◌+◌, Bool, true, false, ◌&&◌, Option, none, some, List, [], ◌∷◌, ◌==◌,
  if◌then◌else◌, length,
}
use inecontainer.Stream.{invalid_stream_identifier}

abbrev pub Name : Type 0
Name = List ℕ

unfoldable pub name_eq : Name → Name → Bool
name_eq [] [] = true
name_eq [] (y ∷ ys) = false
name_eq (x ∷ xs) [] = false
name_eq (x ∷ xs) (y ∷ ys) = (x == y) && name_eq xs ys

-- `find`, `insert` and `erase` of `std::map`, for keys that `eq` compares.
module _ {K V : Type 0} (eq : K → K → Bool) where
  unfoldable pub find : K → List (K × V) → Option V
  find k [] = none
  find k ((k', v) ∷ m) = if eq k' k then some v else find k m

  unfoldable pub erase : K → List (K × V) → List (K × V)
  erase k [] = []
  erase k ((k', v) ∷ m) = if eq k' k then erase k m else (k', v) ∷ erase k m

  unfoldable pub insert : K → V → List (K × V) → List (K × V)
  unfolding find
  insert k v m = elim (find k m) [ none ↦ (k, v) ∷ m | some w ↦ m ]

abbrev pub is_some {ℓ} : {A : Type ℓ} → Option A → Bool
is_some none = false
is_some (some a) = true

pub record Directory : Type 0 where
  pub files_by_name : List (Name × ℕ)
  pub file_apis_by_name : List (Name × ℕ)
  pub files_by_identifier : List (ℕ × ℕ)

-- `newIdentifier` of the search loop: from 0 on, the first that no file has; on fuel. `none` is an
-- increment to `invalidStreamIdentifier`, which the code asserts not to happen.
unfoldable pub free_identifier : ℕ → ℕ → List (ℕ × ℕ) → Option ℕ
unfolding find
free_identifier zero candidate m = none
free_identifier (suc fuel) candidate m =
    let rest = free_identifier fuel (candidate + 1) m in
    if candidate == invalid_stream_identifier
    then none
    else if is_some (find ◌==◌ candidate m)
    then rest
    else some candidate

-- `newStreamIdentifier` of a container whose maps are populated. With one turn more than there are
-- entries, the fuel does not run out.
unfoldable pub new_stream_identifier : Directory → Option ℕ
unfolding free_identifier
new_stream_identifier d = free_identifier (length d.files_by_identifier + 1) 0 d.files_by_identifier

-- `none` is a name that is taken, which the code asserts not to get.
unfoldable pub register_file_implementation : Name → ℕ → ℕ → Directory → Option Directory
unfolding insert name_eq find
register_file_implementation name identifier file d =
    if is_some (find name_eq name d.files_by_name)
    then none
    else some (record d {
      files_by_name = insert name_eq name file d.files_by_name;
      files_by_identifier = insert ◌==◌ identifier file d.files_by_identifier;
    })

-- What `fileRenamed` does when both maps have the old name.
abbrev pub rename_to : Name → Name → ℕ → ℕ → Directory → Directory
rename_to old_name new_name api file d = record d {
  file_apis_by_name = erase name_eq old_name (insert name_eq new_name api d.file_apis_by_name);
  files_by_name = erase name_eq old_name (insert name_eq new_name file d.files_by_name);
}

unfoldable pub file_renamed : Name → Name → Directory → Directory × Bool
unfolding find name_eq
file_renamed old_name new_name d = elim (find name_eq old_name d.file_apis_by_name) [
  | none ↦ (d, false)
  | some api ↦ elim (find name_eq old_name d.files_by_name) [
    | none ↦ (d, false)
    | some file ↦ (rename_to old_name new_name api file d, true)
  ]
]

unfoldable pub file_erased : Name → Directory → Directory × Bool
unfolding find name_eq erase
file_erased name d =
    if is_some (find name_eq name d.file_apis_by_name)
      && is_some (find name_eq name d.files_by_name)
    then (
      record d {
        file_apis_by_name = erase name_eq name d.file_apis_by_name;
        files_by_name = erase name_eq name d.files_by_name;
      },
      true,
    )
    else (d, false)
