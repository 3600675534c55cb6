-- ===== src/Container/Close.antt =====
-- `close`, `scanContainer`, `directory`, `streamRead` and `newVirtualFile` of
-- inecontainer/source/container_impl.cpp. `raw` is what a new array holds.
use inecontainer.Prelude.{
  ℕ, Bool, true, false, not, ◌&&◌, ◌||◌, Option, none, some, List, [], ◌∷◌, ltb, ◌==◌,
  if◌then◌else◌, set,
}
use inecontainer.Status.{Status, no_status, to_bool}
use inecontainer.Directory.{Name}
use inecontainer.Chunk.{Device}
use inecontainer.VirtualFile.Flush.{flush}
use inecontainer.Container.{Container}
use inecontainer.Container.Store.{container_store, flush_free_space_of}
use inecontainer.Container.Traverse.{file_at, traverse_container, new_file}

-- The order of `std::string`, and a map's entries in that order.
unfoldable pub name_lt : Name → Name → Bool
name_lt [] [] = false
name_lt [] (y ∷ ys) = true
name_lt (x ∷ xs) [] = false
name_lt (x ∷ xs) (y ∷ ys) = ltb x y || (x == y) && name_lt xs ys

unfoldable pub put_in_order : Name × ℕ → List (Name × ℕ) → List (Name × ℕ)
unfolding name_lt
put_in_order e [] = e ∷ []
put_in_order (name, file) ((name', file') ∷ m) =
    if name_lt name name'
    then (name, file) ∷ (name', file') ∷ m
    else (name', file') ∷ put_in_order (name, file) m

unfoldable pub in_order : List (Name × ℕ) → List (Name × ℕ)
unfolding put_in_order
in_order [] = []
in_order (e ∷ m) = put_in_order e (in_order m)

module _ {S : Type 0} (dev : Device S) (supports_truncation : Bool)
    (truncate : S → S × Status) where
  -- The loop of `close` over the files.
  unfoldable pub flush_files :
      List ℕ → List (Name × ℕ) → Container S → Option (Container S × Status)
  unfolding flush container_store to_bool
  flush_files raw [] c = some (c, no_status)
  flush_files raw ((name, file) ∷ m) c =
      elim (flush (container_store dev supports_truncation truncate) raw (file_at file c) c) [
        | none ↦ none
        | some (f, c', status) ↦
            let c'' : Container S = record c' { files = set c'.files file f } in
            elim (to_bool status) [ true ↦ some (c'', status) | false ↦ flush_files raw m c'' ]
      ]

  unfoldable pub close : List ℕ → Container S → Option (Container S × Status)
  unfolding flush_free_space_of flush_files in_order
  close raw c =
      let (c', done) = flush_free_space_of dev supports_truncation truncate c in
      if not done
      then some (c', c'.last_reported_status)
      else elim (flush_files raw (in_order c'.directory.files_by_name) c') [
        | none ↦ none
        | some (c'', status) ↦ some (record c'' { last_reported_status = status }, status)
      ]

-- Over what the files of the application do with the data that they are given.
module _ {S A : Type 0} (dev : Device S) (received_data : ℕ → List ℕ → A → A × Status)
    (end_of_file : ℕ → A → A × Status) (unset : List ℕ) where
  unfoldable pub scan_container : Container S → A → Option (Container S × A × Status)
  unfolding traverse_container
  scan_container c a =
      elim (if c.file_maps_populated
        then some (c, a, no_status)
        else traverse_container dev received_data unset true c a) [
          | none ↦ none
          | some (c', a', status) ↦ some (record c' { last_reported_status = status }, a', status)
        ]

  -- `directory` and `newVirtualFile` report a scan, but not that none was needed.
  unfoldable pub scan_if_needed : Container S → A → Option (Container S × A × Status)
  unfolding scan_container
  scan_if_needed c a = if c.file_maps_populated then some (c, a, no_status) else scan_container c a

  unfoldable pub directory : Container S → A → Option (Container S × A × List (Name × ℕ))
  unfolding scan_if_needed
  directory c a = elim (scan_if_needed c a) [
    | none ↦ none
    | some (c', a', scanned) ↦ some (c', a', c'.directory.file_apis_by_name)
  ]

  -- The API's `newVirtualFile`, whatever the status of the scan.
  unfoldable pub new_virtual_file_of : Name → Container S → A → Option (Container S × A × ℕ)
  unfolding scan_if_needed new_file
  new_virtual_file_of name c a = elim (scan_if_needed c a) [
    | none ↦ none
    | some (c', a', scanned) ↦ elim (new_file name c') [
      | none ↦ none
      | some (c'', file) ↦ some (c'', a', file)
    ]
  ]

  unfoldable pub end_files : List (Name × ℕ) → A → A × Status
  unfolding to_bool
  end_files [] a = (a, no_status)
  end_files ((name, file) ∷ m) a =
      let (a', status) = end_of_file file a in
      let rest = end_files m a' in if to_bool status then (a', status) else rest

  unfoldable pub stream_read : Container S → A → Option (Container S × A × Status)
  unfolding traverse_container end_files in_order to_bool
  stream_read c a = elim (traverse_container dev received_data unset false c a) [
    | none ↦ none
    | some (c', a', status) ↦
        let (a'', status') = end_files (in_order c'.directory.files_by_name) a' in
        if to_bool status then some (c', a', status) else some (c', a'', status')
  ]
