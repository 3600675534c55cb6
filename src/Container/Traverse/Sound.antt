-- ===== src/Container/Traverse/Sound.antt =====
-- The invariant of the maps that `traverseContainer` builds, and the steps that keep it.
use mathlib.Core.Option.{some-injective, none-ne-some}
use inecontainer.Prelude.{
  ℕ, ◌+◌, ◌≤◌, Option, ◌<◌, ◌≡◌, ◌≢◌, refl, sym, ◌∙◌, ap, subst, false, none, some, List, [], ◌∷◌,
  ◌++◌, ◌==◌, ==_iff, length, length-append, length-set, get_or-set_self, get_or-set_ne, set,
  Bool-cases, inl, inr, arith,
}
use inecontainer.Tracker.Cells.{IsWellFormed}
use inecontainer.Directory.{
  Name, name_eq, find, insert, erase, is_some, register_file_implementation,
}
use inecontainer.Directory.Maps.{find-insert_self, find-insert_ne, find-erase_self, find-erase_ne}
use inecontainer.Directory.Identifiers.{new_stream_identifier_lem, length-erase_taken}
use inecontainer.DataChunk.{DataChunk}
use inecontainer.VirtualFile.{VirtualFile, new_virtual_file}
use inecontainer.Container.{Container}
use inecontainer.Container.Traverse.{
  create_file, new_file, no_file, file_at, with_identity, take_identity, add_location,
}
use inecontainer.Container.Traverse.Lookups.{
  length-insert, identifier_at, get_or-front, get_or-last, absent, identifier-set_same,
  named_in_step, ==→≢, inserted,
}

-- The free regions are in order, a name is known to the API exactly when it has an implementation, and
-- a file that is found by an identifier has that identifier.
pub record IsSound {S : Type 0} (c : Container S) : Type 0 where
  pub well_formed : IsWellFormed c.free_map
  pub in_step :
      (n : Name)
      → is_some (find name_eq n c.directory.file_apis_by_name)
        ≡ is_some (find name_eq n c.directory.files_by_name)
  pub registered :
      (id file : ℕ)
      → find ◌==◌ id c.directory.files_by_identifier ≡ some file
      → (file < length c.files) × (identifier_at file c.files ≡ id)

module _ {S : Type 0} where
  -- Other bytes in the container.
  pub world-IsSound :
      (c c' : Container S)
      → c'.free_map ≡ c.free_map
      → c'.directory ≡ c.directory
      → c'.files ≡ c.files
      → IsSound c
      → IsSound c'
  world-IsSound c c' same_map same_directory same_files v = record {
    well_formed = subst IsWellFormed (sym same_map) v.well_formed;
    in_step = rw same_directory v.in_step;
    registered = rw (same_directory, same_files) v.registered;
  }

  pub add_location-IsSound :
      (file : ℕ) (k : DataChunk) (c : Container S) → IsSound c → IsSound (add_location file k c)
  add_location-IsSound file k c v = record {
    well_formed = v.well_formed;
    in_step = v.in_step;
    registered = λ id g there.
        let r = v.registered id g there in
        (
          omega (arith, length-set c.files file _, r.0),
          identifier-set_same c.files file g _ refl r.0 ∙ r.1,
        );
  }

  -- What a new file is.
  pub record IsNew (name : Name) (c c' : Container S) : Type 0 where
    pub sound : IsSound c'
    pub longer : length c'.files ≡ length c.files + 1
    pub same_map : c'.free_map ≡ c.free_map
    pub guessed :
        find ◌==◌ (identifier_at (length c.files) c'.files) c'.directory.files_by_identifier
        ≡ some (length c.files)
    pub few : length c'.directory.files_by_identifier ≤ length c.directory.files_by_identifier + 1

  -- What `new_file` makes, under an identifier.
  abbrev made : Name → ℕ → Container S → Container S
  made name identifier c = record c {
    files = c.files ++ new_virtual_file name identifier ∷ [];
    directory = record {
      files_by_name = insert name_eq name (length c.files) c.directory.files_by_name;
      file_apis_by_name = insert name_eq name (length c.files) c.directory.file_apis_by_name;
      files_by_identifier = insert ◌==◌ identifier (length c.files) c.directory.files_by_identifier;
    };
  }

  made-identifier :
      (name : Name) (identifier : ℕ) (c : Container S)
      → identifier_at (length c.files) (made name identifier c).files ≡ identifier
  unfolding new_virtual_file
  made-identifier name identifier c =
      ap (λ (g : VirtualFile). g.current_stream_identifier)
        (get_or-last c.files (new_virtual_file name identifier))

  made-registered :
      (name : Name) (identifier : ℕ) (c : Container S)
      → IsSound c
      → find ◌==◌ identifier c.directory.files_by_identifier ≡ none
      → (id file : ℕ)
      → find ◌==◌ id (insert ◌==◌ identifier (length c.files) c.directory.files_by_identifier)
        ≡ some file
      → (file < length (made name identifier c).files)
        × (identifier_at file (made name identifier c).files ≡ id)
  unfolding new_virtual_file
  made-registered name identifier c v free id file there =
      let f : VirtualFile = new_virtual_file name identifier in
      let m = c.directory.files_by_identifier in
      let longer : length (c.files ++ f ∷ []) ≡ length c.files + 1 =
        length-append c.files (f ∷ []) in
      elim (Bool-cases (identifier == id)) [
        | inl t ↦
            let same : identifier ≡ id = (==_iff identifier id).0 t in
            let last : length c.files ≡ file = some-injective (length c.files) file (
              sym (find-insert_self ◌==◌ ==_iff identifier (length c.files) m free)
              ∙ ap (λ (i : ℕ). find ◌==◌ i (insert ◌==◌ identifier (length c.files) m)) same
              ∙ there) in
            (
              omega (arith, longer, last),
              ap (λ (i : ℕ). identifier_at i (c.files ++ f ∷ [])) (sym last)
                  ∙ ap (λ (g : VirtualFile). g.current_stream_identifier) (get_or-last c.files f)
                  ∙ same,
            )
        | inr other ↦
            let r = v.registered id file (
              sym (
                find-insert_ne ◌==◌ ==_iff identifier id (length c.files) m (ground (arith, other)))
              ∙ there) in
            (
              omega (arith, longer, r.0),
              ap (λ (g : VirtualFile). g.current_stream_identifier)
                    (get_or-front c.files f file r.0)
                  ∙ r.1,
            )
      ]

  pub new_file-IsNew :
      (name : Name) (c : Container S)
      → IsSound c
      → is_some (find name_eq name c.directory.files_by_name) ≡ false
      → length c.directory.files_by_identifier < 4294967295
      → (c' : Container S) × (new_file name c ≡ some (c', length c.files)) × IsNew name c c'
  unfolding new_file create_file register_file_implementation
  new_file-IsNew name c v free small =
      let no_api =
        absent (find name_eq name c.directory.file_apis_by_name) (v.in_step name ∙ free) in
      let no_name = absent (find name_eq name c.directory.files_by_name) free in
      let m = c.directory.files_by_identifier in
      let r = new_stream_identifier_lem (length c.files) name c.directory small no_name in
      (
        made name r.0 c,
        rw (new_file, no_api, create_file, r.2, no_name) refl,
        record {
          sound = record {
            well_formed = v.well_formed;
            in_step = λ n.
                named_in_step name n (length c.files) c.directory.file_apis_by_name
                  c.directory.files_by_name no_api no_name (v.in_step n);
            registered = made-registered name r.0 c v r.4;
          };
          longer = length-append c.files (new_virtual_file name r.0 ∷ []);
          same_map = refl;
          guessed =
              ap (λ (i : ℕ). find ◌==◌ i (made name r.0 c).directory.files_by_identifier)
                (made-identifier name r.0 c)
              ∙ find-insert_self ◌==◌ ==_iff r.0 (length c.files) m r.4;
          few = length-insert r.0 (length c.files) m;
        },
      )

  -- Over a map of identifiers without the guess, a file that is found has not guessed it.
  identified :
      (file identifier start_index : ℕ) (c : Container S)
      → IsSound c
      → file < length c.files
      → identifier_at file c.files ≢ identifier
      → (id g : ℕ)
      → find ◌==◌ id (
          erase ◌==◌
            (identifier_at file c.files)
            (insert ◌==◌ identifier file c.directory.files_by_identifier))
        ≡ some g
      → (g < length c.files)
        × (identifier_at g (
              set c.files file (record (file_at file c) {
                current_stream_identifier = identifier;
                start_chunk_index = start_index;
              }))
            ≡ id)
  identified file identifier start_index c v inside differ id g there =
      elim (Bool-cases (identifier_at file c.files == id)) [
        | inl t ↦ absurd (
            none-ne-some g (
              sym (find-erase_self ◌==◌ ==_iff guess taken)
              ∙ ap (λ (i : ℕ). find ◌==◌ i (erase ◌==◌ guess taken)) ((==_iff guess id).0 t)
              ∙ there))
        | inr f ↦
            let kept : find ◌==◌ id taken ≡ some g =
              sym (find-erase_ne ◌==◌ ==_iff guess id taken (ground (arith, f))) ∙ there in
            elim (inserted identifier id file g m kept) [
              | inl old ↦
                  let r = v.registered id g old in
                  let other : file ≢ g =
                    λ e. ==→≢ guess id f (ap (λ (i : ℕ). identifier_at i c.files) e ∙ r.1) in
                  (
                    r.0,
                    ap (λ (h : VirtualFile). h.current_stream_identifier)
                          (get_or-set_ne c.files file g given no_file other)
                        ∙ r.1,
                  )
              | inr (same, at_file) ↦ (
                omega (arith, inside, at_file),
                ap (λ (i : ℕ). identifier_at i (set c.files file given)) at_file
                    ∙ ap (λ (h : VirtualFile). h.current_stream_identifier)
                        (get_or-set_self c.files file given no_file inside)
                    ∙ sym same,
              )
            ]
      ]
    where
      given : VirtualFile
      given = record (file_at file c) {
        current_stream_identifier = identifier;
        start_chunk_index = start_index;
      }

      m : List (ℕ × ℕ)
      m = c.directory.files_by_identifier

      guess : ℕ
      guess = identifier_at file c.files

      taken : List (ℕ × ℕ)
      taken = insert ◌==◌ identifier file m

  -- What becomes of a file with its identity.
  pub record IsIdentified (c : Container S) (o : Option (Container S)) : Type 0 where
    pub c' : Container S
    pub result : o ≡ some c'
    pub sound : IsSound c'
    pub few : length c'.directory.files_by_identifier ≤ length c.directory.files_by_identifier

  pub take_identity-IsIdentified :
      (file identifier start_index : ℕ) (c : Container S)
      → IsSound c
      → file < length c.files
      → find ◌==◌ (identifier_at file c.files) c.directory.files_by_identifier ≡ some file
      → IsIdentified c (take_identity file identifier start_index c)
  unfolding take_identity
  take_identity-IsIdentified file identifier start_index c v inside guessed =
      elim (Bool-cases (identifier_at file c.files == identifier)) [
        | inl t ↦ rw t (record {
          c' = with_identity file identifier start_index m c;
          result = refl;
          sound = record {
            well_formed = v.well_formed;
            in_step = v.in_step;
            registered = λ id g there.
                let r = v.registered id g there in
                (
                  omega (arith, length-set c.files file given, r.0),
                  identifier-set_same c.files file g given
                        (sym ((==_iff (identifier_at file c.files) identifier).0 t)) r.0
                      ∙ r.1,
                );
          };
          few = omega arith;
        })
        | inr f ↦
            rw (take_identity, f, guessed)
              (record {
                c' =
                    with_identity file identifier start_index
                      (erase ◌==◌ guess (insert ◌==◌ identifier file m)) c;
                result = refl;
                sound = record {
                  well_formed = v.well_formed;
                  in_step = v.in_step;
                  registered = λ id g there.
                      let r =
                        identified file identifier start_index c v inside
                          (==→≢ (identifier_at file c.files) identifier f) id g there in
                      (omega (arith, length-set c.files file given, r.0), r.1);
                };
                few = omega (
                  arith,
                  length-insert identifier file m,
                  length-erase_taken guess (insert ◌==◌ identifier file m) (
                      ap is_some (
                        find-insert_ne ◌==◌ ==_iff identifier guess file m
                          (λ e. ==→≢ guess identifier f (sym e))
                        ∙ guessed)),
                );
              })
      ]
    where
      given : VirtualFile
      given = record (file_at file c) {
        current_stream_identifier = identifier;
        start_chunk_index = start_index;
      }

      m : List (ℕ × ℕ)
      m = c.directory.files_by_identifier

      guess : ℕ
      guess = identifier_at file c.files
