-- ===== src/Directory/Identifiers.antt =====
-- `newStreamIdentifier` hands out the least identifier that no file has.
use mathlib.Core.Bool.{true≢false}
use inecontainer.Prelude.{
  ℕ, zero, suc, ◌+◌, ◌≤◌, ◌<◌, ◌≡◌, ◌≢◌, refl, sym, ◌∙◌, ap, subst, true, false, Option, none, some,
  List, [], ◌∷◌, ◌==◌, ==_iff, ne→==, Bool-cases, Option-cases, inl, inr, length, arith,
}
use inecontainer.Stream.{invalid_stream_identifier}
use inecontainer.Directory.{
  Name, Directory, name_eq, find, erase, insert, is_some, free_identifier, new_stream_identifier,
  register_file_implementation,
}
use inecontainer.Directory.Maps.{find-insert_self, find-insert_ne, find-erase_ne}
use inecontainer.Directory.Names.{name_eq_iff, find_name}

abbrev pub IsTaken : ℕ → List (ℕ × ℕ) → Type 0
IsTaken i m = is_some (find ◌==◌ i m) ≡ true

pub length-erase : (k : ℕ) (m : List (ℕ × ℕ)) → length (erase ◌==◌ k m) ≤ length m
unfolding erase
length-erase k [] = omega arith
length-erase k ((j, v) ∷ m) = elim (Bool-cases (j == k)) [
  | inl t ↦ rw t (omega (arith, length-erase k m))
  | inr f ↦ rw f (omega (arith, length-erase k m))
]

pub length-erase_taken :
    (k : ℕ) (m : List (ℕ × ℕ)) → IsTaken k m → length (erase ◌==◌ k m) < length m
unfolding erase find
length-erase_taken k [] there = absurd (true≢false (sym there))
length-erase_taken k ((j, v) ∷ m) there = elim (Bool-cases (j == k)) [
  | inl t ↦ rw t (omega (arith, length-erase k m))
  | inr f ↦ rw f (omega (arith, length-erase_taken k m (rw f at there)))
]

-- As many entries as identifiers that are taken.
pub taken_count : (n : ℕ) (m : List (ℕ × ℕ)) → ((i : ℕ) → i < n → IsTaken i m) → n ≤ length m
taken_count zero m taken = omega arith
taken_count (suc n) m taken =
    let rest = taken_count n (erase ◌==◌ n m) (λ i lt.
      ap is_some (find-erase_ne ◌==◌ ==_iff n i m (λ e. absurd (omega (arith, e))))
      ∙ taken i (omega arith)) in
    omega (arith, rest, length-erase_taken n m (taken n (omega arith)))

-- The least free identifier.
pub record LeastFree (m : List (ℕ × ℕ)) (o : Option ℕ) : Type 0 where
  pub identifier : ℕ
  pub result : o ≡ some identifier
  pub is_free : find ◌==◌ identifier m ≡ none
  pub lower_taken : (i : ℕ) → i < identifier → IsTaken i m

free_identifier-LeastFree :
    (fuel candidate : ℕ) (m : List (ℕ × ℕ))
    → ((i : ℕ) → i < candidate → IsTaken i m)
    → length m < candidate + fuel
    → length m < 4294967295
    → LeastFree m (free_identifier fuel candidate m)
unfolding free_identifier
free_identifier-LeastFree zero candidate m taken enough small =
    absurd (omega (arith, taken_count candidate m taken))
free_identifier-LeastFree (suc fuel) candidate m taken enough small =
    let valid : (candidate == invalid_stream_identifier) ≡ false =
      ne→== candidate invalid_stream_identifier
        (λ e. absurd (omega (arith, e, taken_count candidate m taken))) in
    elim (Option-cases (find ◌==◌ candidate m)) [
      | inl absent ↦
          rw (free_identifier, valid, absent)
            (record {
              identifier = candidate;
              result = refl;
              is_free = absent;
              lower_taken = taken;
            })
      | inr (v, there) ↦
          rw (free_identifier, valid, there)
            (free_identifier-LeastFree fuel (candidate + 1) m (up_to v there) (omega arith) small)
    ]
  where
    up_to : (v : ℕ) → find ◌==◌ candidate m ≡ some v → (i : ℕ) → i < candidate + 1 → IsTaken i m
    up_to v there i lt = elim (Bool-cases (candidate == i)) [
      | inl same ↦ subst (λ (j : ℕ). IsTaken j m) ((==_iff candidate i).0 same) (ap is_some there)
      | inr other ↦ taken i (ground (arith, other))
    ]

-- With fewer than 2^32 - 1 entries in the map by identifier: newStreamIdentifier ends with the least
-- identifier that no file has, which is not the invalid one. Under it and a name that is free,
-- registerFileImplementation then registers a file: the identifier and the name find it, and every other
-- identifier and name finds what it found before.
pub new_stream_identifier_lem :
    (file : ℕ) (name : Name) (d : Directory)
    → length d.files_by_identifier < 4294967295
    → find_name name d.files_by_name ≡ none
    → (id : ℕ) × (d' : Directory) × (new_stream_identifier d ≡ some id)
      × (id < invalid_stream_identifier)
      × (find ◌==◌ id d.files_by_identifier ≡ none)
      × ((i : ℕ) → i < id → IsTaken i d.files_by_identifier)
      × (register_file_implementation name id file d ≡ some d')
      × (find ◌==◌ id d'.files_by_identifier ≡ some file)
      × (find_name name d'.files_by_name ≡ some file)
      × ((i : ℕ) → i ≢ id → find ◌==◌ i d'.files_by_identifier ≡ find ◌==◌ i d.files_by_identifier)
      × ((n : Name) → n ≢ name → find_name n d'.files_by_name ≡ find_name n d.files_by_name)
unfolding new_stream_identifier register_file_implementation
new_stream_identifier_lem file name d small free = (
  r.identifier,
  record d {
    files_by_name = insert name_eq name file d.files_by_name;
    files_by_identifier = insert ◌==◌ r.identifier file d.files_by_identifier;
  },
  r.result,
  omega (arith, taken_count r.identifier d.files_by_identifier r.lower_taken, small),
  r.is_free,
  r.lower_taken,
  rw (register_file_implementation, free) refl,
  find-insert_self ◌==◌ ==_iff r.identifier file d.files_by_identifier r.is_free,
  find-insert_self name_eq name_eq_iff name file d.files_by_name free,
  λ i ne. find-insert_ne ◌==◌ ==_iff r.identifier i file d.files_by_identifier (λ e. ne (sym e)),
  λ n ne. find-insert_ne name_eq name_eq_iff name n file d.files_by_name (λ e. ne (sym e)),
)
  where
    r :
        LeastFree d.files_by_identifier
          (free_identifier (length d.files_by_identifier + 1) 0 d.files_by_identifier)
    r =
        free_identifier-LeastFree (length d.files_by_identifier + 1) 0 d.files_by_identifier
          (λ i lt. absurd (omega arith)) (omega arith) small
