-- ===== src/Directory/Tests.antt =====
-- A directory with two files, of the identifiers 0 and 2.
use inecontainer.Prelude.{
  ℕ, ◌<◌, ◌≡◌, ◌≢◌, refl, ap, true, [], ◌∷◌, none, some, ◌==◌, get_or, arith,
}
use inecontainer.Directory.{
  Name, name_eq, find, Directory, free_identifier, new_stream_identifier,
  register_file_implementation, file_renamed, file_erased,
}
use inecontainer.Directory.Identifiers.{IsTaken, new_stream_identifier_lem}
use inecontainer.Stream.{invalid_stream_identifier}
use inecontainer.Directory.Names.{
  find_name, Renamed, file_renamed_lem, file_renamed-taken, file_erased_lem,
}

abbrev first_name : Name
first_name = 97 ∷ []

abbrev second_name : Name
second_name = 97 ∷ 98 ∷ []

abbrev third_name : Name
third_name = 99 ∷ []

abbrev two_files : Directory
two_files = record {
  files_by_name = (first_name, 10) ∷ (second_name, 12) ∷ [];
  file_apis_by_name = (first_name, 20) ∷ (second_name, 22) ∷ [];
  files_by_identifier = (0, 10) ∷ (2, 12) ∷ [];
}

-- Two names that differ in their first character, and two that differ in their length.
first≢third : first_name ≢ third_name
first≢third e = absurd (omega (arith, ap (λ (n : Name). get_or n 0 0) e))

first≢second : first_name ≢ second_name
first≢second e = absurd (omega (arith, ap (λ (n : Name). get_or n 1 0) e))

apis_first : find_name first_name two_files.file_apis_by_name ≡ some 20
unfolding find name_eq
apis_first = refl

files_first : find_name first_name two_files.files_by_name ≡ some 10
unfolding find name_eq
files_first = refl

apis_second : find_name second_name two_files.file_apis_by_name ≡ some 22
unfolding find name_eq
apis_second = refl

files_second : find_name second_name two_files.files_by_name ≡ some 12
unfolding find name_eq
files_second = refl

apis_third : find_name third_name two_files.file_apis_by_name ≡ none
unfolding find name_eq
apis_third = refl

files_third : find_name third_name two_files.files_by_name ≡ none
unfolding find name_eq
files_third = refl

new_stream_identifier_example :
    (id : ℕ) × (d' : Directory) × (new_stream_identifier two_files ≡ some id)
    × (id < invalid_stream_identifier)
    × (find ◌==◌ id two_files.files_by_identifier ≡ none)
    × ((i : ℕ) → i < id → IsTaken i two_files.files_by_identifier)
    × (register_file_implementation third_name id 11 two_files ≡ some d')
    × (find ◌==◌ id d'.files_by_identifier ≡ some 11)
    × (find_name third_name d'.files_by_name ≡ some 11)
    × ((i : ℕ)
        → i ≢ id
        → find ◌==◌ i d'.files_by_identifier ≡ find ◌==◌ i two_files.files_by_identifier)
    × ((n : Name)
        → n ≢ third_name
        → find_name n d'.files_by_name ≡ find_name n two_files.files_by_name)
new_stream_identifier_example =
    new_stream_identifier_lem 11 third_name two_files (omega arith) files_third

new_identifier_one : new_stream_identifier two_files ≡ some 1
unfolding new_stream_identifier free_identifier
new_identifier_one = refl

file_renamed_example :
    ((file_renamed first_name third_name two_files).1 ≡ true)
    × Renamed first_name third_name 20 two_files.file_apis_by_name
        (file_renamed first_name third_name two_files).0.file_apis_by_name
    × Renamed first_name third_name 10 two_files.files_by_name
        (file_renamed first_name third_name two_files).0.files_by_name
    × ((file_renamed first_name third_name two_files).0.files_by_identifier
        ≡ two_files.files_by_identifier)
file_renamed_example =
    file_renamed_lem first_name third_name 20 10 two_files apis_first files_first first≢third
      apis_third files_third

file_renamed-taken_example :
    let (d', success) = file_renamed first_name second_name two_files in
    (success ≡ true)
    × (find_name first_name d'.file_apis_by_name ≡ none)
    × (find_name first_name d'.files_by_name ≡ none)
    × ((n : Name)
        → n ≢ first_name
        → (find_name n d'.file_apis_by_name ≡ find_name n two_files.file_apis_by_name)
          × (find_name n d'.files_by_name ≡ find_name n two_files.files_by_name))
    × (d'.files_by_identifier ≡ two_files.files_by_identifier)
file_renamed-taken_example =
    file_renamed-taken first_name second_name 20 10 two_files apis_first files_first 22 12
      first≢second apis_second files_second

file_erased_example :
    ((file_erased first_name two_files).1 ≡ true)
    × (find_name first_name (file_erased first_name two_files).0.files_by_name ≡ none)
    × (find_name first_name (file_erased first_name two_files).0.file_apis_by_name ≡ none)
    × ((n : Name)
        → n ≢ first_name
        → (find_name n (file_erased first_name two_files).0.files_by_name
            ≡ find_name n two_files.files_by_name)
          × (find_name n (file_erased first_name two_files).0.file_apis_by_name
              ≡ find_name n two_files.file_apis_by_name))
    × ((file_erased first_name two_files).0.files_by_identifier ≡ two_files.files_by_identifier)
file_erased_example = file_erased_lem first_name 20 10 two_files apis_first files_first
