-- ===== src/Container/FileHeader.antt =====
-- The file header that `open` writes into an empty container passes the tests of `open`.
use inecontainer.Prelude.{
  ℕ, zero, suc, ◌+◌, ◌≤◌, ◌≡◌, refl, sym, ◌∙◌, ap, Bool, true, false, List, [], ◌∷◌, length, drop,
  take_all, replicate, ltb, Bool-cases, inl, inr, arith,
}
use inecontainer.Prelude.Words.{sub32}
use inecontainer.Header.{
  ChunkHeader, IsBytes, write_valid_count, file_header_chunk, set_type, new_chunk_header,
  set_number_valid_bytes, number_valid_bytes, number_invalid_bytes, chunk_size,
  additional_header_size_bytes, update_crc, check_crc, set_crc, maximum_payload_size,
}
use inecontainer.Status.{no_status, to_bool}
use inecontainer.Directory.Names.{name_eq_iff}
use inecontainer.Header.Crc.{accepted}
use inecontainer.Header.Sizes.{set_number_valid_bytes_lem}
use inecontainer.Header.Fields.{set_type_lem, chunk_size_range}
use inecontainer.StartChunk.{
  new_file_header, identifier, major_version, minor_version, is_valid_header,
  container_minor_version,
}
use inecontainer.Container.{header_status}

length-replicate : (n : ℕ) → length (replicate {A = ℕ} n 0) ≡ n
length-replicate zero = refl
length-replicate (suc n) = ap suc (length-replicate n)

no_list : (xs : List ℕ) → length xs ≡ 0 → xs ≡ []
no_list [] e = refl
no_list (x ∷ xs) e = absurd (omega arith)

module _ (name : List ℕ) (short : length name ≤ 4088) where
  abbrev array : List ℕ
  array = replicate (length name + 4) 0

  abbrev fresh : ChunkHeader
  fresh = new_chunk_header array

  abbrev blank : ChunkHeader
  blank = record { b0 = 0x80; b1 = 0x03; b2 = 0x00; b3 = 0x00; additional = array }

  array_length : length array ≡ length name + 4
  array_length = length-replicate (length name + 4)

  fresh_size : length name + 8 ≤ chunk_size fresh
  unfolding new_chunk_header maximum_payload_size
  fresh_size =
      let s = set_number_valid_bytes_lem (length array) true blank in
      omega (arith, s.0, s.1.2, array_length, short)

  fresh-IsBytes : IsBytes fresh
  unfolding new_chunk_header set_number_valid_bytes write_valid_count
  fresh-IsBytes = record {
    byte0 = omega arith;
    byte1 = omega arith;
    byte2 = omega arith;
    byte3 = omega arith;
  }

  typed_size : chunk_size (set_type file_header_chunk fresh) ≡ chunk_size fresh
  typed_size = (set_type_lem file_header_chunk fresh fresh-IsBytes).1

  abbrev typed : ChunkHeader
  typed = set_type file_header_chunk fresh

  typed_array : typed.additional ≡ array
  unfolding set_type new_chunk_header set_number_valid_bytes write_valid_count
  typed_array = refl

  typed_count : additional_header_size_bytes typed ≡ length name + 4
  typed_count = omega (arith, ap length typed_array, array_length, short)

  sized :
      number_valid_bytes (set_number_valid_bytes (additional_header_size_bytes typed) false typed).0
      ≡ length name + 4
  unfolding maximum_payload_size
  sized =
      let s = set_number_valid_bytes_lem (additional_header_size_bytes typed) false typed in
      s.1.0 ∙ s.0 ∙ omega (arith, typed_count, typed_size, fresh_size, chunk_size_range typed)

  valid : number_valid_bytes (new_file_header name) ≡ length name + 4
  unfolding new_file_header number_valid_bytes chunk_size number_invalid_bytes
  valid = unfold number_valid_bytes chunk_size number_invalid_bytes in sized

  abbrev pub written : ChunkHeader
  written = update_crc (new_file_header name)

  valid_written : number_valid_bytes written ≡ length name + 4
  unfolding update_crc set_crc number_valid_bytes chunk_size number_invalid_bytes
  valid_written = unfold number_valid_bytes chunk_size number_invalid_bytes in valid

  behind_version : drop 4 written.additional ≡ name
  unfolding update_crc set_crc new_file_header
  behind_version = refl

  pub identifier_kept : identifier written ≡ name
  unfolding identifier
  identifier_kept = elim (Bool-cases (ltb 4 (length name + 4))) [
    | inl some_bytes ↦
        rw (identifier, valid_written, some_bytes, behind_version)
          (take_all (sub32 (length name + 4) 4) name (omega (arith, short)))
    | inr no_bytes ↦
        rw (identifier, valid_written, no_bytes) (sym (no_list name (ground (arith, no_bytes))))
  ]

  new_file_header-IsBytes : IsBytes (new_file_header name)
  unfolding new_file_header set_number_valid_bytes write_valid_count set_type new_chunk_header
  new_file_header-IsBytes = record {
    byte0 = omega arith;
    byte1 = omega arith;
    byte2 = omega arith;
    byte3 = omega arith;
  }

  pub check_written : check_crc written ≡ true
  check_written = accepted (new_file_header name) new_file_header-IsBytes

  pub major_written : major_version written ≡ 1
  unfolding major_version update_crc set_crc new_file_header
  major_written = refl

  pub minor_written : minor_version written ≡ 0
  unfolding minor_version update_crc set_crc new_file_header
  minor_written = refl

-- For an identifier of at most 4088 bytes: the file header that is made for it, with its CRC updated,
-- is a valid header for it, which has the current version and passes every test of open, whether the
-- identifier is ignored or not.
pub header_status-new_file_header :
    (ignore_identifier : Bool) (name : List ℕ)
    → length name ≤ 4088
    → let h = update_crc (new_file_header name) in
      (is_valid_header name h ≡ true)
      × (identifier h ≡ name)
      × (minor_version h ≡ container_minor_version)
      × (header_status ignore_identifier name h no_status ≡ no_status)
unfolding is_valid_header header_status to_bool
header_status-new_file_header ignore_identifier name short =
    let i = identifier_kept name short in
    let same = (name_eq_iff name name).1 refl in
    let j = major_written name short in
    let m = minor_written name short in (rw (i, same, j, m) refl, i, m, passes ignore_identifier)
  where
    passes :
        (ignore_identifier : Bool)
        → header_status ignore_identifier name (update_crc (new_file_header name)) no_status
          ≡ no_status
    passes true = rw (check_written name short) refl
    passes false =
        rw
          (
            identifier_kept name short,
            (name_eq_iff name name).1 refl,
            major_written name short,
            check_written name short,
          )
          refl
