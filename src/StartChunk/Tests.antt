-- ===== src/StartChunk/Tests.antt =====
-- Runs of the chunks with texts.
use inecontainer.Prelude.{ℕ, ◌≡◌, refl, List, [], ◌∷◌, replicate, some, true, arith}
use inecontainer.Header.{
  ChunkHeader, new_chunk_header, number_valid_bytes, number_invalid_bytes, chunk_size,
  set_number_valid_bytes, write_valid_count, header_word, set_type, required_bits, log2,
  maximum_payload_size,
}
use inecontainer.Directory.{name_eq}
use inecontainer.Stream.{stream_identifier}
use inecontainer.StartChunk.{
  set_virtual_filename, virtual_filename, new_file_header, identifier, major_version, minor_version,
  is_valid_header,
}
use inecontainer.StartChunk.Text.{virtual_filename-set_virtual_filename}

abbrev start_header : ChunkHeader
start_header = record {
  b0 = 0x1D;
  b1 = 0;
  b2 = 0;
  b3 = 0;
  additional = 5 ∷ 1 ∷ 0 ∷ 0 ∷ replicate 120 7;
}

-- "log"
abbrev log_name : List ℕ
log_name = 108 ∷ 111 ∷ 103 ∷ []

-- A header that was written for an identifier is valid for it.
new_file_header_valid : is_valid_header log_name (new_file_header log_name) ≡ true
unfolding is_valid_header new_file_header identifier major_version minor_version name_eq
    number_valid_bytes chunk_size set_number_valid_bytes write_valid_count header_word set_type
    new_chunk_header required_bits log2 maximum_payload_size number_invalid_bytes
new_file_header_valid = refl

virtual_filename_example :
    (h' : ChunkHeader) × (set_virtual_filename log_name start_header ≡ some h')
    × (virtual_filename (65 ∷ []) h' ≡ log_name)
    × (stream_identifier h' ≡ stream_identifier start_header)
virtual_filename_example =
    virtual_filename-set_virtual_filename (65 ∷ []) log_name start_header
      (omega arith, (omega arith, (omega arith, tt))) (omega arith) (omega arith)
