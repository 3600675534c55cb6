-- ===== src/StartChunk.antt =====
-- The chunks with texts of inecontainer/source: stream_start_chunk.cpp, whose additional header is the
-- identifier and a file name of at most 119 bytes, and file_header_chunk.cpp, with the version of the
-- container and its identifier. A `std::string` is the list of its bytes.
pub mod Text
mod Tests
use inecontainer.Prelude.{
  ℕ, suc, ◌+◌, ◌-◌, Bool, true, false, ◌&&◌, List, [], ◌∷◌, ◌++◌, ltb, leb, ◌==◌, if◌then◌else◌,
  length, take, drop, replicate, get_or, Option, none, some,
}
use inecontainer.Prelude.Words.{u8, sub32}
use inecontainer.Header.{
  ChunkHeader, stream_start_chunk, file_header_chunk, set_type, new_chunk_header,
  set_number_valid_bytes, number_valid_bytes, additional_header_size_bytes,
}
use inecontainer.Directory.{Name, name_eq}
use inecontainer.Chunk.{Chunk}
use inecontainer.DataChunk.{new_stream_header}

abbrev pub maximum_virtual_filename_length : ℕ
maximum_virtual_filename_length = 119

-- The characters of a C string that starts at an array: those before its first zero.
unfoldable pub c_string : List ℕ → List ℕ
c_string [] = []
c_string (x ∷ xs) = if x == 0 then [] else x ∷ c_string xs

-- `std::strncpy(destination, source, n)`: at most `n` characters, and zeros up to `n` bytes.
unfoldable pub strncpy : List ℕ → List ℕ → ℕ → List ℕ
unfolding c_string
strncpy destination source n =
    let copied = take n (c_string source) in
    copied ++ replicate (n - length copied) 0 ++ drop n destination

-- `std::memset(destination + i, 0, n)`.
unfoldable pub clear_at : ℕ → ℕ → List ℕ → List ℕ
clear_at i n xs = take i xs ++ replicate n 0 ++ drop (i + n) xs

-- The name's part of the additional header, behind the four bytes of the identifier.
abbrev pub raw_filename : ChunkHeader → List ℕ
raw_filename h = drop 4 h.additional

abbrev pub with_filename : List ℕ → ChunkHeader → ChunkHeader
with_filename raw h = record h { additional = take 4 h.additional ++ raw }

-- `setVirtualFilename`; `none` where `memset` gets a length that has wrapped and runs past the header.
unfoldable pub set_virtual_filename : Name → ChunkHeader → Option ChunkHeader
unfolding strncpy clear_at
set_virtual_filename new_name h =
    let bytes_written = length new_name + 1 in
    let copied = strncpy (raw_filename h) new_name maximum_virtual_filename_length in
    if leb bytes_written maximum_virtual_filename_length
    then some (
        with_filename
          (clear_at bytes_written (sub32 maximum_virtual_filename_length bytes_written) copied) h)
    else none

-- `virtualFilename`. Its buffer gets the first 119 bytes; `unset` is what the memory from its last byte
-- on holds, which no one has written.
unfoldable pub virtual_filename : List ℕ → ChunkHeader → Name
unfolding c_string
virtual_filename unset h = c_string (take maximum_virtual_filename_length (raw_filename h) ++ unset)

-- `StreamStartChunk` over an array of 124 bytes, which `raw` holds.
unfoldable pub new_start_chunk : ℕ → Name → ℕ → List ℕ → Option Chunk
unfolding set_virtual_filename new_stream_header
new_start_chunk file_index name stream_identifier raw =
    elim (set_virtual_filename name
      (set_type stream_start_chunk (new_stream_header stream_identifier raw))) [
        | none ↦ none
        | some h ↦ some (record { header = h; file_index = file_index })
      ]

-- The constructor over a common header that was read: both parts of the additional header are
-- cleared.
unfoldable pub start_chunk_of : ℕ → ChunkHeader → Chunk
start_chunk_of file_index common_header = record {
  header = record common_header { additional = replicate 124 0 };
  file_index = file_index;
}

abbrev pub container_major_version : ℕ
container_major_version = 1

abbrev pub container_minor_version : ℕ
container_minor_version = 0

-- `FileHeaderChunk` over a new array, every byte of which is written.
unfoldable pub new_file_header : List ℕ → ChunkHeader
new_file_header identifier =
    let h = set_type file_header_chunk (new_chunk_header (replicate (length identifier + 4) 0)) in
    record (set_number_valid_bytes (additional_header_size_bytes h) false h).0 {
      additional = container_major_version ∷ container_minor_version ∷ 0 ∷ 0 ∷ identifier;
    }

unfoldable pub major_version : ChunkHeader → ℕ
major_version h = get_or h.additional 0 0

unfoldable pub minor_version : ChunkHeader → ℕ
minor_version h = get_or h.additional 1 0

unfoldable pub identifier : ChunkHeader → List ℕ
identifier h =
    if ltb 4 (number_valid_bytes h)
    then take (sub32 (number_valid_bytes h) 4) (drop 4 h.additional)
    else []

-- `FileHeaderChunk::isValid`.
unfoldable pub is_valid_header : List ℕ → ChunkHeader → Bool
unfolding major_version minor_version identifier
is_valid_header expected h =
    name_eq expected (identifier h)
    && (major_version h == container_major_version)
    && (minor_version h == container_minor_version)
