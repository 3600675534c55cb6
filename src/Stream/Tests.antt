-- ===== src/Stream/Tests.antt =====
-- A data chunk's header with an identifier, marked last, at an offset above 4 GiB.
use inecontainer.Prelude.{◌≡◌, refl, false, [], ◌∷◌, ◌%◌, All, arith}
use inecontainer.Header.{ChunkHeader}
use inecontainer.Stream.{
  set_stream_identifier, stream_identifier, set_last, is_last, set_chunk_offset, chunk_offset,
  invalid_stream_identifier,
}
use inecontainer.Stream.Fields.{
  IsByte, set_stream_identifier_lem, set_last_lem, set_chunk_offset_lem,
}

abbrev data_header : ChunkHeader
data_header = record {
  b0 = 0x1E;
  b1 = 0;
  b2 = 0;
  b3 = 0;
  additional = 1 ∷ 2 ∷ 0 ∷ 0x80 ∷ 5 ∷ 0 ∷ 0 ∷ 0 ∷ 1 ∷ 0 ∷ [];
}

data_header_identifier : stream_identifier data_header ≡ 513
unfolding stream_identifier
data_header_identifier = refl

-- The invalid identifier is not read back: its top bit is the mark of the last chunk.
invalid_identifier_read :
    stream_identifier (set_stream_identifier invalid_stream_identifier data_header) ≡ 0x7FFFFFFF
unfolding stream_identifier set_stream_identifier
invalid_identifier_read = refl

set_stream_identifier_example :
    (stream_identifier (set_stream_identifier 70000 data_header) ≡ 70000 % 2147483648)
    × (is_last (set_stream_identifier 70000 data_header) ≡ is_last data_header)
    × (chunk_offset (set_stream_identifier 70000 data_header) ≡ chunk_offset data_header)
set_stream_identifier_example =
    set_stream_identifier_lem 70000 data_header (omega arith) (omega arith)

data_header_bytes : All IsByte data_header.additional
data_header_bytes = (
  omega arith,
  (
    omega arith,
    (
      omega arith,
      (
        omega arith,
        (
          omega arith,
          (omega arith, (omega arith, (omega arith, (omega arith, (omega arith, tt))))),
        ),
      ),
    ),
  ),
)

set_last_example :
    (is_last (set_last false data_header) ≡ false)
    × (stream_identifier (set_last false data_header) ≡ stream_identifier data_header)
    × (chunk_offset (set_last false data_header) ≡ chunk_offset data_header)
set_last_example = set_last_lem false data_header (omega arith) data_header_bytes

set_chunk_offset_example :
    (chunk_offset (set_chunk_offset 5000000000 data_header) ≡ 5000000000 % 281474976710656)
    × (stream_identifier (set_chunk_offset 5000000000 data_header) ≡ stream_identifier data_header)
    × (is_last (set_chunk_offset 5000000000 data_header) ≡ is_last data_header)
set_chunk_offset_example = set_chunk_offset_lem 5000000000 data_header (omega arith)
