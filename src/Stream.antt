-- ===== src/Stream.antt =====
-- The headers of the chunks of a virtual file: inecontainer/source/stream_chunk.cpp and the offset of
-- stream_data_chunk.cpp. Both lie in the additional part of the common header: four bytes of stream
-- identifier, whose top bit marks the last chunk, and six bytes of the offset in the virtual file.
pub mod Fields
mod Tests
use Prim.Native.Nat.{bit_and, bit_or}
use inecontainer.Prelude.{
  ℕ, ◌+◌, Bool, true, false, not, List, [], ◌∷◌, ◌==◌, if◌then◌else◌, get_or, set, length,
}
use inecontainer.Prelude.Words.{u8, sub32, ◌>>>◌, ◌<<<◌}
use inecontainer.Header.{ChunkHeader, number_valid_bytes, additional_header_size_bytes}

abbrev pub invalid_stream_identifier : ℕ
invalid_stream_identifier = 0xFFFFFFFF

-- `header[i]` of the additional header, read and written.
abbrev pub byte : ℕ → ChunkHeader → ℕ
byte i h = get_or h.additional i 0

abbrev pub set_byte : ℕ → ℕ → ChunkHeader → ChunkHeader
set_byte i v h = record h { additional = set h.additional i v }

unfoldable pub set_stream_identifier : ℕ → ChunkHeader → ChunkHeader
set_stream_identifier id h =
    set_byte 3 (bit_or (bit_and (u8 (id >>> 24)) 0x7F) (bit_and (byte 3 h) 0x80))
      (set_byte 2 (u8 (id >>> 16)) (set_byte 1 (u8 (id >>> 8)) (set_byte 0 (u8 id) h)))

unfoldable pub stream_identifier : ChunkHeader → ℕ
stream_identifier h =
    bit_and
      (bit_or (bit_or (bit_or (byte 0 h) (byte 1 h <<< 8)) (byte 2 h <<< 16)) (byte 3 h <<< 24))
      0x7FFFFFFF

unfoldable pub set_last : Bool → ChunkHeader → ChunkHeader
set_last true h = set_byte 3 (bit_or (byte 3 h) 0x80) h
set_last false h = set_byte 3 (bit_and (byte 3 h) 0x7F) h

unfoldable pub is_last : ChunkHeader → Bool
is_last h = not (bit_and (byte 3 h) 0x80 == 0)

-- `StreamDataChunk` writes behind the bytes of `StreamChunk`.
unfoldable pub set_chunk_offset : ℕ → ChunkHeader → ChunkHeader
set_chunk_offset offset h = set_byte 9 (u8 (offset >>> 40)) (
    set_byte 8 (u8 (offset >>> 32)) (
      set_byte 7 (u8 (offset >>> 24)) (
        set_byte 6 (u8 (offset >>> 16))
          (set_byte 5 (u8 (offset >>> 8)) (set_byte 4 (u8 offset) h)))))

unfoldable pub chunk_offset : ChunkHeader → ℕ
chunk_offset h =
    bit_or
      (bit_or
        (bit_or (bit_or (bit_or (byte 4 h) (byte 5 h <<< 8)) (byte 6 h <<< 16)) (byte 7 h <<< 24))
        (byte 8 h <<< 32))
      (byte 9 h <<< 40)

unfoldable pub payload_size : ChunkHeader → ℕ
payload_size h = sub32 (number_valid_bytes h) (additional_header_size_bytes h)
