-- ===== src/Header.antt =====
-- inecontainer/source/chunk_header.h and chunk_header.cpp: the header in front of every chunk.
-- `b0` to `b3` are `header[0]` to `header[3]`, and `additional` is the rest of the allocated array,
-- so that `headerSize` is four more than its length. A function that writes through `header`
-- returns the new header.
mod Tables
pub mod Bits
pub mod Log2
pub mod Fields
pub mod Sizes
pub mod Fill
pub mod Crc
pub mod Rounding
mod Tests
use Prim.Native.Nat.{bit_and, bit_or, bit_xor}
use inecontainer.Prelude.{
  ℕ, ◌+◌, ◌*◌, ◌/◌, ◌^◌, ◌%◌, ◌<◌, Bool, true, false, not, Option, none, some, List, [], ◌∷◌, ltb,
  leb, ◌==◌, if◌then◌else◌, length, get_or,
}
use inecontainer.Prelude.Words.{u8, u16, u32, add32, sub32, ◌>>>◌, ◌<<<◌}
use Tables.{mul_de_bruijn_bit_table, crc_table}

-- `ChunkHeader::Type`, with the codes 0 to 3 that the two low bits of `header[0]` hold.
pub data ChunkType : Type 0 where
  file_header_chunk stream_start_chunk stream_data_chunk fill_chunk : ChunkType

abbrev pub type_code : ChunkType → ℕ
type_code file_header_chunk = 0
type_code stream_start_chunk = 1
type_code stream_data_chunk = 2
type_code fill_chunk = 3

-- The `static_cast<Type>` of a value masked to two bits.
abbrev pub to_type : ℕ → ChunkType
to_type c =
    if c == 0
    then file_header_chunk
    else if c == 1
    then stream_start_chunk
    else if c == 2
    then stream_data_chunk
    else fill_chunk

abbrev pub minimum_chunk_header_size_bytes : ℕ
minimum_chunk_header_size_bytes = 4

abbrev pub minimum_chunk_size : ℕ
minimum_chunk_size = 32

abbrev pub maximum_chunk_size : ℕ
maximum_chunk_size = 4096

abbrev pub invalid_file_index : ℕ
invalid_file_index = 4294967295

pub record ChunkHeader : Type 0 where
  pub b0 : ℕ
  pub b1 : ℕ
  pub b2 : ℕ
  pub b3 : ℕ
  pub additional : List ℕ

-- `x |= x >> k`.
abbrev pub smear : ℕ → ℕ → ℕ
smear k x = bit_or x (x >>> k)

abbrev pub smear_word : ℕ → ℕ
smear_word x = smear 16 (smear 8 (smear 4 (smear 2 (smear 1 x))))

-- `ChunkHeader::log2`: the smeared word times a De Bruijn constant picks the table's entry.
unfoldable pub log2 : ℕ → ℕ
unfolding mul_de_bruijn_bit_table
log2 x = get_or mul_de_bruijn_bit_table (u32 (smear_word x * 0x07C4ACDD) >>> 27) 0

unfoldable pub type : ChunkHeader → ChunkType
type h = to_type (bit_and h.b0 0x03)

-- The number that both header bytes spell, `(header[1] << 3) | ((header[0] >> 5) & 0x07)`.
unfoldable pub number_invalid_bytes : ChunkHeader → ℕ
number_invalid_bytes h = bit_or (h.b1 <<< 3) (bit_and (h.b0 >>> 5) 0x07)

unfoldable pub chunk_size : ChunkHeader → ℕ
chunk_size h = 1 <<< (bit_and (h.b0 >>> 2) 0x07 + 5)

unfoldable pub number_valid_bytes : ChunkHeader → ℕ
number_valid_bytes h =
    sub32 (sub32 (chunk_size h) (number_invalid_bytes h)) minimum_chunk_header_size_bytes

unfoldable pub set_crc : ℕ → ChunkHeader → ChunkHeader
set_crc crc h = record h { b2 = u8 crc; b3 = u8 (crc >>> 8) }

unfoldable pub crc : ChunkHeader → ℕ
crc h = bit_or (h.b3 <<< 8) h.b2

-- `32 * index` is a product of 32-bit words: it wraps before it is widened.
unfoldable pub to_position : ℕ → ℕ
to_position index = u32 (32 * index)

unfoldable pub to_file_index : ℕ → ℕ
to_file_index position = u32 (position / 32)

-- `none` is an argument above 7, which the code asserts not to get.
unfoldable pub to_chunk_size : ℕ → Option ℕ
to_chunk_size chunk_p2 = if leb chunk_p2 7 then some (1 <<< (chunk_p2 + 5)) else none

-- The common end of the two roundings: `chunkP2` is a byte.
abbrev pub reduce_p2 : ℕ → ℕ
reduce_p2 p2 = if leb p2 5 then 0 else u8 (sub32 p2 5)

unfoldable pub to_closest_smaller_chunk_p2 : ℕ → ℕ
to_closest_smaller_chunk_p2 space_maximum = reduce_p2 (u8 (log2 (u32 space_maximum)))

-- `spaceMinimum - 1` is a 64-bit subtraction, cut to 32 bits by the call.
unfoldable pub to_closest_larger_chunk_p2 : ℕ → ℕ
to_closest_larger_chunk_p2 space_minimum = reduce_p2 (u8 (log2 (sub32 space_minimum 1) + 1))

abbrev pub full_header_size_bytes : ChunkHeader → ℕ
full_header_size_bytes h = u16 (length h.additional + minimum_chunk_header_size_bytes)

abbrev pub additional_header_size_bytes : ChunkHeader → ℕ
additional_header_size_bytes h = sub32 (full_header_size_bytes h) minimum_chunk_header_size_bytes

abbrev pub additional_available_space : ChunkHeader → ℕ
additional_available_space h = sub32 (chunk_size h) (full_header_size_bytes h)

unfoldable pub set_type : ChunkType → ChunkHeader → ChunkHeader
set_type t h = record h { b0 = bit_or (bit_and h.b0 0xFC) (bit_and (type_code t) 0x03) }

-- `maximumPayloadSize` of `setNumberValidBytes`.
unfoldable pub maximum_payload_size : Bool → ChunkHeader → ℕ
maximum_payload_size can_grow h =
    if can_grow
    then sub32 maximum_chunk_size minimum_chunk_header_size_bytes
    else sub32 (chunk_size h) minimum_chunk_header_size_bytes

-- `requiredBits` for a payload of `count` bytes, no less than 5.
unfoldable pub required_bits : ℕ → ℕ
required_bits count =
    let bits = log2 (sub32 (add32 count minimum_chunk_header_size_bytes) 1) + 1 in
    if ltb bits 5 then 5 else bits

-- The 16 bits that `setNumberValidBytes` stores into `header[0]` and `header[1]`.
unfoldable pub header_word : ℕ → ℕ → ℕ → ℕ
header_word type_code bits invalid =
    u16 (bit_or (bit_or type_code (sub32 bits 5 <<< 2)) (invalid <<< 5))

-- The lines of `setNumberValidBytes` that write the two bytes, for the count after its clamp.
unfoldable pub write_valid_count : ℕ → ChunkHeader → ChunkHeader
write_valid_count count h =
    let bits = required_bits count in
    let new_chunk_size = 1 <<< bits in
    let invalid = sub32 (sub32 new_chunk_size count) minimum_chunk_header_size_bytes in
    let hdr = header_word (bit_and h.b0 0x03) bits invalid in
    record h { b0 = u8 hdr; b1 = u8 (hdr >>> 8) }

-- The new header, the bytes that it can hold, and `*chunkSizeChanged`.
unfoldable pub set_number_valid_bytes : ℕ → Bool → ChunkHeader → ChunkHeader × ℕ × Bool
set_number_valid_bytes new_valid_byte_count can_grow h =
    let maximum = maximum_payload_size can_grow h in
    let count = if ltb maximum new_valid_byte_count then maximum else new_valid_byte_count in
    (write_valid_count count h, count, not ((1 <<< required_bits count) == chunk_size h))

-- `ChunkHeader(additionalChunkHeaderSizeBytes)`. The array is allocated and not cleared: `raw` is
-- what its additional part holds.
unfoldable pub new_chunk_header : List ℕ → ChunkHeader
new_chunk_header raw =
    (set_number_valid_bytes (length raw) true
      (record { b0 = 0x80; b1 = 0x03; b2 = 0x00; b3 = 0x00; additional = raw })).0

-- `requiredBits` of `setBestFitSize`, and the chunk size and the power of two that it settles.
unfoldable pub best_fit_bits : ℕ → ℕ
best_fit_bits available_space = let bits = log2 available_space in if ltb 12 bits then 12 else bits

unfoldable pub set_best_fit_size : ℕ → ChunkHeader → ChunkHeader × ℕ
set_best_fit_size available_space h =
    if ltb available_space minimum_chunk_size
    then (record h { b0 = u8 (bit_or (bit_and h.b0 0xE3) (0 <<< 2)) }, 0)
    else (
      record h {
        b0 = u8 (bit_or (bit_and h.b0 0xE3) (sub32 (best_fit_bits available_space) 5 <<< 2));
      },
      1 <<< best_fit_bits available_space,
    )

unfoldable pub set_all_bytes_valid : ChunkHeader → ChunkHeader
set_all_bytes_valid h = record h { b0 = bit_and h.b0 0x1F; b1 = 0 }

-- `ChunkHeader::calculateCrc` over the bytes from `data` on.
unfoldable pub calculate_crc : ℕ → List ℕ → ℕ
unfolding crc_table
calculate_crc current [] = current
calculate_crc current (d ∷ ds) =
    calculate_crc (u16 (bit_xor (bit_or (current <<< 8) d) (get_or crc_table (current >>> 8) 0))) ds

unfoldable pub initialize_crc : ChunkHeader → ℕ
initialize_crc h = calculate_crc (bit_or (h.b1 <<< 8) h.b0) h.additional

-- `Chunk::updateCrc` and `Chunk::checkCrc` in chunk.cpp.
unfoldable pub update_crc : ChunkHeader → ChunkHeader
unfolding set_crc initialize_crc
update_crc h = set_crc (initialize_crc h) h

unfoldable pub check_crc : ChunkHeader → Bool
unfolding crc initialize_crc
check_crc h = crc h == initialize_crc h

-- `FillChunk` in fill_chunk.cpp: its constructor over free space, and its `setBestFitSize`.
unfoldable pub new_fill_chunk : ℕ → ChunkHeader
new_fill_chunk available_space =
    set_all_bytes_valid
      (set_best_fit_size available_space (set_type fill_chunk (new_chunk_header []))).0

-- Every byte of the array is a byte.
pub record IsBytes (h : ChunkHeader) : Type 0 where
  pub byte0 : h.b0 < 256
  pub byte1 : h.b1 < 256
  pub byte2 : h.b2 < 256
  pub byte3 : h.b3 < 256
