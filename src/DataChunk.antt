-- ===== src/DataChunk.antt =====
-- inecontainer/source/stream_data_chunk.cpp: a data chunk with its scatter-gather list, built, saved,
-- loaded and checked. Its additional header is the identifier's four bytes and the offset's six.
pub mod Build
mod Tests
use inecontainer.Prelude.{
  ℕ, ◌+◌, Bool, true, false, not, ◌&&◌, List, [], ◌∷◌, ltb, ◌==◌, if◌then◌else◌, length, take,
  replicate, get_or, Option, none, some,
}
use inecontainer.Prelude.Words.{add32, sub32}
use inecontainer.Status.{Status, no_status, to_bool}
use inecontainer.Header.{
  ChunkHeader, stream_data_chunk, set_type, new_chunk_header, set_best_fit_size,
  set_number_valid_bytes, additional_header_size_bytes, additional_available_space, set_crc, crc,
  initialize_crc, calculate_crc,
}
use inecontainer.Stream.{set_last, set_stream_identifier, set_chunk_offset, payload_size}
use inecontainer.Gather.{
  Segment, GatherList, clear_scatter_gather_list, add_segment, bytes_to_write, save_segments,
}
use inecontainer.Chunk.{Device, World, Chunk, overlay, read_bytes, load, save, write_tail}

pub record DataChunk : Type 0 where
  pub chunk : Chunk
  pub gather : GatherList

-- `StreamChunk` over an array that is not cleared, and then `StreamDataChunk`: every byte of the
-- array is written, so that zeros stand for what it held.
unfoldable pub new_stream_header : ℕ → List ℕ → ChunkHeader
new_stream_header stream_identifier raw =
    set_stream_identifier stream_identifier (set_last false (new_chunk_header raw))

unfoldable pub new_data_chunk : ℕ → ℕ → ℕ → DataChunk
unfolding new_stream_header
new_data_chunk file_index stream_identifier chunk_offset = record {
  chunk = record {
    header =
        set_chunk_offset chunk_offset
          (set_type stream_data_chunk (new_stream_header stream_identifier (replicate 10 0)));
    file_index = file_index;
  };
  gather = clear_scatter_gather_list;
}

-- The constructor over a common header that was read: four bytes of the additional header are
-- cleared, and `raw` is what the other six hold.
unfoldable pub data_chunk_of : ℕ → ChunkHeader → List ℕ → DataChunk
data_chunk_of file_index common_header raw = record {
  chunk = record {
    header = record common_header { additional = 0 ∷ 0 ∷ 0 ∷ 0 ∷ raw };
    file_index = file_index;
  };
  gather = clear_scatter_gather_list;
}

abbrev pub with_header : ChunkHeader → DataChunk → DataChunk
with_header h c = record c { chunk = record c.chunk { header = h } }

unfoldable pub set_chunk_size : ℕ → DataChunk → DataChunk × ℕ
set_chunk_size new_chunk_size c =
    let (h, size) = set_best_fit_size new_chunk_size c.chunk.header in (with_header h c, size)

-- `addScatterGatherListSegment(buffer, bufferLength)`.
unfoldable pub add_scatter_gather_list_segment : List ℕ → DataChunk → DataChunk × ℕ
unfolding add_segment
add_scatter_gather_list_segment buffer c =
    let (g, expected) =
      add_segment (additional_available_space c.chunk.header)
        (record { base = buffer; processed_count = 0 }) c.gather in
    (record c { gather = g }, expected)

unfoldable pub scatter_gather_list_size : DataChunk → ℕ
scatter_gather_list_size c = length c.gather.segments

-- `scatterGatherListSegment`, with an empty segment for an index that is out of range.
unfoldable pub scatter_gather_list_segment : ℕ → DataChunk → Segment
scatter_gather_list_segment index c =
    get_or c.gather.segments index (record { base = []; processed_count = 0 })

-- The loop of both CRC methods, over the segments.
unfoldable pub segments_crc : ℕ → ℕ → List Segment → ℕ
unfolding calculate_crc
segments_crc current_crc remaining [] = current_crc
segments_crc current_crc remaining (it ∷ segments) =
    let n = bytes_to_write remaining it in
    let rest =
      segments_crc (calculate_crc current_crc (take n it.base)) (sub32 remaining n) segments in
    if remaining == 0 then current_crc else rest

unfoldable pub data_crc : List Segment → ChunkHeader → ℕ
unfolding segments_crc
data_crc segments h = segments_crc (initialize_crc h) (additional_available_space h) segments

unfoldable pub check_data_crc : DataChunk → Bool
unfolding data_crc
check_data_crc c = data_crc c.gather.segments c.chunk.header == crc c.chunk.header

unfoldable pub update_data_crc : List Segment → ChunkHeader → ChunkHeader
unfolding data_crc
update_data_crc segments h = set_crc (data_crc segments h) h

-- How much payload `save` writes.
unfoldable pub saved_payload : DataChunk → ℕ
saved_payload c =
    if ltb c.gather.byte_count (additional_available_space c.chunk.header)
    then c.gather.byte_count
    else additional_available_space c.chunk.header

-- The header that `save` right-sizes for its payload.
unfoldable pub right_size : DataChunk → ChunkHeader
unfolding saved_payload
right_size c =
    (set_number_valid_bytes (add32 (saved_payload c) (additional_header_size_bytes c.chunk.header))
      false c.chunk.header).0

module _ {S : Type 0} (dev : Device S) where
  -- One turn of the loop of `load`: the segment with what was read into it.
  unfoldable pub load_segment : ℕ → Segment → World S → Segment × World S × Status
  unfolding read_bytes to_bool
  load_segment n it w =
      let (w', bytes, status) = read_bytes dev n w in
      let base = overlay bytes it.base in
      if to_bool status
      then (record it { base = base }, w', status)
      else (record { base = base; processed_count = n }, w', no_status)

  unfoldable pub load_segments : ℕ → List Segment → World S → List Segment × World S × Status
  unfolding load_segment
  load_segments remaining [] w = ([], w, no_status)
  load_segments remaining (it ∷ segments) w =
      let n = bytes_to_write remaining it in
      let (it', w', status) = load_segment n it w in
      let (segments', w'', status') = load_segments (sub32 remaining n) segments w' in
      if remaining == 0
      then (it ∷ segments, w, no_status)
      else if to_bool status
      then (it' ∷ segments, w', status)
      else (it' ∷ segments', w'', status')

  unfoldable pub load_data : Bool → DataChunk → World S → DataChunk × World S × Status
  unfolding load_segments to_bool
  load_data include_common_header c w =
      let (chunk, w', status) = load dev include_common_header c.chunk w in
      let (segments, w'', status') =
        load_segments (payload_size chunk.header) c.gather.segments w' in
      if to_bool status then (record c { chunk = chunk }, w', status) else (
        record { chunk = chunk; gather = record c.gather { segments = segments } },
        w'',
        status',
      )

  unfoldable pub save_data : Bool → DataChunk → World S → DataChunk × World S × Status
  unfolding right_size save write_tail to_bool
  save_data pad_to_chunk_size c w =
      let (chunk, w', status) =
        save dev (update_data_crc c.gather.segments) false
          (record c.chunk { header = right_size c }) w in
      let (segments, s, status') =
        save_segments dev.write (saved_payload c) c.gather.segments w'.device in
      let w'' : World S = record w' { device = s } in
      let c' : DataChunk = record {
        chunk = chunk;
        gather = record c.gather { segments = segments };
      } in
      if to_bool status
      then (record c { chunk = chunk }, w', status)
      else if to_bool status'
      then (c', w'', status')
      else if pad_to_chunk_size
      then (let (w3, status3) = write_tail dev 0 chunk w'' in (c', w3, status3))
      else (c', w'', status')
