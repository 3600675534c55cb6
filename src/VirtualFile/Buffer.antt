-- ===== src/VirtualFile/Buffer.antt =====
-- The chunk buffer of a virtual file, in inecontainer/source/virtual_file_impl.cpp: `flushChunkBuffer`,
-- `loadChunkIntoBuffer`, and what `read` and `write` do in common to find the chunk of a position.
-- `none` is a use of `end()` or of a null buffer.
use inecontainer.Prelude.{
  ℕ, Bool, true, false, not, ◌&&◌, Option, none, some, List, ◌==◌, if◌then◌else◌, take,
}
use inecontainer.Status.{
  Status, no_status, stream_identifier_mismatch, offset_mismatch, payload_size_mismatch, to_bool,
}
use inecontainer.Header.{maximum_chunk_size, to_position}
use inecontainer.Stream.{stream_identifier, chunk_offset}
use inecontainer.ChunkMap.{MapEntry, chunk_at, needs_other_chunk}
use inecontainer.Chunk.{overlay}
use inecontainer.DataChunk.{DataChunk, new_data_chunk, set_chunk_size, scatter_gather_list_segment}
use inecontainer.VirtualFile.{ChunkStore, VirtualFile, entry_at, entry_of}
use inecontainer.VirtualFile.Append.{with_segment}

-- `StreamDataChunk` over the place of an entry of the chunk map.
abbrev pub chunk_for : MapEntry → VirtualFile → DataChunk
chunk_for c f = new_data_chunk c.second.starting_index f.current_stream_identifier c.first

abbrev pub large_chunk_for : MapEntry → VirtualFile → DataChunk
large_chunk_for c f = (set_chunk_size maximum_chunk_size (chunk_for c f)).0

-- `if (!status && failing) status = error`.
abbrev pub check : Status → Bool → Status → Status
check status failing error = if not (to_bool status) && failing then error else status

-- The two checks that follow a load: `f` is the file, `offset` what the chunk must say.
unfoldable pub check_chunk : ℕ → DataChunk → VirtualFile → Status → Status
unfolding to_bool
check_chunk offset chunk f status =
    let h = chunk.chunk.header in
    let at = to_position chunk.chunk.file_index in
    check
      (check status (not (stream_identifier h == f.current_stream_identifier))
        (stream_identifier_mismatch (stream_identifier h) f.current_stream_identifier at))
      (not (chunk_offset h == offset)) (offset_mismatch (chunk_offset h) offset at)

-- The chunk buffer, which is made when it is first needed over memory that holds `raw`.
abbrev pub buffer_or : List ℕ → Option (List ℕ) → List ℕ
buffer_or raw none = raw
buffer_or raw (some buffer) = buffer

module _ {S : Type 0} (store : ChunkStore S) where
  unfoldable pub flush_chunk_buffer : VirtualFile → S → Option (VirtualFile × S × Status)
  unfolding entry_at new_data_chunk set_chunk_size to_bool
  flush_chunk_buffer f s = elim (entry_of f.current_chunk f.chunk_map) [
    | none ↦ none
    | some c ↦ elim f.chunk_buffer [
      | none ↦ none
      | some buffer ↦
          let chunk = with_segment (take c.second.payload_size buffer) (large_chunk_for c f) in
          let (c', s', status) = store.save_data chunk s in
          some (
            if to_bool status then f else record f { chunk_buffer_flush_needed = false },
            s',
            status,
          )
    ]
  ]

  unfoldable pub load_chunk_into_buffer :
      List ℕ → VirtualFile → S → Option (VirtualFile × S × Status)
  unfolding entry_at new_data_chunk set_chunk_size check_chunk scatter_gather_list_segment to_bool
  load_chunk_into_buffer raw f s = elim (entry_of f.current_chunk f.chunk_map) [
    | none ↦ none
    | some c ↦
        let buffer = buffer_or raw f.chunk_buffer in
        let chunk = with_segment (take c.second.payload_size buffer) (large_chunk_for c f) in
        let (chunk', s', status) = store.load_data true chunk s in
        let it = scatter_gather_list_segment 0 chunk' in
        some (
          record f { chunk_buffer = some (overlay it.base buffer) },
          s',
          check (check_chunk c.first chunk' f status)
              (not (it.processed_count == c.second.payload_size))
              (payload_size_mismatch it.processed_count c.second.payload_size
                (to_position chunk'.chunk.file_index)),
        )
  ]

  -- Whether the chunk of the position is in the chunk buffer already; if it is not, the buffer is
  -- flushed and `currentChunk` set.
  unfoldable pub find_chunk : VirtualFile → S → Option (Bool × VirtualFile × S × Status)
  unfolding needs_other_chunk entry_at flush_chunk_buffer chunk_at to_bool
  find_chunk f s =
      if needs_other_chunk f.current_position (entry_of f.current_chunk f.chunk_map)
      then elim (if f.chunk_buffer_flush_needed
          then flush_chunk_buffer f s
          else some (f, s, no_status)) [
            | none ↦ none
            | some (f', s', status) ↦
                if to_bool status
                then some (false, f', s', status)
                else elim (chunk_at f'.current_position f'.chunk_map) [
                  | none ↦ none
                  | some c ↦ some (false, record f' { current_chunk = some c.first }, s', no_status)
                ]
          ]
      else some (true, f, s, no_status)
