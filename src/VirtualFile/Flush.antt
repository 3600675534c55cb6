-- ===== src/VirtualFile/Flush.antt =====
-- `VirtualFileImpl::flush` of inecontainer/source/virtual_file_impl.cpp. The loop runs on fuel.
use inecontainer.Prelude.{ℕ, zero, suc, ◌+◌, not, Option, none, some, List, if◌then◌else◌}
use inecontainer.Status.{Status, no_status, container_unavailable, to_bool}
use inecontainer.Area.{FreeSpace}
use inecontainer.Header.{
  chunk_size, minimum_chunk_size, maximum_chunk_size, to_position, to_file_index,
}
use inecontainer.Stream.{chunk_offset}
use inecontainer.Ring.{segment, empty, bulk_extraction_start, bulk_extraction_finish}
use inecontainer.ChunkMap.{current_stored_size, last_known_file_index, add_chunk_location}
use inecontainer.DataChunk.{DataChunk, new_data_chunk, set_chunk_size, scatter_gather_list_size}
use inecontainer.VirtualFile.{ChunkStore, VirtualFile, tail_buffer_size, report}
use inecontainer.VirtualFile.Append.{
  reduce_reservation, with_segment, processed_before, write_stream_start_if_needed,
}
use inecontainer.VirtualFile.Buffer.{flush_chunk_buffer}

-- A segment for each pointer that is not null: the first is none only for an empty tail.
abbrev pub with_run : Option ℕ → ℕ → List ℕ → DataChunk → DataChunk
with_run none l buffer c = c
with_run (some p) l buffer c = with_segment (segment (some p) l buffer) c

unfoldable pub flush_chunk : FreeSpace → VirtualFile → DataChunk
unfolding new_data_chunk set_chunk_size bulk_extraction_start
flush_chunk reserved f =
    let c =
      (set_chunk_size (to_position reserved.area.area_size) (
        new_data_chunk reserved.area.starting_index f.current_stream_identifier
          (current_stored_size f.chunk_map))).0 in
    let p = (bulk_extraction_start tail_buffer_size 0 f.tail_buffer).0 in
    with_run p.p2 p.l2 f.tail_buffer.buffer
      (with_segment (segment p.p1 p.l1 f.tail_buffer.buffer) c)

-- What a turn does after a chunk was saved without an error.
unfoldable pub take_flushed : DataChunk → VirtualFile → VirtualFile
unfolding processed_before scatter_gather_list_size bulk_extraction_finish add_chunk_location
take_flushed saved f =
    let n = processed_before (scatter_gather_list_size saved) saved in
    record f {
      tail_buffer = (bulk_extraction_finish tail_buffer_size 0 n f.tail_buffer).0;
      chunk_map =
          add_chunk_location saved.chunk.file_index (chunk_offset saved.chunk.header) n f.chunk_map;
    }

module _ {S : Type 0} (store : ChunkStore S) where
  unfoldable pub flush_loop : ℕ → VirtualFile → S → Option (VirtualFile × S × Status)
  unfolding flush_chunk take_flushed to_bool empty
  flush_loop zero f s = none
  flush_loop (suc fuel) f s =
      let (s', reserved) =
        store.reserve_free_space_area (last_known_file_index f.start_chunk_index f.chunk_map)
          (to_file_index minimum_chunk_size) (to_file_index maximum_chunk_size) s in
      let (c', s'', status) = store.save_data (flush_chunk reserved f) s' in
      let rest = flush_loop fuel (take_flushed c' f) (
        store.release_reservation
          (reduce_reservation (to_file_index (chunk_size c'.chunk.header)) reserved) s'') in
      if empty tail_buffer_size 0 f.tail_buffer
      then some (f, s, no_status)
      else if to_bool status
      then some (f, s'', status)
      else rest

  -- What happens once the start chunk is there.
  unfoldable pub flush_data : VirtualFile → S → Option (VirtualFile × S × Status)
  unfolding flush_chunk_buffer flush_loop to_bool
  flush_data f s =
      elim (if f.chunk_buffer_flush_needed
        then flush_chunk_buffer store f s
        else some (f, s, no_status)) [
          | none ↦ none
          | some (f', s', status) ↦
              if to_bool status
              then some (f', s', status)
              else flush_loop (f'.tail_buffer.entry_count + 1) f' s'
        ]

  unfoldable pub flush : List ℕ → VirtualFile → S → Option (VirtualFile × S × Status)
  unfolding write_stream_start_if_needed flush_data to_bool
  flush raw f s = elim (write_stream_start_if_needed store raw f s) [
    | none ↦ none
    | some (f', s', status) ↦
        if to_bool status
        then some (report store f' s' status)
        else if not f'.available
        then some (f', s', container_unavailable)
        else elim (flush_data f' s') [
          | none ↦ none
          | some (f'', s'', status') ↦ some (report store f'' s'' status')
        ]
  ]
