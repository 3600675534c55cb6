-- ===== src/VirtualFile/Append.antt =====
-- `VirtualFileImpl::append` and `writeStreamStartIfNeeded` of inecontainer/source/virtual_file_impl.cpp.
-- The loop runs on fuel.
use inecontainer.Prelude.{
  map_option, ℕ, zero, suc, ◌+◌, not, Option, none, some, List, ltb, leb, ◌==◌, if◌then◌else◌,
  length, drop,
}
use inecontainer.Prelude.Words.{add32}
use inecontainer.Status.{Status, no_status, write_successful, container_unavailable, to_bool}
use inecontainer.Area.{FreeSpace, reduce_by, from_front}
use inecontainer.Header.{
  chunk_size, invalid_file_index, minimum_chunk_size, maximum_chunk_size, to_position,
  to_file_index,
}
use inecontainer.Stream.{chunk_offset}
use inecontainer.Ring.{
  RingBuffer, segment, empty, available, bulk_extraction_start, bulk_extraction_finish, store_bytes,
}
use inecontainer.ChunkMap.{current_stored_size, last_known_file_index, add_chunk_location}
use inecontainer.StartChunk.{new_start_chunk}
use inecontainer.DataChunk.{
  DataChunk, new_data_chunk, set_chunk_size, add_scatter_gather_list_segment,
  scatter_gather_list_segment,
}
use inecontainer.VirtualFile.{ChunkStore, VirtualFile, tail_buffer_size, size_word, size, report}

-- `reduceBy` on the area of a reservation.
abbrev pub reduce_reservation : ℕ → FreeSpace → FreeSpace
reduce_reservation amount r = record r { area = (reduce_by amount from_front r.area).0 }

abbrev pub with_segment : List ℕ → DataChunk → DataChunk
with_segment buffer c = (add_scatter_gather_list_segment buffer c).0

-- The segments of the tail buffer, as `bulkExtractionStart` hands them out, and how many.
unfoldable pub add_tail_segments : RingBuffer ℕ → DataChunk → DataChunk × ℕ
unfolding empty bulk_extraction_start add_scatter_gather_list_segment
add_tail_segments tail c =
    let (p, total) = bulk_extraction_start tail_buffer_size 0 tail in
    let first = with_segment (segment p.p1 p.l1 tail.buffer) c in
    if empty tail_buffer_size 0 tail
    then (c, 0)
    else if p.l2 == 0
    then (first, 1)
    else (with_segment (segment p.p2 p.l2 tail.buffer) first, 2)

-- The sum of the processed counts of the first segments.
unfoldable pub processed_before : ℕ → DataChunk → ℕ
unfolding scatter_gather_list_segment
processed_before zero c = 0
processed_before (suc n) c =
    add32 (processed_before n c) (scatter_gather_list_segment n c).processed_count

-- The chunk that a turn of the loop builds for a reservation, and how many segments are the tail's.
unfoldable pub append_chunk : FreeSpace → List ℕ → VirtualFile → DataChunk × ℕ
unfolding new_data_chunk set_chunk_size add_tail_segments
append_chunk reserved buffer f =
    let c =
      (set_chunk_size (to_position reserved.area.area_size) (
        new_data_chunk reserved.area.starting_index f.current_stream_identifier
          (current_stored_size f.chunk_map))).0 in
    let (c', local) = add_tail_segments f.tail_buffer c in (with_segment buffer c', local)

-- What a turn does after a chunk was saved without an error: the file, and the bytes that are left.
unfoldable pub take_written : DataChunk → ℕ → List ℕ → VirtualFile → VirtualFile × List ℕ
unfolding processed_before scatter_gather_list_segment bulk_extraction_finish add_chunk_location
take_written saved local buffer f =
    let from_tail = processed_before local saved in
    let from_call = (scatter_gather_list_segment local saved).processed_count in
    (
      record f {
        tail_buffer = (bulk_extraction_finish tail_buffer_size 0 from_tail f.tail_buffer).0;
        chunk_map =
            add_chunk_location saved.chunk.file_index (chunk_offset saved.chunk.header)
              (add32 from_tail from_call) f.chunk_map;
      },
      drop from_call buffer,
    )

unfoldable pub append_fuel : List ℕ → VirtualFile → ℕ
append_fuel buffer f = f.tail_buffer.entry_count + length buffer + 1

module _ {S : Type 0} (store : ChunkStore S) where
  -- The start chunk is built over memory that holds `raw`. `none` is an invalid access: of a container
  -- that is not there, or behind the header, where the name is too long.
  unfoldable pub write_stream_start_if_needed :
      List ℕ → VirtualFile → S → Option (VirtualFile × S × Status)
  unfolding new_start_chunk to_bool
  write_stream_start_if_needed raw f s =
      if not (f.start_chunk_index == invalid_file_index)
      then some (f, s, no_status)
      else if not f.available
      then none
      else elim (new_start_chunk 0 f.current_name f.current_stream_identifier raw) [
        | none ↦ none
        | some c ↦
            let (s', reserved) =
              store.reserve_free_space_area 0 (to_file_index (chunk_size c.header)) 0 s in
            let (c', s'', status) =
              store.save_start (record c { file_index = reserved.area.starting_index }) s' in
            if to_bool status
            then some (f, s'', status)
            else some (
              record f { start_chunk_index = c'.file_index },
              store.release_reservation
                  (reduce_reservation (to_file_index (chunk_size c'.header)) reserved) s'',
              status,
            )
      ]

  -- The end of the loop is the end of a turn that fails, or a buffer that the tail has room for.
  unfoldable pub append_loop :
      ℕ → List ℕ → VirtualFile → S → Option (VirtualFile × List ℕ × S × Status)
  unfolding append_chunk take_written to_bool available
  append_loop zero buffer f s = none
  append_loop (suc fuel) buffer f s =
      let (s', reserved) =
        store.reserve_free_space_area (last_known_file_index f.start_chunk_index f.chunk_map)
          (to_file_index minimum_chunk_size) (to_file_index maximum_chunk_size) s in
      let (c, local) = append_chunk reserved buffer f in
      let (c', s'', status) = store.save_data c s' in
      let (f', buffer') = take_written c' local buffer f in
      let rest = append_loop fuel buffer' f' (
        store.release_reservation
          (reduce_reservation (to_file_index (chunk_size c'.chunk.header)) reserved) s'') in
      if leb (available tail_buffer_size 0 f.tail_buffer) (length buffer)
      then if to_bool status then some (f, buffer, s'', status) else rest
      else some (f, buffer, s, no_status)

  -- What is left goes into the tail buffer.
  unfoldable pub append_rest : ℕ → VirtualFile × List ℕ × S × Status → VirtualFile × S × Status
  unfolding store_bytes to_bool size
  append_rest desired_count (f, buffer, s, status) =
      let f' =
        if ltb 0 (length buffer)
        then record f { tail_buffer = (store_bytes tail_buffer_size 0 buffer f.tail_buffer).0 }
        else f in
      if to_bool status
      then report store f s status
      else report store (record f' { current_position = size_word f' }) s
          (write_successful desired_count)

  unfoldable pub append : List ℕ → List ℕ → VirtualFile → S → Option (VirtualFile × S × Status)
  unfolding write_stream_start_if_needed append_loop append_rest append_fuel to_bool
  append raw buffer f s = elim (write_stream_start_if_needed raw f s) [
    | none ↦ none
    | some (f', s', status) ↦
        if to_bool status
        then some (report store f' s' status)
        else if not f'.available
        then some (f', s', container_unavailable)
        else map_option (append_rest (length buffer))
            (append_loop (append_fuel buffer f') buffer f' s')
  ]
