-- ===== src/VirtualFile/Write.antt =====
-- `VirtualFileImpl::write` of inecontainer/source/virtual_file_impl.cpp. The loop runs on fuel, and
-- `bufferSegment` with `remainingInBuffer` is the list of the bytes that are left.
use inecontainer.Prelude.{
  ℕ, zero, suc, ◌+◌, Bool, true, false, ◌&&◌, Option, none, some, List, [], ◌∷◌, ltb, leb, ◌==◌,
  if◌then◌else◌, length, take, drop,
}
use inecontainer.Prelude.Words.{u32, sub32, add64, sub64}
use inecontainer.Status.{Status, no_status, container_unavailable, write_successful, to_bool}
use inecontainer.Ring.{RingBuffer, clear, snoop_set, write_at}
use inecontainer.ChunkMap.{MapEntry, current_stored_size}
use inecontainer.Gather.{wrote_all}
use inecontainer.DataChunk.{DataChunk, new_data_chunk, set_chunk_size}
use inecontainer.VirtualFile.{ChunkStore, VirtualFile, tail_buffer_size, entry_at, entry_of, report}
use inecontainer.VirtualFile.Append.{with_segment, append}
use inecontainer.VirtualFile.Buffer.{large_chunk_for, buffer_or, load_chunk_into_buffer, find_chunk}
use inecontainer.VirtualFile.Read.{smaller}

-- What a turn of the loop leaves, and `bytesOfNewData`.
pub record Turn (S : Type 0) : Type 0 where
  pub file : VirtualFile
  pub new_count : ℕ
  pub state : S
  pub status : Status

-- The writes through `snoop`.
unfoldable pub snoop_write : ℕ → List ℕ → RingBuffer ℕ → RingBuffer ℕ
unfolding snoop_set
snoop_write offset [] tail = tail
snoop_write offset (x ∷ xs) tail =
    snoop_write (offset + 1) xs (snoop_set tail_buffer_size 0 offset x tail)

-- The part of a write that falls into the tail buffer: a tail that would be replaced as a whole is
-- cleared, for the append that follows.
unfoldable pub write_tail_buffer : ℕ → List ℕ → VirtualFile → VirtualFile × List ℕ
unfolding clear snoop_write
write_tail_buffer base buffer f =
    let offset = u32 (sub64 f.current_position base) in
    let n = smaller (length buffer) (sub32 f.tail_buffer.entry_count offset) in
    if (f.current_position == base) && leb f.tail_buffer.entry_count (length buffer)
    then (record f { tail_buffer = clear tail_buffer_size 0 f.tail_buffer }, buffer)
    else (
      record f {
        tail_buffer = snoop_write offset (take n buffer) f.tail_buffer;
        current_position = add64 f.current_position n;
      },
      drop n buffer,
    )

module _ {S : Type 0} (store : ChunkStore S) where
  -- The chunk of a turn that ends behind it: the loaded front and the new data. The segments are left
  -- out where the load before has failed.
  unfoldable pub evicted_chunk : MapEntry → List ℕ → VirtualFile → Status → DataChunk × ℕ
  unfolding new_data_chunk set_chunk_size to_bool
  evicted_chunk c buffer f status =
      let ending = add64 c.first c.second.payload_size in
      let chunk = large_chunk_for c f in
      let n = u32 (sub64 ending f.current_position) in
      let front = take (u32 (sub64 f.current_position c.first)) (buffer_or [] f.chunk_buffer) in
      if f.current_position == c.first
      then (with_segment (take c.second.payload_size buffer) chunk, c.second.payload_size)
      else if to_bool status
      then (chunk, 0)
      else (with_segment (take n buffer) (with_segment front chunk), n)

  -- The save sets the status whatever the load before it has reported.
  unfoldable pub save_evicted : MapEntry → List ℕ → VirtualFile → S → Status → Turn S
  unfolding evicted_chunk
  save_evicted c buffer f s status =
      let (chunk, n) = evicted_chunk c buffer f status in
      let (chunk', s', status') = store.save_data chunk s in
      record {
        file = record f { current_chunk = none; chunk_buffer_flush_needed = false };
        new_count = n;
        state = s';
        status = status';
      }

  -- The new data go into the chunk buffer.
  unfoldable pub write_buffered : MapEntry → List ℕ → VirtualFile → S → Status → Turn S
  unfolding to_bool
  write_buffered c buffer f s status =
      let at = sub64 f.current_position c.first in
      record {
        file = if to_bool status then f else record f {
          chunk_buffer = some (write_at at buffer (buffer_or [] f.chunk_buffer));
          chunk_buffer_flush_needed = true;
        };
        new_count = length buffer;
        state = s;
        status = status;
      }

  -- A turn once its chunk is known: the chunk is loaded unless it is there, or replaced as a whole.
  unfoldable pub write_chunk :
      MapEntry → Bool → List ℕ → ℕ → List ℕ → VirtualFile → S → Option (Turn S)
  unfolding load_chunk_into_buffer save_evicted write_buffered
  write_chunk c chunk_loaded raw write_end buffer f s =
      let evicted = ltb (add64 c.first c.second.payload_size) write_end in
      elim (if chunk_loaded
        then some (f, s, no_status)
        else if evicted && (f.current_position == c.first)
        then some (f, s, no_status)
        else load_chunk_into_buffer store raw f s) [
          | none ↦ none
          | some (f', s', status) ↦
              if evicted
              then some (save_evicted c buffer f' s' status)
              else some (write_buffered c buffer f' s' status)
        ]

  unfoldable pub write_turn : List ℕ → ℕ → List ℕ → VirtualFile → S → Option (Turn S)
  unfolding find_chunk entry_at write_chunk to_bool
  write_turn raw write_end buffer f s = elim (find_chunk store f s) [
    | none ↦ none
    | some (chunk_loaded, f', s', status) ↦
        if to_bool status
        then some (record { file = f'; new_count = 0; state = s'; status = status })
        else elim (entry_of f'.current_chunk f'.chunk_map) [
          | none ↦ none
          | some c ↦ write_chunk c chunk_loaded raw write_end buffer f' s'
        ]
  ]

  unfoldable pub write_loop :
      ℕ → List ℕ → ℕ → List ℕ → VirtualFile → S → Option (VirtualFile × List ℕ × S × Status)
  unfolding write_turn to_bool
  write_loop zero raw write_end buffer f s = none
  write_loop (suc fuel) raw write_end buffer f s =
      if ltb 0 (length buffer) && ltb f.current_position (current_stored_size f.chunk_map)
      then elim (write_turn raw write_end buffer f s) [
        | none ↦ none
        | some t ↦
            if to_bool t.status
            then some (t.file, buffer, t.state, t.status)
            else write_loop fuel raw write_end (drop t.new_count buffer)
                (record t.file { current_position = add64 t.file.current_position t.new_count })
                t.state
      ]
      else some (f, buffer, s, no_status)

  -- What is left behind the tail buffer is appended, over a start chunk in memory that holds `name`.
  unfoldable pub write_rest :
      List ℕ → VirtualFile × List ℕ × S × Status → Option (VirtualFile × S × Status)
  unfolding write_tail_buffer append wrote_all to_bool
  write_rest name (f, buffer, s, status) =
      let (f', rest) = write_tail_buffer (current_stored_size f.chunk_map) buffer f in
      if to_bool status
      then some (f, s, status)
      else if length buffer == 0
      then some (f, s, status)
      else if length rest == 0
      then some (f', s, status)
      else elim (append store name rest f' s) [
        | none ↦ none
        | some (f'', s', status') ↦
            some (f'', s', if wrote_all (length rest) status' then no_status else status')
      ]

  unfoldable pub report_written : ℕ → VirtualFile × S × Status → VirtualFile × S × Status
  unfolding to_bool
  report_written desired_count (f, s, status) =
      report store f s (if to_bool status then status else write_successful desired_count)

  unfoldable pub write :
      List ℕ → List ℕ → List ℕ → VirtualFile → S → Option (VirtualFile × S × Status)
  unfolding write_loop write_rest report_written
  write raw name buffer f s =
      if f.available
      then elim (write_loop (length buffer + 1) raw (add64 f.current_position (length buffer))
          buffer f s) [
            | none ↦ none
            | some r ↦ elim (write_rest name r) [
              | none ↦ none
              | some w ↦ some (report_written (length buffer) w)
            ]
          ]
      else some (f, s, container_unavailable)
