-- ===== src/VirtualFile/Read.antt =====
-- `VirtualFileImpl::read` of inecontainer/source/virtual_file_impl.cpp. The caller's buffer is the list
-- of its bytes; the loop runs on fuel.
use inecontainer.Prelude.{
  map_option, ℕ, zero, suc, ◌+◌, Bool, true, not, ◌&&◌, Option, none, some, List, [], ◌∷◌, ◌++◌,
  ltb, ◌==◌, if◌then◌else◌, length, take, drop,
}
use inecontainer.Prelude.Words.{u32, sub32, add64, sub64}
use inecontainer.Status.{
  Status, no_status, container_unavailable, payload_size_mismatch, read_successful, to_bool,
}
use inecontainer.Header.{to_position}
use inecontainer.Ring.{RingBuffer, snoop}
use inecontainer.ChunkMap.{MapEntry, current_stored_size}
use inecontainer.Chunk.{overlay}
use inecontainer.DataChunk.{
  DataChunk, new_data_chunk, set_chunk_size, scatter_gather_list_size, scatter_gather_list_segment,
}
use inecontainer.VirtualFile.{
  ChunkStore, VirtualFile, tail_buffer_size, entry_at, entry_of, size, size_word, report,
}
use inecontainer.VirtualFile.Append.{with_segment, processed_before}
use inecontainer.VirtualFile.Buffer.{
  large_chunk_for, check, check_chunk, buffer_or, load_chunk_into_buffer, find_chunk,
}

-- What a turn of the loop leaves: the caller's buffer from its place on, and `bytesOfReadData`.
pub record Turn (S : Type 0) : Type 0 where
  pub file : VirtualFile
  pub buffer : List ℕ
  pub read_count : ℕ
  pub state : S
  pub status : Status

-- The loop's result: the bytes before `bufferSegment` and the buffer from there on.
pub record Progress (S : Type 0) : Type 0 where
  pub file : VirtualFile
  pub done : List ℕ
  pub rest : List ℕ
  pub remaining : ℕ
  pub state : S
  pub status : Status

-- `numberBytesToRead`.
unfoldable pub bytes_to_read : ℕ → VirtualFile → ℕ
unfolding size
bytes_to_read desired_count f =
    let distance_to_eof = sub64 (size_word f) f.current_position in
    u32 (if ltb desired_count distance_to_eof then desired_count else distance_to_eof)

-- How much of the chunk behind the position is still to be read.
abbrev pub smaller : ℕ → ℕ → ℕ
smaller m n = if ltb m n then m else n

-- The `std::memcpy` out of the chunk buffer.
unfoldable pub copy_out : MapEntry → ℕ → List ℕ → VirtualFile → Option (List ℕ × ℕ)
copy_out c remaining buffer f = elim f.chunk_buffer [
  | none ↦ none
  | some chunk_buffer ↦
      let ending = add64 c.first c.second.payload_size in
      let n = smaller remaining (u32 (sub64 ending f.current_position)) in
      some (overlay (take n (drop (sub64 f.current_position c.first) chunk_buffer)) buffer, n)
]

abbrev pub with_done : {S : Type 0} → List ℕ → Progress S → Progress S
with_done bytes p = record p { done = bytes ++ p.done }

-- The bytes that the tail buffer has from an offset on.
unfoldable pub snoop_bytes : ℕ → ℕ → RingBuffer ℕ → List ℕ
unfolding snoop
snoop_bytes offset zero tail = []
snoop_bytes offset (suc n) tail =
    snoop tail_buffer_size 0 offset tail ∷ snoop_bytes (offset + 1) n tail

-- The checks on a chunk that was read into the caller's buffer.
unfoldable pub direct_status : MapEntry → VirtualFile → DataChunk → Status → Status
unfolding scatter_gather_list_size check_chunk processed_before to_bool
direct_status c f chunk status =
    let payload = processed_before (scatter_gather_list_size chunk) chunk in
    check (check_chunk c.first chunk f status) (not (payload == c.second.payload_size))
      (payload_size_mismatch payload c.second.payload_size (to_position chunk.chunk.file_index))

module _ {S : Type 0} (store : ChunkStore S) where
  -- The whole chunk goes into the caller's buffer.
  unfoldable pub read_whole : MapEntry → List ℕ → VirtualFile → S → Turn S
  unfolding new_data_chunk set_chunk_size scatter_gather_list_segment direct_status
  read_whole c buffer f s =
      let chunk = with_segment (take c.second.payload_size buffer) (large_chunk_for c f) in
      let (chunk', s', status) = store.load_data true chunk s in
      record {
        file = record f { current_chunk = none };
        buffer = overlay (scatter_gather_list_segment 0 chunk').base buffer;
        read_count = c.second.payload_size;
        state = s';
        status = direct_status c f chunk' status;
      }

  -- The front of the chunk goes into the chunk buffer, and its end into the caller's.
  unfoldable pub read_end_of : MapEntry → List ℕ → List ℕ → VirtualFile → S → Turn S
  unfolding new_data_chunk set_chunk_size scatter_gather_list_segment direct_status
  read_end_of c raw buffer f s =
      let ending = add64 c.first c.second.payload_size in
      let front = u32 (sub64 f.current_position c.first) in
      let n = u32 (sub64 ending f.current_position) in
      let chunk_buffer = buffer_or raw f.chunk_buffer in
      let chunk =
        with_segment (take n buffer)
          (with_segment (take front chunk_buffer) (large_chunk_for c f)) in
      let (chunk', s', status) = store.load_data true chunk s in
      record {
        file = record f {
          chunk_buffer = some (overlay (scatter_gather_list_segment 0 chunk').base chunk_buffer);
          current_chunk = none;
        };
        buffer = overlay (scatter_gather_list_segment 1 chunk').base buffer;
        read_count = n;
        state = s';
        status = direct_status c f chunk' status;
      }

  unfoldable pub read_directly : MapEntry → List ℕ → List ℕ → VirtualFile → S → Turn S
  unfolding read_whole read_end_of
  read_directly c raw buffer f s =
      if f.current_position == c.first
      then read_whole c buffer f s
      else read_end_of c raw buffer f s

  -- A turn once its chunk is known.
  unfoldable pub read_chunk :
      MapEntry → Bool → List ℕ → ℕ → ℕ → List ℕ → VirtualFile → S → Option (Turn S)
  unfolding copy_out read_directly load_chunk_into_buffer to_bool
  read_chunk c chunk_loaded raw remaining read_end buffer f s =
      if not chunk_loaded && ltb (add64 c.first c.second.payload_size) read_end
      then some (read_directly c raw buffer f s)
      else elim (if chunk_loaded
          then some (f, s, no_status)
          else load_chunk_into_buffer store raw f s) [
            | none ↦ none
            | some (f', s', status) ↦
                if to_bool status
                then some (record {
                  file = f';
                  buffer = buffer;
                  read_count = 0;
                  state = s';
                  status = status;
                })
                else map_option
                    (λ ((bytes, n) : List ℕ × ℕ). record {
                      file = f';
                      buffer = bytes;
                      read_count = n;
                      state = s';
                      status = status;
                    })
                    (copy_out c remaining buffer f')
          ]

  unfoldable pub read_turn : List ℕ → ℕ → ℕ → List ℕ → VirtualFile → S → Option (Turn S)
  unfolding find_chunk entry_at read_chunk to_bool
  read_turn raw remaining read_end buffer f s = elim (find_chunk store f s) [
    | none ↦ none
    | some (chunk_loaded, f', s', status) ↦
        if to_bool status
        then some
            (record { file = f'; buffer = buffer; read_count = 0; state = s'; status = status })
        else elim (entry_of f'.current_chunk f'.chunk_map) [
          | none ↦ none
          | some c ↦ read_chunk c chunk_loaded raw remaining read_end buffer f' s'
        ]
  ]

  unfoldable pub read_loop : ℕ → List ℕ → ℕ → ℕ → List ℕ → VirtualFile → S → Option (Progress S)
  unfolding read_turn to_bool
  read_loop zero raw remaining read_end buffer f s = none
  read_loop (suc fuel) raw remaining read_end buffer f s =
      if ltb 0 remaining && ltb f.current_position (current_stored_size f.chunk_map)
      then elim (read_turn raw remaining read_end buffer f s) [
        | none ↦ none
        | some t ↦
            if to_bool t.status
            then some (record {
              file = t.file;
              done = [];
              rest = t.buffer;
              remaining = remaining;
              state = t.state;
              status = t.status;
            })
            else map_option (with_done (take t.read_count t.buffer)) (
                read_loop fuel raw (sub32 remaining t.read_count) read_end
                  (drop t.read_count t.buffer)
                  (record t.file { current_position = add64 t.file.current_position t.read_count })
                  t.state)
      ]
      else some (record {
        file = f;
        done = [];
        rest = buffer;
        remaining = remaining;
        state = s;
        status = no_status;
      })

  -- What the tail buffer has of the rest, and the status of the whole.
  unfoldable pub read_tail : ℕ → Progress S → VirtualFile × List ℕ × S × Status
  unfolding snoop_bytes to_bool
  read_tail number_bytes_to_read p =
      let offset = u32 (sub64 p.file.current_position (current_stored_size p.file.chunk_map)) in
      let f = record p.file { current_position = add64 p.file.current_position p.remaining } in
      let bytes = snoop_bytes offset p.remaining p.file.tail_buffer in
      if to_bool p.status
      then (let (f', s', status) = report store p.file p.state p.status in
          (f', p.done ++ p.rest, s', status))
      else (let (f', s', status) = report store f p.state (read_successful number_bytes_to_read) in
          (f', p.done ++ overlay bytes p.rest, s', status))

  -- The file, the caller's buffer, the container and the status. The loop's bound on the position is
  -- `tailBufferBase`: no turn changes the chunk map.
  unfoldable pub read :
      List ℕ → List ℕ → VirtualFile → S → Option (VirtualFile × List ℕ × S × Status)
  unfolding read_loop read_tail bytes_to_read
  read raw buffer f s =
      let n = bytes_to_read (length buffer) f in
      if f.available
      then map_option (read_tail n)
          (read_loop (n + 1) raw n (add64 f.current_position n) buffer f s)
      else some (f, buffer, s, container_unavailable)
