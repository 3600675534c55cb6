-- ===== src/VirtualFile/Truncate.antt =====
-- `VirtualFileImpl::truncate` of inecontainer/source/virtual_file_impl.cpp. `none` is a use of `end()`
-- or of an entry before `begin()`. No status is kept as the container's last one.
use inecontainer.Prelude.{
  ℕ, true, Option, none, some, List, [], ◌∷◌, ltb, leb, ◌==◌, if◌then◌else◌, take,
}
use inecontainer.Prelude.Words.{u32, add32, sub32, sub64}
use inecontainer.Status.{Status, no_status, container_unavailable, to_bool}
use inecontainer.Header.{chunk_size, to_file_index}
use inecontainer.ChunkMap.{MapEntry, ChunkMap, map_entry, chunk_at}
use inecontainer.DataChunk.{new_data_chunk, set_chunk_size, scatter_gather_list_segment}
use inecontainer.VirtualFile.{ChunkStore, VirtualFile}
use inecontainer.VirtualFile.Append.{with_segment}
use inecontainer.VirtualFile.Buffer.{chunk_for, check_chunk}
use inecontainer.VirtualFile.Flush.{flush}

-- `pos->second.setPayloadSize(size)` and `chunkMap.erase(pos)`.
unfoldable pub set_payload_size : ℕ → ℕ → ChunkMap → ChunkMap
set_payload_size offset size [] = []
set_payload_size offset size (c ∷ m) =
    if c.first == offset
    then map_entry c.first c.second.starting_index size ∷ m
    else c ∷ set_payload_size offset size m

unfoldable pub erase_entry : ℕ → ChunkMap → ChunkMap
erase_entry offset [] = []
erase_entry offset (c ∷ m) = if c.first == offset then m else c ∷ erase_entry offset m

-- The entries from an offset on, or behind it.
unfoldable pub entries_from : ℕ → ChunkMap → ChunkMap
entries_from offset [] = []
entries_from offset (c ∷ m) = if leb offset c.first then c ∷ m else entries_from offset m

unfoldable pub entries_behind : ℕ → ChunkMap → ChunkMap
entries_behind offset [] = []
entries_behind offset (c ∷ m) = if ltb offset c.first then c ∷ m else entries_behind offset m

module _ {S : Type 0} (store : ChunkStore S) where
  -- What is behind a shorter chunk becomes free.
  unfoldable pub free_rest : ℕ → ℕ → ℕ → S → S
  unfolding to_file_index
  free_rest starting_index old_size new_size s =
      if new_size == old_size
      then s
      else store.new_free_space_area (add32 starting_index (to_file_index new_size))
          (sub32 (to_file_index old_size) (to_file_index new_size)) true s

  -- The chunk that holds the position keeps its front. The checks look at a chunk object that was not
  -- loaded; the chunk is read into a buffer that holds `raw`.
  unfoldable pub keep_front : MapEntry → List ℕ → VirtualFile → S → VirtualFile × S × Status
  unfolding new_data_chunk set_chunk_size check_chunk scatter_gather_list_segment set_payload_size
      free_rest to_bool
  keep_front c raw f s =
      let old = chunk_for c f in
      let status = check_chunk c.first old f no_status in
      let (old', s₁, status₁) = store.load_data true (with_segment raw old) s in
      let kept = u32 (sub64 f.current_position c.first) in
      let buffer = (scatter_gather_list_segment 0 old').base in
      let new =
        with_segment (take kept buffer)
          (set_chunk_size (chunk_size old'.chunk.header) (chunk_for c f)).0 in
      let (new', s₂, status₂) = store.save_data new s₁ in
      if to_bool status
      then (f, s, status)
      else if to_bool status₁
      then (f, s₁, status₁)
      else if to_bool status₂
      then (f, s₂, status₂)
      else (
        record f { chunk_map = set_payload_size c.first kept f.chunk_map },
        free_rest c.second.starting_index (chunk_size old'.chunk.header)
            (chunk_size new'.chunk.header) s₂,
        status₂,
      )

  -- The loop over the remaining entries: each chunk is loaded and checked, and its place is freed.
  unfoldable pub wipe_chunks : ChunkMap → VirtualFile → S → VirtualFile × S × Status
  unfolding new_data_chunk check_chunk to_file_index erase_entry to_bool
  wipe_chunks [] f s = (f, s, no_status)
  wipe_chunks (c ∷ m) f s =
      let (chunk, s', status) = store.load_data true (chunk_for c f) s in
      let status' = check_chunk c.first chunk f status in
      let rest =
        wipe_chunks m (record f { chunk_map = erase_entry c.first f.chunk_map })
          (store.new_free_space_area chunk.chunk.file_index
            (to_file_index (chunk_size chunk.chunk.header)) true s') in
      if to_bool status' then (f, s', status') else rest

  -- What happens after the flush, from the entry that holds the position on.
  unfoldable pub truncate_from : MapEntry → List ℕ → VirtualFile → S → VirtualFile × S × Status
  unfolding keep_front wipe_chunks entries_from entries_behind to_bool
  truncate_from c raw f s =
      let partly = ltb c.first f.current_position in
      let (f', s', status) = if partly then keep_front c raw f s else (f, s, no_status) in
      let pos =
        if partly then entries_behind c.first f'.chunk_map else entries_from c.first f'.chunk_map in
      let (f'', s'', status') = wipe_chunks pos f' s' in
      if to_bool status
      then (f', s', status)
      else if to_bool status'
      then (f'', s'', status')
      else (record f'' { current_chunk = none }, s'', status')

  unfoldable pub truncate : List ℕ → List ℕ → VirtualFile → S → Option (VirtualFile × S × Status)
  unfolding flush truncate_from chunk_at to_bool
  truncate name raw f s =
      if f.available
      then elim (flush store name f s) [
        | none ↦ none
        | some (f', s', status) ↦
            if to_bool status
            then some (f', s', status)
            else elim (chunk_at f'.current_position f'.chunk_map) [
              | none ↦ none
              | some c ↦ some (truncate_from c raw f' s')
            ]
      ]
      else some (f, s, container_unavailable)
