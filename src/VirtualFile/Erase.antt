-- ===== src/VirtualFile/Erase.antt =====
-- `VirtualFileImpl::erase` and `VirtualFileImpl::rename` of inecontainer/source/virtual_file_impl.cpp.
-- `none` is an invalid access in the constructor of a start chunk.
use inecontainer.Prelude.{
  ℕ, true, false, not, Option, none, some, List, [], ◌∷◌, ◌++◌, ◌==◌, if◌then◌else◌,
}
use inecontainer.Status.{
  Status, no_status, container_unavailable, stream_identifier_mismatch, filename_mismatch, to_bool,
}
use inecontainer.Area.{ContainerArea}
use inecontainer.Header.{chunk_size, invalid_file_index, to_position, to_file_index}
use inecontainer.Stream.{stream_identifier}
use inecontainer.ChunkMap.{ChunkMap}
use inecontainer.Directory.{Name, name_eq}
use inecontainer.Chunk.{Chunk}
use inecontainer.StartChunk.{new_start_chunk, virtual_filename}
use inecontainer.DataChunk.{new_data_chunk}
use inecontainer.VirtualFile.{ChunkStore, VirtualFile, report}
use inecontainer.VirtualFile.Buffer.{check, check_chunk, chunk_for}

-- The checks on a start chunk that was loaded; `unset` is as in `virtual_filename`.
unfoldable pub check_start : List ℕ → Chunk → VirtualFile → Status → Status
unfolding virtual_filename name_eq to_bool
check_start unset c f status =
    check
      (check status (not (stream_identifier c.header == f.current_stream_identifier)) (
        stream_identifier_mismatch (stream_identifier c.header) f.current_stream_identifier
          (to_position c.file_index)))
      (not (name_eq (virtual_filename unset c.header) f.current_name))
      (filename_mismatch (to_position f.start_chunk_index))

-- An area in front of those that follow, unless the status tells of an error.
abbrev pub and_area :
    {S : Type 0} → ContainerArea → List ContainerArea × S × Status → List ContainerArea × S × Status
and_area a (areas, s, status) = (a ∷ areas, s, status)

module _ {S : Type 0} (store : ChunkStore S) (unset : List ℕ) where
  -- The place of the start chunk, where there is one.
  unfoldable pub start_area : List ℕ → VirtualFile → S → Option (List ContainerArea × S × Status)
  unfolding new_start_chunk check_start to_bool
  start_area raw f s =
      if f.start_chunk_index == invalid_file_index
      then some ([], s, no_status)
      else elim (new_start_chunk f.start_chunk_index f.current_name f.current_stream_identifier
          raw) [
            | none ↦ none
            | some c ↦
                let (c', s', status) = store.load_start true c s in
                let status' = check_start unset c' f status in
                some (
                  if to_bool status'
                      then []
                      else record {
                        starting_index = f.start_chunk_index;
                        area_size = to_file_index (chunk_size c'.header);
                      }
                        ∷ [],
                  s',
                  status',
                )
          ]

  -- The places of the data chunks.
  unfoldable pub chunk_areas : ChunkMap → VirtualFile → S → List ContainerArea × S × Status
  unfolding new_data_chunk check_chunk to_bool
  chunk_areas [] f s = ([], s, no_status)
  chunk_areas (c ∷ m) f s =
      let (chunk, s', status) = store.load_data true (chunk_for c f) s in
      let status' = check_chunk c.first chunk f status in
      let rest = chunk_areas m f s' in
      if to_bool status'
      then ([], s', status')
      else and_area
          (record {
            starting_index = c.second.starting_index;
            area_size = to_file_index (chunk_size chunk.chunk.header);
          })
          rest

  unfoldable pub release_areas : List ContainerArea → S → S
  release_areas [] s = s
  release_areas (a ∷ areas) s =
      release_areas areas (store.new_free_space_area a.starting_index a.area_size true s)

  -- The places become free, and the free space is flushed.
  unfoldable pub free_chunks : List ContainerArea → S → S × Status
  unfolding release_areas
  free_chunks areas s =
      let (s', success) = store.flush_free_space (release_areas areas s) in
      (s', if success then no_status else store.last_status s')

  -- The end of `erase`: the file forgets its container only where all went well.
  unfoldable pub finish_erase : VirtualFile → S → Status → VirtualFile × S × Status
  unfolding to_bool
  finish_erase f s status = if to_bool status then report store f s status else (
    record f { available = false },
    store.set_last_status status (store.file_erased f.current_name s).0,
    status,
  )

  unfoldable pub erase : List ℕ → VirtualFile → S → Option (VirtualFile × S × Status)
  unfolding start_area chunk_areas free_chunks finish_erase to_bool
  erase raw f s =
      if f.available
      then elim (start_area raw f s) [
        | none ↦ none
        | some (start, s₁, status₁) ↦
            let (areas, s₂, status₂) = chunk_areas f.chunk_map f s₁ in
            let (s₃, status₃) = free_chunks (start ++ areas) s₂ in
            some (
              if to_bool status₁
              then finish_erase f s₁ status₁
              else if to_bool status₂
              then finish_erase f s₂ status₂
              else finish_erase f s₃ status₃)
      ]
      else some (f, s, container_unavailable)

  -- The start chunk with the new name, saved over the old one.
  unfoldable pub save_name : List ℕ → Name → VirtualFile → S → Option (S × Status)
  unfolding new_start_chunk
  save_name raw new_name f s =
      if f.start_chunk_index == invalid_file_index
      then some (s, no_status)
      else elim (new_start_chunk f.start_chunk_index new_name f.current_stream_identifier raw) [
        | none ↦ none
        | some c ↦ let (c', s', status) = store.save_start c s in some (s', status)
      ]

  unfoldable pub rename : List ℕ → Name → VirtualFile → S → Option (VirtualFile × S × Status)
  unfolding save_name name_eq to_bool
  rename raw new_name f s =
      if not f.available
      then some (f, s, container_unavailable)
      else if name_eq f.current_name new_name
      then some (report store f s no_status)
      else elim (save_name raw new_name f s) [
        | none ↦ none
        | some (s', status) ↦ some (
            if to_bool status
            then report store f s' status
            else report store (record f { current_name = new_name })
                (store.file_renamed f.current_name new_name s').0 status)
      ]
