-- ===== src/VirtualFile.antt =====
-- inecontainer/source/virtual_file_impl.cpp: the state of `VirtualFileImpl` and its small methods. The
-- handlers stand in the modules below. The container's maps are populated, so that no handler scans
-- it, and an iterator into the chunk map is the offset that it stands at, `none` for `end()`.
pub mod Append
pub mod Buffer
pub mod Read
pub mod Write
pub mod Flush
pub mod Truncate
pub mod Tail
pub mod Erase
use inecontainer.Prelude.{
  ℕ, ◌+◌, Bool, true, false, not, ◌&&◌, Option, none, some, List, [], ◌∷◌, ltb, leb, ◌==◌,
  if◌then◌else◌,
}
use inecontainer.Prelude.Words.{u32, add32, add64}
use inecontainer.Status.{Status, no_status, seek_error, container_unavailable, to_bool}
use inecontainer.Area.{FreeSpace}
use inecontainer.Header.{invalid_file_index}
use inecontainer.Ring.{RingBuffer, new_ring}
use inecontainer.ChunkMap.{MapEntry, ChunkMap, current_stored_size}
use inecontainer.Directory.{Name}
use inecontainer.Chunk.{Chunk}
use inecontainer.DataChunk.{DataChunk}

abbrev pub tail_buffer_size : ℕ
tail_buffer_size = 4096

abbrev pub chunk_buffer_size : ℕ
chunk_buffer_size = 4096

-- What a virtual file calls of its container and of the chunks that are saved into it.
pub record ChunkStore (S : Type 0) : Type 0 where
  pub reserve_free_space_area : ℕ → ℕ → ℕ → S → S × FreeSpace
  pub release_reservation : FreeSpace → S → S
  pub new_free_space_area : ℕ → ℕ → Bool → S → S
  pub flush_free_space : S → S × Bool
  pub save_data : DataChunk → S → DataChunk × S × Status
  pub load_data : Bool → DataChunk → S → DataChunk × S × Status
  pub save_start : Chunk → S → Chunk × S × Status
  pub load_start : Bool → Chunk → S → Chunk × S × Status
  pub file_renamed : Name → Name → S → S × Bool
  pub file_erased : Name → S → S × Bool
  pub set_last_status : Status → S → S
  pub last_status : S → Status

-- `available` says whether `currentContainer.lock()` gives a container.
pub record VirtualFile : Type 0 where
  pub available : Bool
  pub current_name : Name
  pub current_stream_identifier : ℕ
  pub start_chunk_index : ℕ
  pub chunk_map : ChunkMap
  pub current_chunk : Option ℕ
  pub chunk_buffer : Option (List ℕ)
  pub chunk_buffer_flush_needed : Bool
  pub tail_buffer : RingBuffer ℕ
  pub current_position : ℕ

unfoldable pub new_virtual_file : Name → ℕ → VirtualFile
unfolding new_ring
new_virtual_file new_name stream_identifier = record {
  available = true;
  current_name = new_name;
  current_stream_identifier = stream_identifier;
  start_chunk_index = invalid_file_index;
  chunk_map = [];
  current_chunk = none;
  chunk_buffer = none;
  chunk_buffer_flush_needed = false;
  tail_buffer = new_ring tail_buffer_size 0;
  current_position = 0;
}

-- The entry of the chunk map at an offset.
unfoldable pub entry_at : ℕ → ChunkMap → Option MapEntry
entry_at offset [] = none
entry_at offset (c ∷ m) = if c.first == offset then some c else entry_at offset m

abbrev pub entry_of : Option ℕ → ChunkMap → Option MapEntry
entry_of none m = none
entry_of (some offset) m = entry_at offset m

-- `size`, where the container is there; `-1` is `none`.
unfoldable pub size : VirtualFile → Option ℕ
unfolding current_stored_size
size f =
    if f.available
    then some (add64 (current_stored_size f.chunk_map) f.tail_buffer.entry_count)
    else none

abbrev pub size_or : ℕ → Option ℕ → ℕ
size_or d none = d
size_or d (some n) = n

-- `static_cast<unsigned long long>(currentSize)`.
abbrev pub size_word : VirtualFile → ℕ
size_word f = size_or 18446744073709551615 (size f)

module _ {S : Type 0} (store : ChunkStore S) where
  -- `container->setLastStatus(status)` under `if (container)`, and the status as the result.
  abbrev pub report : VirtualFile → S → Status → VirtualFile × S × Status
  report f s status = (f, if f.available then store.set_last_status status s else s, status)

  -- A seek error of a file without a container replaces the first error.
  unfoldable pub set_position : ℕ → VirtualFile → S → VirtualFile × S × Status
  unfolding size
  set_position new_offset f s = elim (size f) [
    | none ↦ report f s (seek_error new_offset (size_word f))
    | some n ↦
        if leb new_offset n
        then report (record f { current_position = new_offset }) s no_status
        else report f s (seek_error new_offset n)
  ]

  unfoldable pub set_position_last : VirtualFile → S → VirtualFile × S × Status
  unfolding size
  set_position_last f s =
      if f.available
      then report (record f { current_position = size_word f }) s no_status
      else (f, s, container_unavailable)

-- `bytesInWriteCache`.
abbrev pub payload_of : Option MapEntry → ℕ
payload_of none = 0
payload_of (some c) = c.second.payload_size

unfoldable pub bytes_in_write_cache : VirtualFile → ℕ
unfolding entry_at
bytes_in_write_cache f =
    add32
      (if f.chunk_buffer_flush_needed then payload_of (entry_of f.current_chunk f.chunk_map) else 0)
      f.tail_buffer.entry_count
