-- ===== src/Container/Tests.antt =====
-- Runs of a container in memory.
use mathlib.Core.Option.{none-ne-some}
use inecontainer.Prelude.{
  ℕ, ◌≤◌, ◌≡◌, refl, true, false, List, [], ◌∷◌, ◌++◌, replicate, some, none, take, drop, ◌-◌, ◌+◌,
  min, arith,
}
use inecontainer.Status.{
  Status, success, bytes_read, bytes_written, no_status, streaming_read, read_successful,
}
use inecontainer.Directory.{find, is_some}
use inecontainer.Memory.{MemoryContainer, size, set_position, read, write, truncate}
use inecontainer.Ring.{RingBuffer, IsValid, store_bytes}
use inecontainer.Ring.Store.{store_bytes_lem}
use inecontainer.ChunkMap.{map_entry, current_stored_size}
use inecontainer.Ring.Window.{entries}
use inecontainer.VirtualFile.{ChunkStore, VirtualFile, set_position as seek_file}
use inecontainer.VirtualFile.Read.{read as read_file}
use inecontainer.VirtualFile.Write.{write as write_file}
use inecontainer.VirtualFile.Tail.{tail_base, total_size}
use inecontainer.VirtualFile.Tail.Read.{read-entries}
use inecontainer.VirtualFile.Tail.Write.{Written, write-entries}
use inecontainer.Container.Store.{container_store}
use inecontainer.Chunk.{Device}
use inecontainer.Container.{Container, no_files, header_status}
use inecontainer.Header.{update_crc}
use inecontainer.StartChunk.{
  new_file_header, is_valid_header, identifier, minor_version, container_minor_version,
}
use inecontainer.Container.FileHeader.{header_status-new_file_header}
use inecontainer.Container.Traverse.{traverse_container}
use inecontainer.Container.Traverse.Sound.{IsSound}
use inecontainer.Container.Traverse.Loop.{Traversed, traverse_container_lem}

memory_read_counted :
    (n : ℕ) (m : MemoryContainer)
    → success (read n m).2 ≡ true
    → is_some (bytes_read (read n m).2) ≡ true
unfolding read
memory_read_counted n m e = refl

memory_write_counted :
    (bytes : List ℕ) (m : MemoryContainer)
    → success (write bytes m).1 ≡ true
    → is_some (bytes_written (write bytes m).1) ≡ true
unfolding write
memory_write_counted bytes m e = refl

abbrev memory_device : Device MemoryContainer
memory_device = record {
  size = size;
  set_position = set_position;
  position = λ m. m.current_position;
  read = read;
  write = write;
  read_counted = memory_read_counted;
  write_counted = memory_write_counted;
}

-- A fill chunk of 32 bytes and a start chunk of 128.
abbrev two_chunks : MemoryContainer
two_chunks = record {
  memory_buffer =
      (3 ∷ 0 ∷ replicate 30 0) ++ (9 ∷ 0 ∷ 0 ∷ 0 ∷ 5 ∷ 0 ∷ 0 ∷ 0 ∷ 97 ∷ replicate 119 0);
  current_position = 0;
}

abbrev unread_container : Container MemoryContainer
unread_container = record {
  world = record { device = two_chunks; random_seed = 0 };
  free_map = [];
  directory = no_files;
  files = [];
  ignore_identifier_on_open = true;
  current_file_identifier = [];
  current_minor_version = 0;
  starting_file_index = 0;
  file_maps_populated = false;
  last_reported_status = no_status;
}

unread_container-IsSound : IsSound unread_container
unfolding find
unread_container-IsSound = record {
  well_formed = tt;
  in_step = λ n. refl;
  registered = λ id file e. absurd (none-ne-some file e);
}

two_chunks_size : size two_chunks ≤ 137438949376
unfolding size
two_chunks_size = omega arith

-- What an application does that is not made for streaming.
abbrev no_streaming : ℕ → List ℕ → ℕ → ℕ × Status
no_streaming file bytes a = (a, streaming_read)

traverse_container_example :
    Traversed memory_device no_streaming []
      (traverse_container memory_device no_streaming [] true unread_container 0)
traverse_container_example =
    traverse_container_lem memory_device no_streaming [] true unread_container 0
      unread_container-IsSound two_chunks_size (omega (arith, two_chunks_size))

-- "log"
abbrev log_name : List ℕ
log_name = 108 ∷ 111 ∷ 103 ∷ []

header_status_example :
    let h = update_crc (new_file_header log_name) in
    (is_valid_header log_name h ≡ true)
    × (identifier h ≡ log_name)
    × (minor_version h ≡ container_minor_version)
    × (header_status false log_name h no_status ≡ no_status)
header_status_example = header_status-new_file_header false log_name (omega arith)

abbrev memory_store : ChunkStore (Container MemoryContainer)
memory_store = container_store memory_device true truncate

abbrev new_tail : RingBuffer ℕ
new_tail = record {
  buffer = replicate 4096 0;
  insertion_index = 0;
  extraction_index = 0;
  entry_count = 0;
}

new_tail-IsValid : IsValid 4096 0 new_tail
new_tail-IsValid = record {
  storage = refl;
  positive = omega arith;
  small = omega arith;
  insertion_in = omega arith;
  extraction_in = omega arith;
  count_in = omega arith;
  in_step = refl;
}

-- A file with one chunk of three bytes and two bytes in its tail, the second of which is next.
abbrev small_file : VirtualFile
small_file = record {
  available = true;
  current_name = log_name;
  current_stream_identifier = 7;
  start_chunk_index = 9;
  chunk_map = map_entry 0 10 3 ∷ [];
  current_chunk = none;
  chunk_buffer = none;
  chunk_buffer_flush_needed = false;
  tail_buffer = (store_bytes 4096 0 (4 ∷ 5 ∷ []) new_tail).0;
  current_position = 4;
}

small_file-IsValid : IsValid 4096 0 small_file.tail_buffer
small_file-IsValid = (store_bytes_lem 4096 0 new_tail (4 ∷ 5 ∷ []) new_tail-IsValid (omega arith)).2

stored_is : current_stored_size small_file.chunk_map ≡ 3
unfolding current_stored_size
stored_is = refl

count_is : small_file.tail_buffer.entry_count ≡ 2
unfolding store_bytes inecontainer.Ring.bulk_insertion_finish
count_is = refl

abbrev new_bytes : List ℕ
new_bytes = 6 ∷ 7 ∷ 8 ∷ []

abbrev zeros : List ℕ
zeros = 0 ∷ 0 ∷ 0 ∷ []

write-entries_example :
    Written memory_store new_bytes small_file unread_container
      (write_file memory_store [] [] new_bytes small_file unread_container)
write-entries_example =
    write-entries memory_store [] [] new_bytes small_file unread_container refl refl
      small_file-IsValid (omega (arith, stored_is)) (omega (arith, stored_is, count_is))
      (omega (arith, stored_is)) (omega (arith, stored_is, count_is))

read-entries_example :
    let n = min 3 (total_size small_file - 4) in
    read_file memory_store [] zeros small_file unread_container
    ≡ some (
      record small_file { current_position = 4 + n },
      take n (drop (4 - tail_base small_file) (entries 4096 0 small_file.tail_buffer))
          ++ drop n zeros,
      record unread_container { last_reported_status = read_successful n },
      read_successful n,
    )
unfolding container_store
read-entries_example =
    read-entries memory_store [] zeros small_file unread_container refl small_file-IsValid
      (omega (arith, stored_is)) (omega (arith, stored_is, count_is))
      (omega (arith, stored_is, count_is)) (omega arith)
