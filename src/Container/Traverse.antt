-- ===== src/Container/Traverse.antt =====
-- `traverseContainer` of inecontainer/source/container_impl.cpp, which builds the maps from the chunks
-- in the container, with the making of virtual files that it calls in container_container.cpp and
-- container_virtual_file.cpp. `none` is a null
-- pointer that is read, or an assertion of newStreamIdentifier, registerFileImplementation or
-- traverseContainer that fails.
pub mod Lookups
pub mod Sound
pub mod Loop
use inecontainer.Prelude.{
  ℕ, zero, suc, ◌+◌, ◌/◌, Bool, true, false, Option, none, some, List, [], ◌∷◌, ◌++◌, ltb, ◌==◌,
  if◌then◌else◌, length, take, get_or, set, replicate,
}
use inecontainer.Prelude.Words.{add64}
use inecontainer.Status.{
  Status, no_status, to_bool, filename_mismatch, stream_identifier_mismatch, container_data_error,
}
use inecontainer.Header.{
  ChunkHeader, ChunkType, file_header_chunk, stream_start_chunk, stream_data_chunk, fill_chunk,
  type, chunk_size, to_file_index, to_position, minimum_chunk_header_size_bytes,
}
use inecontainer.Tracker.{new_free_space_area}
use inecontainer.Directory.{
  Name, Directory, name_eq, find, insert, erase, is_some, new_stream_identifier,
  register_file_implementation,
}
use inecontainer.Stream.{stream_identifier, chunk_offset, payload_size}
use inecontainer.ChunkMap.{add_chunk_location}
use inecontainer.Chunk.{Device, World, Chunk, load_bytes, load}
use inecontainer.DataChunk.{
  DataChunk, data_chunk_of, add_scatter_gather_list_segment, scatter_gather_list_segment, load_data,
}
use inecontainer.StartChunk.{start_chunk_of, virtual_filename}
use inecontainer.VirtualFile.{VirtualFile, new_virtual_file}
use inecontainer.Container.{Container, common_header}
use inecontainer.Container.Store.{with_world}

-- `createFile` of a new name: the file takes the first free identifier.
unfoldable pub create_file : {S : Type 0} → Name → Container S → Option (Container S × ℕ)
unfolding new_stream_identifier new_virtual_file
create_file name c = elim (new_stream_identifier c.directory) [
  | none ↦ none
  | some identifier ↦
      some (record c { files = c.files ++ new_virtual_file name identifier ∷ [] }, identifier)
]

-- The API's `newVirtualFile` of a container whose maps are populated: the implementation's gives no
-- file for a name that is taken, and that null pointer is read to register the file.
unfoldable pub new_file : {S : Type 0} → Name → Container S → Option (Container S × ℕ)
unfolding create_file find insert name_eq register_file_implementation
new_file name c = elim (find name_eq name c.directory.file_apis_by_name) [
  | some api ↦ none
  | none ↦ elim (create_file name c) [
    | none ↦ none
    | some (c', identifier) ↦
        let file = length c.files in
        elim (register_file_implementation name identifier file (record c.directory {
          file_apis_by_name = insert name_eq name file c.directory.file_apis_by_name;
        })) [ none ↦ none | some d ↦ some (record c' { directory = d }, file) ]
  ]
]

abbrev pub no_file : VirtualFile
no_file = record {
  available = false;
  current_name = [];
  current_stream_identifier = 0;
  start_chunk_index = 0;
  chunk_map = [];
  current_chunk = none;
  chunk_buffer = none;
  chunk_buffer_flush_needed = false;
  tail_buffer = record { buffer = []; insertion_index = 0; extraction_index = 0; entry_count = 0 };
  current_position = 0;
}

abbrev pub file_at : {S : Type 0} → ℕ → Container S → VirtualFile
file_at file c = get_or c.files file no_file

-- A file with the identifier and the place of the start chunk that was read.
abbrev pub with_identity : {S : Type 0} → ℕ → ℕ → ℕ → List (ℕ × ℕ) → Container S → Container S
with_identity file identifier start_index identifiers c = record c {
  files = set c.files file (record (file_at file c) {
    current_stream_identifier = identifier;
    start_chunk_index = start_index;
  });
  directory = record c.directory { files_by_identifier = identifiers };
}

-- The identifier and the place of the start chunk that was read, for a file that guessed another. The
-- code asserts that the guess is in the map.
unfoldable pub take_identity : {S : Type 0} → ℕ → ℕ → ℕ → Container S → Option (Container S)
unfolding find insert erase
take_identity file identifier start_index c =
    let guess = (file_at file c).current_stream_identifier in
    let m = c.directory.files_by_identifier in
    if guess == identifier
    then some (with_identity file identifier start_index m c)
    else elim (find ◌==◌ guess m) [
      | none ↦ none
      | some implementation ↦ some (
          with_identity file identifier start_index
            (erase ◌==◌ guess (insert ◌==◌ identifier implementation m)) c)
    ]

-- `addChunkLocation` of a file.
abbrev pub add_location : {S : Type 0} → ℕ → DataChunk → Container S → Container S
add_location file k c =
    let f = file_at file c in
    record c {
      files = set c.files file (record f {
        chunk_map =
            add_chunk_location k.chunk.file_index (chunk_offset k.chunk.header)
              (payload_size k.chunk.header) f.chunk_map;
      });
    }

module _ {S A : Type 0} (dev : Device S) (received_data : ℕ → List ℕ → A → A × Status)
    (unset : List ℕ) where
  unfoldable pub found_start : ℕ → List ℕ → Container S → Option (Container S × Status)
  unfolding load start_chunk_of virtual_filename stream_identifier new_file take_identity find
      name_eq to_bool
  found_start position common c =
      let (k, w, status) =
        load dev false (start_chunk_of (to_file_index position) (common_header common)) c.world in
      let name = virtual_filename unset k.header in
      let c' = with_world dev w c in
      if to_bool status
      then some (c', status)
      else if is_some (find name_eq name c.directory.files_by_name)
      then some (c', filename_mismatch position)
      else elim (new_file name c') [
        | none ↦ none
        | some (c'', file) ↦
            elim (take_identity file (stream_identifier k.header) k.file_index c'') [
              | none ↦ none
              | some c3 ↦ some (c3, no_status)
            ]
      ]

  -- `loadHeader`, or `load` into a buffer of the largest chunk size.
  unfoldable pub load_found : Bool → DataChunk → World S → DataChunk × World S × Status
  unfolding load load_data add_scatter_gather_list_segment
  load_found true k w =
      let (chunk, w', status) = load dev false k.chunk w in (record k { chunk = chunk }, w', status)
  load_found false k w =
      load_data dev false (add_scatter_gather_list_segment (replicate 4096 0) k).0 w

  -- `receivedData` with the bytes that were loaded.
  unfoldable pub deliver : Bool → ℕ → DataChunk → A → A × Status
  unfolding scatter_gather_list_segment
  deliver true file k a = (a, no_status)
  deliver false file k a =
      let it = scatter_gather_list_segment 0 k in
      received_data file (take it.processed_count it.base) a

  unfoldable pub found_data : Bool → ℕ → List ℕ → Container S → A → Container S × A × Status
  unfolding data_chunk_of load_found deliver stream_identifier find to_bool
  found_data build_maps_only position common c a =
      let (k, w, status) =
        load_found build_maps_only
          (data_chunk_of (to_file_index position) (common_header common) (replicate 6 0)) c.world in
      let c' = with_world dev w c in
      let identifier = stream_identifier k.chunk.header in
      if to_bool status
      then (c', a, status)
      else elim (find ◌==◌ identifier c.directory.files_by_identifier) [
        | none ↦ (c', a, stream_identifier_mismatch identifier 0 position)
        | some file ↦
            let (a', status') = deliver build_maps_only file k a in
            (add_location file k c', a', status')
      ]

  -- The switch on the type of the chunk.
  unfoldable pub found_chunk :
      Bool → ChunkType → ℕ → List ℕ → Container S → A → Option (Container S × A × Status)
  unfolding found_start found_data new_free_space_area chunk_size
  found_chunk build_maps_only fill_chunk position common c a = some (
    record c {
      free_map =
          new_free_space_area (to_file_index position)
            (to_file_index (chunk_size (common_header common))) false c.free_map;
    },
    a,
    no_status,
  )
  found_chunk build_maps_only stream_start_chunk position common c a =
      elim (found_start position common c) [
        | none ↦ none
        | some (c', status) ↦ some (c', a, status)
      ]
  found_chunk build_maps_only stream_data_chunk position common c a =
      some (found_data build_maps_only position common c a)
  found_chunk build_maps_only file_header_chunk position common c a =
      some (c, a, container_data_error position)

  -- One turn of the loop, with the size of the chunk.
  unfoldable pub traverse_turn : Bool → ℕ → Container S → A → Option (Container S × A × Status × ℕ)
  unfolding load_bytes found_chunk type chunk_size to_bool
  traverse_turn build_maps_only position c a =
      let (w, common, status) = load_bytes dev position minimum_chunk_header_size_bytes c.world in
      let h = common_header common in
      if to_bool status
      then some (with_world dev w c, a, status, 0)
      else elim (found_chunk build_maps_only (type h) position common (with_world dev w c) a) [
        | none ↦ none
        | some (c', a', status') ↦ some (c', a', status', chunk_size h)
      ]

  unfoldable pub traverse_loop :
      Bool → ℕ → ℕ → ℕ → Container S → A → Option (Container S × A × Status)
  unfolding traverse_turn to_bool
  traverse_loop build_maps_only zero file_size position c a = none
  traverse_loop build_maps_only (suc fuel) file_size position c a = elim (ltb position file_size) [
    | false ↦ some (c, a, no_status)
    | true ↦ elim (traverse_turn build_maps_only position c a) [
      | none ↦ none
      | some (c', a', status, n) ↦ elim (to_bool status) [
        | true ↦ some (c', a', status)
        | false ↦ traverse_loop build_maps_only fuel file_size (add64 position n) c' a'
      ]
    ]
  ]

  unfoldable pub traverse_container : Bool → Container S → A → Option (Container S × A × Status)
  unfolding traverse_loop
  traverse_container build_maps_only c a =
      let file_size = dev.size c.world.device in
      traverse_loop build_maps_only (file_size / 32 + 2) file_size
        (to_position c.starting_file_index) (record c { file_maps_populated = true }) a
