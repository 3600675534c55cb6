-- ===== src/Container.antt =====
-- inecontainer/source/container_impl.cpp: the state of `ContainerImpl`, `open`, and what it is for the
-- virtual files and chunks in it. `files` are the virtual files that were made, by the number that
-- stands for the object.
pub mod Store
pub mod Traverse
pub mod Close
pub mod FileHeader
mod Tests
use inecontainer.Prelude.{
  ℕ, ◌+◌, Bool, true, false, not, ◌&&◌, List, [], ◌∷◌, ltb, ◌==◌, if◌then◌else◌, replicate, length,
}
use inecontainer.Status.{
  Status, no_status, to_bool, success, header_identifier_invalid, version_downlevel,
  header_version_invalid, header_crc_error,
}
use inecontainer.Header.{
  ChunkHeader, chunk_size, to_file_index, invalid_file_index, number_valid_bytes,
  minimum_chunk_header_size_bytes, update_crc, check_crc,
}
use inecontainer.Tracker.{FreeMap, clear_free_space}
use inecontainer.Directory.{Name, name_eq, Directory}
use inecontainer.Chunk.{Device, World, Chunk, of_full_header, read_all, load, save}
use inecontainer.StartChunk.{
  container_major_version, new_file_header, major_version, minor_version, identifier,
}
use inecontainer.VirtualFile.{VirtualFile}

pub record Container (S : Type 0) : Type 0 where
  pub world : World S
  pub free_map : FreeMap
  pub directory : Directory
  pub files : List VirtualFile
  pub ignore_identifier_on_open : Bool
  pub current_file_identifier : Name
  pub current_minor_version : ℕ
  pub starting_file_index : ℕ
  pub file_maps_populated : Bool
  pub last_reported_status : Status

abbrev pub no_files : Directory
no_files = record { files_by_name = []; file_apis_by_name = []; files_by_identifier = [] }

unfoldable pub new_container : {S : Type 0} → Name → Bool → World S → Container S
new_container file_identifier ignore_identifier w = record {
  world = w;
  free_map = [];
  directory = no_files;
  files = [];
  ignore_identifier_on_open = ignore_identifier;
  current_file_identifier = file_identifier;
  current_minor_version = 255;
  starting_file_index = invalid_file_index;
  file_maps_populated = false;
  last_reported_status = no_status;
}

-- A common header of four bytes that was read.
abbrev pub common_header : List ℕ → ChunkHeader
common_header bytes =
    of_full_header bytes (record { b0 = 0; b1 = 0; b2 = 0; b3 = 0; additional = [] })

-- The constructor of a chunk whose array has the size that its common header says; zeros stand for
-- what it holds before it is loaded.
unfoldable pub of_common : List ℕ → ChunkHeader
of_common bytes =
    let h = common_header bytes in record h { additional = replicate (number_valid_bytes h) 0 }

-- The tests of `open` on the file header that was loaded, in their order.
unfoldable pub header_status : Bool → Name → ChunkHeader → Status → Status
unfolding name_eq identifier major_version check_crc to_bool
header_status ignore_identifier expected h status =
    if to_bool status
    then status
    else if not ignore_identifier && not (name_eq (identifier h) expected)
    then header_identifier_invalid
    else if not ignore_identifier && ltb (major_version h) container_major_version
    then version_downlevel (major_version h) container_major_version
    else if not ignore_identifier && ltb container_major_version (major_version h)
    then header_version_invalid (major_version h) container_major_version
    else if check_crc h
    then no_status
    else header_crc_error

module _ {S : Type 0} (dev : Device S) where
  abbrev pub with_version : ChunkHeader → Container S → Container S
  with_version h c = record c {
    current_minor_version = minor_version h;
    starting_file_index = to_file_index (chunk_size h);
  }

  -- `open` of a container that has a common header. The size in bytes is compared with an index.
  unfoldable pub open_existing : List ℕ → Container S → Container S × Status
  unfolding of_common header_status load to_bool
  open_existing common c =
      let (k, w, loaded) =
        load dev false (record { header = of_common common; file_index = 0 }) c.world in
      let status =
        header_status c.ignore_identifier_on_open c.current_file_identifier k.header loaded in
      let c' : Container S = record c { world = w } in
      let c'' = if to_bool status then c' else with_version k.header c' in
      (record c'' { file_maps_populated = dev.size w.device == c''.starting_file_index }, status)

  -- `open` of a container without a byte in it.
  unfoldable pub open_empty : Container S → Container S × Status
  unfolding new_file_header save to_bool
  open_empty c =
      let (k, w, status) =
        save dev update_crc true
          (record { header = new_file_header c.current_file_identifier; file_index = 0 }) c.world in
      let c' : Container S = record c { world = w } in
      if to_bool status
      then (c', status)
      else (record (with_version k.header c') { file_maps_populated = true }, status)

  -- The end of `open`: an error takes the version and the start back, and the maps are cleared.
  unfoldable pub finish_open : Container S × Status → Container S × Status
  unfolding to_bool
  finish_open (c, status) =
      let failed = to_bool status in
      (
        record c {
          current_minor_version = if failed then 255 else c.current_minor_version;
          starting_file_index = if failed then invalid_file_index else c.starting_file_index;
          file_maps_populated = not failed && c.file_maps_populated;
          directory = no_files;
          free_map = clear_free_space c.free_map;
          last_reported_status = status;
        },
        status,
      )

  -- What `open` does with the common header that it read.
  unfoldable pub open_read : Container S × List ℕ × Status → Container S × Status
  unfolding read_all open_existing open_empty
  open_read (c, common, status) =
      if read_all minimum_chunk_header_size_bytes status
      then open_existing common c
      else if dev.size c.world.device == 0
      then open_empty c
      else (c, status)

  abbrev pub with_device : S → Container S → Container S
  with_device s c = record c { world = record c.world { device = s } }

  -- `open` up to its status.
  unfoldable pub opened : Container S → Container S × Status
  unfolding open_read to_bool
  opened c =
      let (s, sought) = dev.set_position 0 c.world.device in
      let (s', common, status) = dev.read minimum_chunk_header_size_bytes s in
      if to_bool sought
      then (with_device s c, sought)
      else open_read (with_device s' c, common, status)

  unfoldable pub open_container : Container S → Container S × Status
  unfolding opened finish_open
  open_container c = finish_open (opened c)
