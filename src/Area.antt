-- ===== src/Area.antt =====
-- The small value classes of the container: container_area.cpp, free_space_data.cpp,
-- chunk_map_data.cpp and free_space.cpp under inecontainer/source. A setter returns the new value.
-- An iterator into the free map is the key that it stands at.
pub mod Laws
use inecontainer.Prelude.{ℕ, ◌+◌, Bool, true, false, not, ◌&&◌, ◌||◌, leb, ◌==◌, if◌then◌else◌}
use inecontainer.Prelude.Words.{add32, sub32}

pub data Side : Type 0 where
  from_front from_back : Side

abbrev pub is_front : Side → Bool
is_front from_front = true
is_front from_back = false

pub record ContainerArea : Type 0 where
  pub starting_index : ℕ
  pub area_size : ℕ

unfoldable pub set_starting_index : ℕ → ContainerArea → ContainerArea
set_starting_index i a = record a { starting_index = i }

-- The new area, and whether the index was accepted.
unfoldable pub set_ending_index : ℕ → ContainerArea → ContainerArea × Bool
set_ending_index i a =
    if leb a.starting_index i
    then (record a { area_size = sub32 i a.starting_index }, true)
    else (a, false)

unfoldable pub ending_index : ContainerArea → ℕ
ending_index a = add32 a.starting_index a.area_size

unfoldable pub set_area_size : ℕ → ContainerArea → ContainerArea
set_area_size n a = record a { area_size = n }

unfoldable pub reduce_by : ℕ → Side → ContainerArea → ContainerArea × Bool
reduce_by amount side a =
    if leb amount a.area_size
    then (
      record {
        starting_index = if is_front side then add32 a.starting_index amount else a.starting_index;
        area_size = sub32 a.area_size amount;
      },
      true,
    )
    else (a, false)

unfoldable pub expand_by : ℕ → Side → ContainerArea → ContainerArea × Bool
expand_by amount side a =
    if not (is_front side) || leb amount a.starting_index
    then (
      record {
        starting_index = if is_front side then sub32 a.starting_index amount else a.starting_index;
        area_size = add32 a.area_size amount;
      },
      true,
    )
    else (a, false)

-- `operator==` and `operator!=`.
unfoldable pub area_eq : ContainerArea → ContainerArea → Bool
area_eq a b = (b.starting_index == a.starting_index) && (b.area_size == a.area_size)

unfoldable pub area_ne : ContainerArea → ContainerArea → Bool
area_ne a b = not (b.starting_index == a.starting_index) || not (b.area_size == a.area_size)

-- `FreeSpaceData`: what the free map keeps for the region that starts at a key.
pub record FreeSpaceData : Type 0 where
  pub ending_index : ℕ
  pub reserved : Bool
  pub file_needs_update : Bool

abbrev pub is_available : FreeSpaceData → Bool
is_available d = not d.reserved

unfoldable pub set_reserved : Bool → FreeSpaceData → FreeSpaceData
set_reserved now_reserved d = record d { reserved = now_reserved }

unfoldable pub set_available : Bool → FreeSpaceData → FreeSpaceData
unfolding set_reserved
set_available now_available d = set_reserved (not now_available) d

unfoldable pub set_file_update_needed : Bool → FreeSpaceData → FreeSpaceData
set_file_update_needed now_needed d = record d { file_needs_update = now_needed }

-- `ChunkMapData`: where a virtual file's chunk lies, and how much payload it holds.
pub record ChunkMapData : Type 0 where
  pub starting_index : ℕ
  pub payload_size : ℕ

-- `FreeSpace`: a reserved area and the map entry that stands for it.
pub record FreeSpace : Type 0 where
  pub area : ContainerArea
  pub position : ℕ
  pub currently_valid : Bool

-- The constructor over a map position, and the one of an area that is not valid.
unfoldable pub new_free_space : ℕ → ContainerArea → FreeSpace
new_free_space position area = record { area = area; position = position; currently_valid = true }

unfoldable pub invalid_free_space : ContainerArea → ℕ → FreeSpace
invalid_free_space area position = record {
  area = area;
  position = position;
  currently_valid = false;
}

unfoldable pub is_valid : FreeSpace → Bool
is_valid s = s.currently_valid

unfoldable pub is_invalid : FreeSpace → Bool
unfolding is_valid
is_invalid s = not (is_valid s)
