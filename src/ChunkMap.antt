-- ===== src/ChunkMap.antt =====
-- The chunk map of a virtual file, in inecontainer/source/virtual_file_impl.cpp: where the chunk that
-- starts at an offset of the file lies, and how much payload it holds. The `std::map` is the list of
-- its entries in the order of their offsets.
pub mod Contiguous
mod Tests
use inecontainer.Prelude.{
  ℕ, Bool, true, ◌||◌, Option, none, some, List, [], ◌∷◌, ltb, leb, ◌==◌, if◌then◌else◌,
}
use inecontainer.Prelude.Words.{add64}
use inecontainer.Header.{invalid_file_index}
use inecontainer.Area.{ChunkMapData}

pub record MapEntry : Type 0 where
  pub first : ℕ
  pub second : ChunkMapData

abbrev pub ChunkMap : Type 0
ChunkMap = List MapEntry

abbrev pub map_entry : ℕ → ℕ → ℕ → MapEntry
map_entry base_offset starting_index payload_size = record {
  first = base_offset;
  second = record { starting_index = starting_index; payload_size = payload_size };
}

-- `addChunkLocation`: the data of an offset that is there are replaced.
unfoldable pub add_chunk_location : ℕ → ℕ → ℕ → ChunkMap → ChunkMap
add_chunk_location starting_index base_offset payload_size [] =
    map_entry base_offset starting_index payload_size ∷ []
add_chunk_location starting_index base_offset payload_size (c ∷ m) =
    if c.first == base_offset
    then map_entry base_offset starting_index payload_size ∷ m
    else if ltb base_offset c.first
    then map_entry base_offset starting_index payload_size ∷ c ∷ m
    else c ∷ add_chunk_location starting_index base_offset payload_size m

-- The entry before `end()`.
abbrev pub last_entry : ChunkMap → Option MapEntry
last_entry [] = none
last_entry (c ∷ []) = some c
last_entry (c ∷ d ∷ m) = last_entry (d ∷ m)

abbrev pub end_of : Option MapEntry → ℕ
end_of none = 0
end_of (some c) = add64 c.first c.second.payload_size

unfoldable pub current_stored_size : ChunkMap → ℕ
current_stored_size m = end_of (last_entry m)

abbrev pub index_of : ℕ → Option MapEntry → ℕ
index_of start_chunk_index none =
    if start_chunk_index == invalid_file_index then 0 else start_chunk_index
index_of start_chunk_index (some c) = c.second.starting_index

unfoldable pub last_known_file_index : ℕ → ChunkMap → ℕ
last_known_file_index start_chunk_index m = index_of start_chunk_index (last_entry m)

-- `--upper_bound(position)` in `read` and `write`: the last entry that does not start behind the
-- position; `none` stands for a decrement of `begin()`.
unfoldable pub entry_before : ℕ → Option MapEntry → ChunkMap → Option MapEntry
entry_before position previous [] = previous
entry_before position previous (c ∷ m) =
    if ltb position c.first then previous else entry_before position (some c) m

unfoldable pub chunk_at : ℕ → ChunkMap → Option MapEntry
unfolding entry_before
chunk_at position m = entry_before position none m

-- Whether `currentChunk`, an entry or `end()`, is not the one that the position needs.
unfoldable pub needs_other_chunk : ℕ → Option MapEntry → Bool
needs_other_chunk position none = true
needs_other_chunk position (some c) =
    ltb position c.first || leb (add64 c.first c.second.payload_size) position
