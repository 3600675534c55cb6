-- ===== src/Tracker.antt =====
-- inecontainer/source/free_space_tracker.cpp: the map of free and reserved regions.
-- The `std::map` is the list of its entries in the order of their keys, and an iterator is a cursor:
-- the entries before it, nearest first, and those from it on. An insertion or erasure by key is done
-- at the cursor, where the order of the keys puts it. `file_size` is what `size()` returns.
pub mod Cells
pub mod Absorb
pub mod Add
pub mod Lookup
pub mod Split
pub mod Extend
pub mod Reserve
pub mod Release
pub mod RoundTrip
pub mod Flush
mod Tests
use inecontainer.Prelude.{
  ℕ, ◌+◌, Bool, true, false, not, ◌&&◌, ◌||◌, List, [], ◌∷◌, ltb, leb, ◌==◌, if◌then◌else◌,
}
use inecontainer.Prelude.Words.{add32, sub32}
use inecontainer.Header.{to_file_index}
use inecontainer.Area.{ContainerArea, FreeSpaceData, FreeSpace, is_available}

pub record Entry : Type 0 where
  pub first : ℕ
  pub second : FreeSpaceData

abbrev pub FreeMap : Type 0
FreeMap = List Entry

pub record Cursor : Type 0 where
  pub before : List Entry
  pub from : List Entry

abbrev pub entry : ℕ → ℕ → Bool → Bool → Entry
entry first ending reserved needs_update = record {
  first = first;
  second = record { ending_index = ending; reserved = reserved; file_needs_update = needs_update };
}

-- The map that a cursor stands in.
unfoldable pub close : List Entry → List Entry → FreeMap
close [] from = from
close (e ∷ before) from = close before (e ∷ from)

-- `lower_bound`: the first entry whose key is not below `key`.
unfoldable pub lower_bound_from : ℕ → List Entry → List Entry → Cursor
lower_bound_from key before [] = record { before = before; from = [] }
lower_bound_from key before (e ∷ from) =
    if ltb e.first key
    then lower_bound_from key (e ∷ before) from
    else record { before = before; from = e ∷ from }

-- `insert` in front of the cursor: a key that is there already keeps its entry.
unfoldable pub insert_before : Entry → List Entry → List Entry → List Entry
insert_before e before [] = e ∷ before
insert_before e before (f ∷ from) = if f.first == e.first then before else e ∷ before

-- The last step of `newFreeSpaceArea`, at the cursor where its loop stopped.
unfoldable pub add_region : List Entry → List Entry → ℕ → ℕ → Bool → FreeMap
unfolding insert_before
add_region before from starting ending needs_update =
    if ltb starting ending
    then close (insert_before (entry starting ending false needs_update) before from) from
    else close before from

-- The loop over the entries after the insertion point. Its assertion that they start behind the area
-- fails where the area starts at an entry or inside a reserved region before one; this is what a build
-- without assertions does.
unfoldable pub absorb : Bool → List Entry → List Entry → ℕ → ℕ → Bool → FreeMap
unfolding add_region insert_before
absorb file_update before [] starting ending needs_update =
    add_region before [] starting ending needs_update
absorb file_update before (it ∷ from) starting ending needs_update =
    let moved_past =
      absorb file_update
        (it ∷ insert_before (entry starting it.first false needs_update) before (it ∷ from)) from
        it.second.ending_index ending file_update in
    let merged =
      absorb file_update before from starting
        (if ltb ending it.second.ending_index then it.second.ending_index else ending)
        (if it.second.file_needs_update then true else needs_update) in
    if leb it.first ending
    then if it.second.reserved then moved_past else merged
    else add_region before (it ∷ from) starting ending needs_update

-- `newFreeSpaceArea` once `lower_bound` has found the cursor: first the entry in front of it.
unfoldable pub merge_previous : List Entry → List Entry → ℕ → ℕ → Bool → FreeMap
unfolding absorb close
merge_previous [] from starting ending file_update =
    absorb file_update [] from starting ending file_update
merge_previous (previous ∷ before) from starting ending file_update =
    if leb ending previous.second.ending_index
    then close (previous ∷ before) from
    else if leb starting previous.second.ending_index
    then if previous.second.reserved
      then absorb file_update (previous ∷ before) from previous.second.ending_index ending
          file_update
      else absorb file_update before from previous.first ending
          (previous.second.file_needs_update || file_update)
    else absorb file_update (previous ∷ before) from starting ending file_update

unfoldable pub new_free_space_area : ℕ → ℕ → Bool → FreeMap → FreeMap
unfolding merge_previous lower_bound_from
new_free_space_area starting area_size file_update m =
    let c = lower_bound_from starting [] m in
    merge_previous c.before c.from starting (add32 starting area_size) file_update

-- The search of `reserveFreeSpaceArea` for a usable region, from the cursor on.
unfoldable pub is_unusable : ℕ → ℕ → Entry → Bool
is_unusable starting minimum it =
    it.second.reserved
    || ltb (sub32 it.second.ending_index it.first) minimum
    || ltb it.second.ending_index (add32 starting minimum)

unfoldable pub find_usable : ℕ → ℕ → List Entry → List Entry → Cursor
unfolding is_unusable
find_usable starting minimum before [] = record { before = before; from = [] }
find_usable starting minimum before (it ∷ from) =
    if is_unusable starting minimum it
    then find_usable starting minimum (it ∷ before) from
    else record { before = before; from = it ∷ from }

-- One entry back, where `lower_bound` went past a region that may hold the index.
unfoldable pub step_back : ℕ → List Entry → List Entry → Cursor
step_back starting [] from = record { before = []; from = from }
step_back starting (p ∷ before) [] = record { before = before; from = p ∷ [] }
step_back starting (p ∷ before) (it ∷ from) =
    if ltb starting it.first
    then record { before = before; from = p ∷ it ∷ from }
    else record { before = p ∷ before; from = it ∷ from }

abbrev pub reserved_space : ℕ → ℕ → FreeSpace
reserved_space starting area_size = record {
  area = record { starting_index = starting; area_size = area_size };
  position = starting;
  currently_valid = true;
}

-- The entries that a usable region is split into, and where the allocation starts and ends.
abbrev pub allocation_start : ℕ → Entry → ℕ
allocation_start starting it = if ltb it.first starting then starting else it.first

abbrev pub allocation_end : ℕ → ℕ → Entry → ℕ
allocation_end starting desired it =
    if ltb (add32 (allocation_start starting it) desired) it.second.ending_index
    then add32 (allocation_start starting it) desired
    else it.second.ending_index

abbrev pub right_part : ℕ → ℕ → Entry → List Entry → List Entry
right_part starting desired it from =
    if ltb (add32 (allocation_start starting it) desired) it.second.ending_index
    then entry (allocation_end starting desired it) it.second.ending_index false true ∷ from
    else from

unfoldable pub split_region : ℕ → ℕ → Entry → List Entry → List Entry
split_region starting desired it from =
    if ltb it.first starting
    then entry it.first (allocation_start starting it) it.second.reserved true
      ∷ entry (allocation_start starting it) (allocation_end starting desired it) true true
      ∷ right_part starting desired it from
    else entry it.first (allocation_end starting desired it) true true
      ∷ right_part starting desired it from

-- `freeMap.insert` by key, for the region that is added at the end of the file.
unfoldable pub insert_entry : Entry → FreeMap → FreeMap
insert_entry e [] = e ∷ []
insert_entry e (f ∷ m) =
    if ltb f.first e.first
    then f ∷ insert_entry e m
    else if f.first == e.first
    then f ∷ m
    else e ∷ f ∷ m

unfoldable pub allocate : ℕ → ℕ → ℕ → FreeMap → Cursor → FreeMap × FreeSpace
unfolding split_region insert_entry close
allocate starting desired file_size m c = elim c.from [
  | [] ↦ (
    insert_entry
        (entry (to_file_index file_size) (add32 (to_file_index file_size) desired) true true) m,
    reserved_space (to_file_index file_size) desired,
  )
  | it ∷ from ↦ (
    close c.before (split_region starting desired it from),
    reserved_space (allocation_start starting it)
        (sub32 (allocation_end starting desired it) (allocation_start starting it)),
  )
]

unfoldable pub usable_cursor : ℕ → ℕ → FreeMap → Cursor
unfolding find_usable step_back lower_bound_from
usable_cursor starting minimum m =
    let c = lower_bound_from starting [] m in
    let b = step_back starting c.before c.from in find_usable starting minimum b.before b.from

unfoldable pub reserve_free_space_area : ℕ → ℕ → ℕ → ℕ → FreeMap → FreeMap × FreeSpace
unfolding allocate usable_cursor
reserve_free_space_area starting minimum desired file_size m =
    allocate starting (if desired == 0 then minimum else desired) file_size m
      (usable_cursor starting minimum m)

-- `releaseReservation`. The cursor stands at the entry of the reservation; `erase` takes it out.
unfoldable pub merge_next : List Entry → ℕ → ℕ → List Entry → FreeMap
unfolding close
merge_next before first ending [] = close before (entry first ending false true ∷ [])
merge_next before first ending (next ∷ from) =
    if is_available next.second && leb next.first ending
    then close before (entry first next.second.ending_index false true ∷ from)
    else close before (entry first ending false true ∷ next ∷ from)

unfoldable pub merge_released : List Entry → ℕ → ℕ → List Entry → FreeMap
unfolding merge_next
merge_released [] first ending from = merge_next [] first ending from
merge_released (previous ∷ before) first ending from =
    if is_available previous.second && leb first previous.second.ending_index
    then merge_next before previous.first ending from
    else merge_next (previous ∷ before) first ending from

unfoldable pub release_at : ℕ → FreeSpace → List Entry → List Entry → FreeMap
unfolding merge_released close
release_at file_size s before [] = close before []
release_at file_size s before (released ∷ from) =
    if (s.area.area_size == 0) || leb (to_file_index file_size) s.area.starting_index
    then close before from
    else merge_released before s.area.starting_index released.second.ending_index from

unfoldable pub release_reservation : ℕ → FreeSpace → FreeMap → FreeMap
unfolding release_at lower_bound_from
release_reservation file_size s m =
    let c = lower_bound_from s.position [] m in release_at file_size s c.before c.from

unfoldable pub number_free_space_regions : FreeMap → ℕ
number_free_space_regions [] = 0
number_free_space_regions (e ∷ m) = number_free_space_regions m + 1

unfoldable pub number_reservations : FreeMap → ℕ
number_reservations [] = 0
number_reservations (e ∷ m) =
    if e.second.reserved then number_reservations m + 1 else number_reservations m

-- `flushFreeSpace`, over what `flushArea` does to the rest of the program's state `S`. The result is
-- the map, that state, and whether every flush was a success.
module _ {ℓ} {S : Type ℓ} (flush_area : ContainerArea → S → S × Bool) where
  -- The entry with its flag taken off, the state after the call, and its answer.
  abbrev pub flushed : Entry → S × Bool → Entry × S × Bool
  flushed e (s, done) =
      (record e { second = record e.second { file_needs_update = false } }, s, done)

  unfoldable pub flush_entry : Bool → Entry → S → Entry × S × Bool
  flush_entry flush_all e s =
      if flush_all || e.second.file_needs_update
      then flushed e (
          flush_area
            (record { starting_index = e.first; area_size = sub32 e.second.ending_index e.first })
            s)
      else (e, s, true)

  unfoldable pub flush_free_space : Bool → FreeMap → S → FreeMap × S × Bool
  unfolding flush_entry
  flush_free_space flush_all [] s = ([], s, true)
  flush_free_space flush_all (e ∷ m) s =
      let (e', s', done) = flush_entry flush_all e s in
      let (m', s'', all_done) = flush_free_space flush_all m s' in
      if done then (e' ∷ m', s'', all_done) else (e' ∷ m, s', false)

-- `clearFreeSpace`.
abbrev pub clear_free_space : FreeMap → FreeMap
clear_free_space m = []
