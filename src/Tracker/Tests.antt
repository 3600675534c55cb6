-- ===== src/Tracker/Tests.antt =====
-- A map with a free and a reserved region, in a file of 64 units.
use inecontainer.Prelude.{◌≤◌, ◌⊎◌, ℕ, ◌+◌, ◌<◌, ◌≡◌, refl, Bool, true, false, List, [], ◌∷◌, arith}
use inecontainer.Header.{to_file_index}
use inecontainer.Area.{ContainerArea, FreeSpace}
use inecontainer.Tracker.{
  FreeMap, entry, lower_bound_from, new_free_space_area, reserve_free_space_area,
  release_reservation, flush_free_space, number_reservations,
}
use inecontainer.Tracker.Cells.{IsWellFormed, cell_at}
use inecontainer.Tracker.Absorb.{freed}
use inecontainer.Tracker.Add.{new_free_space_area_lem}
use inecontainer.Tracker.Lookup.{lookup}
use inecontainer.Tracker.Extend.{EndsWithin, Reserved}
use inecontainer.Tracker.Reserve.{reserve_free_space_area_lem}
use inecontainer.Tracker.Release.{released_cell, release_reservation_lem}
use inecontainer.Tracker.RoundTrip.{release_reservation-reserve_free_space_area}
use inecontainer.Tracker.Flush.{Flushes, flush_free_space_lem}

-- Units 4 to 11 are free, and 20 to 27 are reserved.
abbrev two_regions : FreeMap
two_regions = entry 4 12 false true ∷ entry 20 28 true true ∷ []

two_regions-IsWellFormed : IsWellFormed two_regions
two_regions-IsWellFormed = (omega arith, omega arith, (omega arith, omega arith, tt))

abbrev file_size : ℕ
file_size = 2048

two_regions-EndsWithin : EndsWithin (to_file_index file_size) two_regions
unfolding to_file_index
two_regions-EndsWithin = (omega arith, (omega arith, tt))

eof_small : (n : ℕ) → n < 100 → to_file_index file_size + n < 4294967296
unfolding to_file_index
eof_small n lt = omega arith

-- An area that touches the free region and goes round the reserved one.
new_free_space_area_example :
    IsWellFormed (new_free_space_area 10 20 true two_regions)
    × ((i : ℕ)
        → cell_at (new_free_space_area 10 20 true two_regions) i
          ≡ freed 10 (10 + 20) i (cell_at two_regions i))
new_free_space_area_example =
    new_free_space_area_lem 10 20 true two_regions two_regions-IsWellFormed (omega arith)

new_free_space_area_run :
    new_free_space_area 10 20 true two_regions
    ≡ entry 4 20 false true ∷ entry 20 28 true true ∷ entry 28 30 false true ∷ []
unfolding new_free_space_area
new_free_space_area_run = refl

-- The loop of `newFreeSpaceArea` asserts that the entries behind the insertion point start behind the
-- area. An area that starts where a region is tracked does not meet that.
assertion_fails :
    lower_bound_from 20 [] two_regions
    ≡ record { before = entry 4 12 false true ∷ []; from = entry 20 28 true true ∷ [] }
unfolding lower_bound_from
assertion_fails = refl

reserve_free_space_area_example :
    let (m', r) = reserve_free_space_area 6 2 3 file_size two_regions in
    Reserved 2 3 (to_file_index file_size) two_regions m' r
    × ((6 ≤ r.area.starting_index) ⊎ (r.area.starting_index ≡ to_file_index file_size))
reserve_free_space_area_example =
    reserve_free_space_area_lem 6 2 3 file_size two_regions two_regions-IsWellFormed
      two_regions-EndsWithin (omega arith) (omega arith) (eof_small 3 (omega arith)) (omega arith)

-- Two units of the reserved region are used up.
abbrev partly_used : FreeSpace
partly_used = record {
  area = record { starting_index = 22; area_size = 6 };
  position = 20;
  currently_valid = true;
}

release_reservation_example :
    IsWellFormed (release_reservation file_size partly_used two_regions)
    × ((i : ℕ)
        → cell_at (release_reservation file_size partly_used two_regions) i
          ≡ released_cell (to_file_index file_size) 20 22 28 i (cell_at two_regions i))
release_reservation_example =
    release_reservation_lem file_size partly_used
      (record { ending_index = 28; reserved = true; file_needs_update = true }) two_regions
      two_regions-IsWellFormed (unfold lookup in refl) refl (omega arith) refl

round_trip_example :
    IsWellFormed (
      release_reservation file_size
        (reserve_free_space_area 6 2 3 file_size two_regions).1
        (reserve_free_space_area 6 2 3 file_size two_regions).0)
    × ((i : ℕ)
        → cell_at
            (release_reservation file_size
              (reserve_free_space_area 6 2 3 file_size two_regions).1
              (reserve_free_space_area 6 2 3 file_size two_regions).0)
            i
          ≡ cell_at two_regions i)
round_trip_example =
    release_reservation-reserve_free_space_area 6 2 3 file_size two_regions two_regions-IsWellFormed
      two_regions-EndsWithin (omega arith) (omega arith) (eof_small 3 (omega arith)) (omega arith)

abbrev log_area : ContainerArea → List ContainerArea → List ContainerArea × Bool
log_area a s = (a ∷ s, true)

flush_free_space_example :
    Flushes log_area false two_regions [] (flush_free_space log_area false two_regions [])
flush_free_space_example = flush_free_space_lem log_area false two_regions []

-- A file that does not grow hands out its end twice: the second reservation finds the first one's
-- entry under its key.
end_reserved_twice :
    number_reservations
      (reserve_free_space_area 0 1 4 file_size (reserve_free_space_area 0 1 4 file_size []).0).0
    ≡ 1
unfolding number_reservations reserve_free_space_area to_file_index
end_reserved_twice = refl
