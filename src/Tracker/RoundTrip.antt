-- ===== src/Tracker/RoundTrip.antt =====
-- A reservation that is released without being used: `reserveFreeSpaceArea`, then
-- `releaseReservation`.
use inecontainer.Prelude.{
  ℕ, ◌+◌, ◌≤◌, ◌<◌, ◌≡◌, List, [], ◌∷◌, refl, ◌∙◌, ◌==◌, if◌then◌else◌, ◌⊎◌, arith,
}
use inecontainer.Header.{to_file_index}
use inecontainer.Area.{FreeSpace}
use inecontainer.Tracker.{
  Entry, allocate, usable_cursor, FreeMap, reserve_free_space_area, release_reservation,
}
use inecontainer.Tracker.Cells.{Cell, used, free, cell_at, IsWellFormed}
use inecontainer.Tracker.Split.{held_in}
use inecontainer.Tracker.Extend.{EndsWithin, EndsWithin-used, Reserved}
use inecontainer.Tracker.Reserve.{reserve_free_space_area_lem}
use inecontainer.Tracker.Release.{released_cell, release_reservation_lem}

allocated_position :
    (starting desired file_size : ℕ) (m : FreeMap) (before from : List Entry)
    → (allocate starting desired file_size m (record { before = before; from = from })).1.position
      ≡ (allocate starting desired file_size m
          (record { before = before; from = from })).1.area.starting_index
unfolding allocate
allocated_position starting desired file_size m before [] = refl
allocated_position starting desired file_size m before (it ∷ from) = refl

-- The area of a reservation starts at its key.
reserved_position :
    (starting minimum desired file_size : ℕ) (m : FreeMap)
    → (reserve_free_space_area starting minimum desired file_size m).1.position
      ≡ (reserve_free_space_area starting minimum desired file_size m).1.area.starting_index
unfolding reserve_free_space_area
reserved_position starting minimum desired file_size m =
    allocated_position starting (if desired == 0 then minimum else desired) file_size m
      (usable_cursor starting minimum m).before (usable_cursor starting minimum m).from

released_held :
    (eof s e i : ℕ) (c : Cell)
    → (s ≤ i → i < e → (c ≡ free) ⊎ (eof ≤ s))
    → (eof ≤ i → c ≡ used)
    → released_cell eof s s e i (held_in s e i c) ≡ c
released_held eof s e i c h k = ground (arith, h, k)

-- Under the conditions of a reservation, releasing it at once, unused, gives every cell of the file
-- the state that it had before the reservation, and a well-formed map.
pub release_reservation-reserve_free_space_area :
    (starting minimum desired file_size : ℕ) (m : FreeMap)
    → IsWellFormed m
    → EndsWithin (to_file_index file_size) m
    → 0 < minimum
    → minimum ≤ (if desired == 0 then minimum else desired)
    → to_file_index file_size + (if desired == 0 then minimum else desired) < 4294967296
    → starting + minimum < 4294967296
    → IsWellFormed (
        release_reservation file_size
          (reserve_free_space_area starting minimum desired file_size m).1
          (reserve_free_space_area starting minimum desired file_size m).0)
      × ((i : ℕ)
          → cell_at
              (release_reservation file_size
                (reserve_free_space_area starting minimum desired file_size m).1
                (reserve_free_space_area starting minimum desired file_size m).0)
              i
            ≡ cell_at m i)
release_reservation-reserve_free_space_area starting minimum desired file_size m w inside
      some_wanted le small start_small =
    (
      freed_again.0,
      λ i.
          freed_again.1 i
          ∙ rw (p, r.cells i)
              (released_held (to_file_index file_size) s.area.starting_index
                (s.area.starting_index + s.area.area_size) i (cell_at m i) (r.taken i)
                (EndsWithin-used (to_file_index file_size) m i inside)),
    )
  where
    s : FreeSpace
    s = (reserve_free_space_area starting minimum desired file_size m).1

    m' : FreeMap
    m' = (reserve_free_space_area starting minimum desired file_size m).0

    r :
        Reserved minimum
          (if desired == 0 then minimum else desired)
          (to_file_index file_size)
          m
          m'
          s
    r =
        (reserve_free_space_area_lem starting minimum desired file_size m w inside some_wanted le
          small start_small).0

    p : s.position ≡ s.area.starting_index
    p = reserved_position starting minimum desired file_size m

    freed_again :
        IsWellFormed (release_reservation file_size s m')
        × ((i : ℕ)
            → cell_at (release_reservation file_size s m') i
              ≡ released_cell
                  (to_file_index file_size)
                  s.position
                  s.area.starting_index
                  (s.area.starting_index + s.area.area_size)
                  i
                  (cell_at m' i))
    freed_again =
        release_reservation_lem file_size s _ m' r.well_formed r.entry_there refl (omega (arith, p))
          refl
