-- ===== src/Tracker/Reserve.antt =====
-- `reserveFreeSpaceArea`: the area that it hands out was free or lies at the end of the file, and it
-- is reserved afterwards.
use inecontainer.Prelude.{
  ◌⊎◌, some, ==_iff, ne→==, refl, ℕ, ◌+◌, ◌-◌, ◌≤◌, ◌<◌, ◌≡◌, refl, sym, ◌∙◌, subst, Bool, true,
  false, not, List, [], ◌∷◌, ◌==◌, if◌then◌else◌, Bool-cases, ltb, inl, inr, arith,
}
use inecontainer.Prelude.Words.{add32, sub32}
use inecontainer.Header.{to_file_index}
use inecontainer.Area.{is_available}
use inecontainer.Tracker.Lookup.{lookup, lookup-close, Desc-KeysBelow}
use inecontainer.Tracker.Extend.{EndsWithin, Reserved, end_Reserved}
use inecontainer.Tracker.{
  Entry, FreeMap, Cursor, close, lower_bound_from, step_back, is_unusable, usable_cursor,
  allocation_start, allocation_end, split_region, allocate, reserve_free_space_area, reserved_space,
}
use inecontainer.Tracker.Cells.{
  Cell, used, free, cell_at, or_used, Asc, IsWellFormed, At, close-IsWellFormed, At-forth, Desc-out,
  cell_at-close, Bounded, lower_bound-Bounded,
}
use inecontainer.Tracker.Split.{
  held_in, Within, Usable, step_back-Within, find_usable-Within, no_wrap_lem, split_region-At,
  split_region-cells,
}

EndsWithin-close :
    (eof : ℕ) (before from : List Entry) → EndsWithin eof (close before from) → EndsWithin eof from
unfolding close
EndsWithin-close eof [] from w = w
EndsWithin-close eof (e ∷ before) from w = (EndsWithin-close eof before (e ∷ from) w).1

module _ (it : Entry) (before from : List Entry) (starting minimum desired eof : ℕ)
    (some_wanted : 0 < minimum) (le : minimum ≤ desired) (h : At before (it ∷ from))
    (usable : is_unusable starting minimum it ≡ false) (in_file : it.second.ending_index ≤ eof)
    (small : eof + desired < 4294967296) (start_small : starting + minimum < 4294967296) where
  av : it.second.reserved ≡ false
  av = unfold is_unusable in ground (arith, usable)

  lt : it.first < it.second.ending_index
  lt = (At-forth it before from h).0

  rest : Asc it.second.ending_index true from
  rest =
      subst (λ (b : Bool). Asc it.second.ending_index (not b) from) av (At-forth it before from h).2

  big : minimum ≤ it.second.ending_index - it.first
  big = unfold is_unusable in ground (arith, usable, lt)

  far : starting + minimum ≤ it.second.ending_index
  far = unfold is_unusable in ground (arith, usable)

  abbrev first_index : ℕ
  first_index = allocation_start starting it

  abbrev last_index : ℕ
  last_index = allocation_end starting desired it

  no_wrap : add32 first_index desired ≡ first_index + desired
  no_wrap =
      no_wrap_lem it from starting desired av lt (omega arith) (omega (arith, far)) (omega arith)
        rest

  start_bounds :
      (it.first ≤ first_index) × (first_index < last_index) × (last_index ≤ it.second.ending_index)
  start_bounds = ground (arith, no_wrap, lt, far)

  size_bounds : (minimum ≤ last_index - first_index) × (last_index ≤ first_index + desired)
  size_bounds = ground (arith, no_wrap, big, far)

  area_end : first_index + sub32 last_index first_index ≡ last_index
  area_end = omega (arith, start_bounds, in_file, small)

  area_free :
      (i : ℕ) → first_index ≤ i → i < last_index → cell_at (close before (it ∷ from)) i ≡ free
  area_free i ge below =
      cell_at-close before (it ∷ from) i h
      ∙ ground (
        arith,
        start_bounds.0,
        start_bounds.2,
        av,
        Desc-out before it.first (is_available it.second) i (At-forth it before from h).1,
      )

  cells_split :
      (i : ℕ)
      → cell_at (close before (split_region starting desired it from)) i
        ≡ held_in first_index last_index i (cell_at (close before (it ∷ from)) i)
  cells_split i =
      cell_at-close before (split_region starting desired it from) i (
        split_region-At it from starting desired av lt (omega arith) (omega (arith, far))
          (omega arith) rest before h)
      ∙ rw
          (
            cell_at-close before (it ∷ from) i h,
            split_region-cells it from starting desired av lt (omega arith) (omega (arith, far))
                (omega arith) rest i,
          )
          (under_before (cell_at before i) (cell_at (it ∷ from) i)
            (Desc-out before it.first (is_available it.second) i (At-forth it before from h).1))
    where
      under_before :
          (c d : Cell)
          → (it.first ≤ i → c ≡ used)
          → or_used c (held_in first_index last_index i d)
            ≡ held_in first_index last_index i (or_used c d)
      under_before c d out = ground (arith, start_bounds.0)

  held_there :
      lookup first_index (split_region starting desired it from)
      ≡ some (record { ending_index = last_index; reserved = true; file_needs_update = true })
  unfolding lookup split_region
  held_there = elim (Bool-cases (ltb it.first starting)) [
    | inl t ↦ simp (t, ne→== it.first starting (ground arith), (==_iff starting starting).1 refl)
    | inr f ↦ simp (f, (==_iff it.first it.first).1 refl)
  ]

  split_Reserved :
      Reserved minimum desired eof
        (close before (it ∷ from))
        (close before (split_region starting desired it from))
        (reserved_space
          (allocation_start starting it)
          (sub32 (allocation_end starting desired it) (allocation_start starting it)))
  split_Reserved = record {
    well_formed = close-IsWellFormed before (split_region starting desired it from) (
        split_region-At it from starting desired av lt (omega arith) (omega (arith, far))
          (omega arith) rest before h);
    cells = λ i. rw area_end (cells_split i);
    taken = λ i ge below. inl (area_free i ge (subst (λ (n : ℕ). i < n) area_end below));
    entry_there = rw area_end (
        lookup-close first_index before (split_region starting desired it from) (
          Desc-KeysBelow it.first first_index (is_available it.second) before
            (At-forth it before from h).1 start_bounds.0)
        ∙ held_there);
    enough = omega (arith, start_bounds, size_bounds, in_file, small);
    no_more = omega (arith, start_bounds, size_bounds, in_file, small);
  }

allocate-Reserved :
    (starting minimum desired file_size : ℕ) (m : FreeMap) (before from : List Entry)
    → IsWellFormed m
    → EndsWithin (to_file_index file_size) m
    → 0 < minimum
    → minimum ≤ desired
    → to_file_index file_size + desired < 4294967296
    → starting + minimum < 4294967296
    → Within m (record { before = before; from = from })
    → Usable starting minimum from
    → Reserved minimum desired
        (to_file_index file_size)
        m
        (allocate starting desired file_size m (record { before = before; from = from })).0
        (allocate starting desired file_size m (record { before = before; from = from })).1
unfolding allocate
allocate-Reserved starting minimum desired file_size m before [] w inside some_wanted le small
      start_small within usable =
    end_Reserved (to_file_index file_size) desired (omega arith) minimum m le small w inside
allocate-Reserved starting minimum desired file_size m before (it ∷ from) w inside some_wanted le
      small start_small within usable =
    subst
      (λ (n : FreeMap).
        Reserved minimum desired (to_file_index file_size) n
          (close before (split_region starting desired it from))
          (reserved_space (allocation_start starting it)
            (sub32 (allocation_end starting desired it) (allocation_start starting it))))
      within.same_map
      (split_Reserved it before from starting minimum desired (to_file_index file_size) some_wanted
        le within.well_formed usable
        (EndsWithin-close (to_file_index file_size) before (it ∷ from) (
          subst (λ (n : FreeMap). EndsWithin (to_file_index file_size) n) (sym within.same_map)
            inside)).0
        small start_small)

allocate-lowest :
    (starting desired file_size : ℕ) (m : FreeMap) (before from : List Entry)
    → let r = (allocate starting desired file_size m (record { before = before; from = from })).1 in
      (starting ≤ r.area.starting_index) ⊎ (r.area.starting_index ≡ to_file_index file_size)
unfolding allocate
allocate-lowest starting desired file_size m before [] = inr refl
allocate-lowest starting desired file_size m before (it ∷ from) = inl (ground arith)

-- In a well-formed map whose regions lie inside the file, for a minimum above zero that is not above the
-- desired size (zero desires the minimum), with the end of the file plus the desired size and the start
-- plus the minimum below 2^32: reserveFreeSpaceArea answers with an area of at least the minimum and at
-- most the desired size, whose cells all were free or which starts at or after the end of the file; it
-- starts at the lowest allowed index or behind it, or else at the end of the file. Afterwards these cells
-- are reserved, no other cell has changed, the map is well-formed and has an entry for the reservation.
pub reserve_free_space_area_lem :
    (starting minimum desired file_size : ℕ) (m : FreeMap)
    → IsWellFormed m
    → EndsWithin (to_file_index file_size) m
    → 0 < minimum
    → minimum ≤ (if desired == 0 then minimum else desired)
    → to_file_index file_size + (if desired == 0 then minimum else desired) < 4294967296
    → starting + minimum < 4294967296
    → let (m', r) = reserve_free_space_area starting minimum desired file_size m in
      Reserved minimum (if desired == 0 then minimum else desired) (to_file_index file_size) m m' r
      × ((starting ≤ r.area.starting_index) ⊎ (r.area.starting_index ≡ to_file_index file_size))
unfolding reserve_free_space_area usable_cursor
reserve_free_space_area_lem starting minimum desired file_size m w inside some_wanted le small
      start_small =
    (
      allocate-Reserved starting minimum (if desired == 0 then minimum else desired) file_size m
          (usable_cursor starting minimum m).before (usable_cursor starting minimum m).from w inside
          some_wanted le small start_small found.0 found.1,
      allocate-lowest starting (if desired == 0 then minimum else desired) file_size m
          (usable_cursor starting minimum m).before (usable_cursor starting minimum m).from,
    )
  where
    c : Cursor
    c = lower_bound_from starting [] m

    b : Bounded starting m c
    b = lower_bound-Bounded starting m w

    p : Within m (step_back starting c.before c.from)
    p = step_back-Within starting m c.before c.from b.same_map b.well_formed

    found :
        Within m (usable_cursor starting minimum m)
        × Usable starting minimum (usable_cursor starting minimum m).from
    found =
        find_usable-Within starting minimum m (step_back starting c.before c.from).before
          (step_back starting c.before c.from).from p.same_map p.well_formed
