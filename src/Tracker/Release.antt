-- ===== src/Tracker/Release.antt =====
-- `releaseReservation`: what is left of a reservation becomes free again, what was used leaves the
-- map, and no other cell changes.
use inecontainer.Prelude.{
  ℕ, ◌+◌, ◌≤◌, ◌<◌, ◌≡◌, sym, ◌∙◌, ap, subst, Bool, true, false, not, ◌&&◌, ◌||◌, List, [], ◌∷◌,
  some, ltb, leb, ◌==◌, if◌then◌else◌, Bool-cases, inl, inr, arith,
}
use inecontainer.Header.{to_file_index}
use inecontainer.Area.{FreeSpaceData, FreeSpace, is_available}
use inecontainer.Tracker.{
  Entry, FreeMap, Cursor, entry, close, lower_bound_from, merge_next, merge_released, release_at,
  release_reservation,
}
use inecontainer.Tracker.Cells.{
  Cell, used, free, cell_at, or_used, gap, Asc, Desc, IsWellFormed, At, close-IsWellFormed,
  At-forth, Desc-out, Asc-out, cell_at-close, Bounded, lower_bound-Bounded,
}
use inecontainer.Tracker.Absorb.{freed, Painted, Room, Asc-weaken, new_region_cells}
use inecontainer.Tracker.Lookup.{lookup, lookup-close, found_entry}
use inecontainer.Tracker.Add.{from_available_cells}

-- A cell after the release of the reservation `[first, ending)`, of which the part from `start` on
-- is left.
abbrev pub released_cell : ℕ → ℕ → ℕ → ℕ → ℕ → Cell → Cell
released_cell eof first start ending i c =
    if leb first i && ltb i ending then if leb start i && ltb start eof then free else used else c

merge_next-Painted :
    (before from : List Entry) (s e : ℕ)
    → s < e
    → Room before s
    → Asc e false from
    → Painted before from s e (merge_next before s e from)
unfolding merge_next
merge_next-Painted before [] s e lt r a = record {
  well_formed = close-IsWellFormed (entry s e false true ∷ before) [] (lt, r, tt);
  cells = λ i.
      cell_at-close (entry s e false true ∷ before) [] i (lt, r, tt)
      ∙ new_region_cells before [] s e i true r tt;
}
merge_next-Painted before (next ∷ from) s e lt r a =
    elim (Bool-cases (is_available next.second && leb next.first e)) [
      | inl joins ↦
          let rest : Asc next.second.ending_index true from =
            subst (λ (b : Bool). Asc next.second.ending_index b from) (joined_available joins)
              a.2 in
          simp joins (record {
            well_formed =
                close-IsWellFormed (entry s next.second.ending_index false true ∷ before) from
                  (omega (arith, a.0, a.1), r, rest);
            cells = λ i.
                cell_at-close (entry s next.second.ending_index false true ∷ before) from i
                  (omega (arith, a.0, a.1), r, rest)
                ∙ ground (
                  arith,
                  a.0,
                  a.1,
                  joins,
                  Desc-out before s true i r,
                  Asc-out from next.second.ending_index true i rest,
                );
          })
      | inr apart ↦
          let here : Asc e true (next ∷ from) = (apart_gap apart, a.1, a.2) in
          simp apart (record {
            well_formed =
                close-IsWellFormed (entry s e false true ∷ before) (next ∷ from) (lt, r, here);
            cells = λ i.
                cell_at-close (entry s e false true ∷ before) (next ∷ from) i (lt, r, here)
                ∙ new_region_cells before (next ∷ from) s e i true r here;
          })
    ]
  where
    joined_available :
        (is_available next.second && leb next.first e) ≡ true → is_available next.second ≡ true
    joined_available joins = ground (arith, joins)

    apart_gap :
        (is_available next.second && leb next.first e) ≡ false
        → e + gap true (is_available next.second) ≤ next.first
    apart_gap apart = ground (arith, apart, a.0)

gap_one : (x : Bool) → gap x true ≤ 1
gap_one true = omega arith
gap_one false = omega arith

merge_released-Painted :
    (before from : List Entry) (s e : ℕ)
    → s < e
    → Desc s false before
    → Asc e false from
    → Painted before from s e (merge_released before s e from)
unfolding merge_released
merge_released-Painted [] from s e lt r a = merge_next-Painted [] from s e lt tt a
merge_released-Painted (prev ∷ before) from s e lt r a =
    elim (Bool-cases (is_available prev.second && leb s prev.second.ending_index)) [
      | inl joins ↦
          let p : Painted before from prev.first e _ =
            merge_next-Painted before from prev.first e (omega (arith, r.0, r.1))
              (subst (λ (b : Bool). Desc prev.first b before) (joined_available joins) r.2) a in
          simp joins (record {
            well_formed = p.well_formed;
            cells = λ i.
                p.cells i
                ∙ from_available_cells prev before from s e i (r.1, r.2, behind)
                    (omega (arith, r.0, r.1)) (ground (arith, joins)) (omega (arith, r.0))
                    (ground (arith, joins));
          })
      | inr apart ↦
          simp apart (merge_next-Painted (prev ∷ before) from s e lt (apart_gap apart, r.1, r.2) a)
    ]
  where
    joined_available :
        (is_available prev.second && leb s prev.second.ending_index) ≡ true
        → is_available prev.second ≡ true
    joined_available joins = ground (arith, joins)

    behind : Asc prev.second.ending_index (is_available prev.second) from
    behind =
        Asc-weaken e prev.second.ending_index false (is_available prev.second) from
          (omega (arith, r.0, gap_one (is_available prev.second))) a

    apart_gap :
        (is_available prev.second && leb s prev.second.ending_index) ≡ false
        → prev.second.ending_index + gap (is_available prev.second) true ≤ s
    apart_gap apart = ground (arith, apart, r.0)

erase-At : (it : Entry) (before from : List Entry) → At before (it ∷ from) → At before from
erase-At it [] from h =
    Asc-weaken it.second.ending_index 0 (is_available it.second) false from (omega arith) h.2
erase-At it (e ∷ before) from h = (
  d.1,
  d.2,
  Asc-weaken it.second.ending_index e.second.ending_index (is_available it.second)
      (is_available e.second) from (omega (arith, d.0, f.0, gap_one (is_available e.second))) f.2,
)
  where
    f : At (it ∷ e ∷ before) from
    f = At-forth it (e ∷ before) from h

    d : Desc it.first (is_available it.second) (e ∷ before)
    d = f.1

Desc-later :
    (b b' : ℕ) (av : Bool) (before : List Entry) → b ≤ b' → Desc b av before → Desc b' av before
Desc-later b b' av [] le h = tt
Desc-later b b' av (e ∷ before) le h = (omega (arith, h.0), h.1, h.2)

module _ (file_size : ℕ) (s : FreeSpace) (it : Entry) (before from : List Entry)
    (h : At before (it ∷ from)) (res : it.second.reserved ≡ true)
    (starts : it.first ≤ s.area.starting_index)
    (ends : s.area.starting_index + s.area.area_size ≡ it.second.ending_index) where
  abbrev start : ℕ
  start = s.area.starting_index

  out_before : (i : ℕ) → it.first ≤ i → cell_at before i ≡ used
  out_before i le =
      Desc-out before it.first (is_available it.second) i (At-forth it before from h).1 le

  out_from : (i : ℕ) → i < it.second.ending_index → cell_at from i ≡ used
  out_from i lt =
      Asc-out from it.second.ending_index (is_available it.second) i (At-forth it before from h).2
        lt

  taken_out : At before from
  taken_out = erase-At it before from h

  erased_cells :
      (i : ℕ)
      → (s.area.area_size == 0) || leb (to_file_index file_size) start ≡ true
      → or_used (cell_at before i) (cell_at from i)
        ≡ released_cell
            (to_file_index file_size)
            it.first
            start
            it.second.ending_index
            i
            (or_used (cell_at before i) (cell_at (it ∷ from) i))
  erased_cells i done = ground (arith, out_before i, out_from i)

  left_cells :
      (i : ℕ)
      → (s.area.area_size == 0) || leb (to_file_index file_size) start ≡ false
      → freed start it.second.ending_index i (or_used (cell_at before i) (cell_at from i))
        ≡ released_cell
            (to_file_index file_size)
            it.first
            start
            it.second.ending_index
            i
            (or_used (cell_at before i) (cell_at (it ∷ from) i))
  left_cells i left = ground (arith, out_before i, out_from i)

  -- What the release makes of the map.
  pub record Released (m' : FreeMap) : Type 0 where
    pub well_formed : IsWellFormed m'
    pub cells :
        (i : ℕ)
        → cell_at m' i
          ≡ released_cell
              (to_file_index file_size)
              it.first
              start
              it.second.ending_index
              i
              (or_used (cell_at before i) (cell_at (it ∷ from) i))

  release_at-Released : Released (release_at file_size s before (it ∷ from))
  unfolding release_at
  release_at-Released =
      elim (Bool-cases ((s.area.area_size == 0) || leb (to_file_index file_size) start)) [
        | inl done ↦ rw done (record {
          well_formed = close-IsWellFormed before from taken_out;
          cells = λ i. cell_at-close before from i taken_out ∙ erased_cells i done;
        })
        | inr left ↦
            let p : Painted before from start it.second.ending_index _ =
              merge_released-Painted before from start it.second.ending_index (ground (arith, left))
                (Desc-later it.first start false before starts (
                  subst (λ (b : Bool). Desc it.first (not b) before) res
                    (At-forth it before from h).1))
                (Asc-weaken it.second.ending_index it.second.ending_index (is_available it.second)
                  false from (omega arith) (At-forth it before from h).2) in
            rw left
              (record { well_formed = p.well_formed; cells = λ i. p.cells i ∙ left_cells i left })
      ]

-- A reservation of the map, of which an area at its end is left, is released: what was used of it
-- is not tracked any more, what is left becomes free if it starts before the end of the file, no
-- other cell changes, and the map stays well-formed.
pub release_reservation_lem :
    (file_size : ℕ) (s : FreeSpace) (d : FreeSpaceData) (m : FreeMap)
    → IsWellFormed m
    → lookup s.position m ≡ some d
    → d.reserved ≡ true
    → s.position ≤ s.area.starting_index
    → s.area.starting_index + s.area.area_size ≡ d.ending_index
    → IsWellFormed (release_reservation file_size s m)
      × ((i : ℕ)
          → cell_at (release_reservation file_size s m) i
            ≡ released_cell
                (to_file_index file_size)
                s.position
                s.area.starting_index
                d.ending_index
                i
                (cell_at m i))
unfolding release_reservation
release_reservation_lem file_size s d m w there res starts ends = rw f.1 (
  r.well_formed,
  λ i.
      r.cells i
      ∙ ap
          (released_cell (to_file_index file_size) s.position s.area.starting_index d.ending_index
            i)
          (sym (cell_at-close c.before (record { first = s.position; second = d } ∷ f.0) i here)
            ∙ ap (λ (l : List Entry). cell_at (close c.before l) i) (sym f.1)
            ∙ ap (λ (n : FreeMap). cell_at n i) b.same_map),
)
  where
    c : Cursor
    c = lower_bound_from s.position [] m

    b : Bounded s.position m c
    b = lower_bound-Bounded s.position m w

    f : (from : List Entry) × (c.from ≡ record { first = s.position; second = d } ∷ from)
    f = found_entry d s.position c.before c.from b.well_formed b.not_below (
        sym (lookup-close s.position c.before c.from b.below)
        ∙ ap (lookup s.position) b.same_map
        ∙ there)

    here : At c.before (record { first = s.position; second = d } ∷ f.0)
    here = subst (λ (l : List Entry). At c.before l) f.1 b.well_formed

    r :
        Released file_size s
          (record { first = s.position; second = d })
          c.before
          f.0
          here
          res
          starts
          ends
          (release_at file_size s c.before (record { first = s.position; second = d } ∷ f.0))
    r =
        release_at-Released file_size s (record { first = s.position; second = d }) c.before f.0
          here res starts ends
