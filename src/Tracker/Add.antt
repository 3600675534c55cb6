-- ===== src/Tracker/Add.antt =====
-- `newFreeSpaceArea`: the cells of the area become free, and nothing else changes.
use inecontainer.Prelude.{
  ℕ, ◌+◌, ◌≤◌, ◌<◌, ◌≡◌, sym, ◌∙◌, ap, subst, Bool, true, false, not, ◌||◌, List, [], ◌∷◌, leb,
  Bool-cases, inl, inr, arith,
}
use inecontainer.Prelude.Words.{add32}
use inecontainer.Area.{is_available}
use inecontainer.Tracker.{
  Entry, FreeMap, Cursor, merge_previous, new_free_space_area, lower_bound_from,
}
use inecontainer.Tracker.Cells.{
  cell_at, or_used, gap, Asc, Desc, IsWellFormed, At, close-IsWellFormed, Desc-out, Asc-out,
  cell_at-close, KeysBelow, StartsFrom, Bounded, lower_bound-Bounded,
}
use inecontainer.Tracker.Absorb.{freed, Painted, Asc-weaken, absorb-Painted}

Asc-raise :
    (b s : ℕ) (av : Bool) (from : List Entry) → Asc b av from → StartsFrom s from → Asc s false from
Asc-raise b s av [] h k = tt
Asc-raise b s av (e ∷ from) h k = (omega arith, h.1, h.2)

module _ (prev : Entry) (before from : List Entry) (s e i : ℕ) (h : At (prev ∷ before) from)
    (lt : prev.first < s) where
  contained_cells :
      e ≤ prev.second.ending_index
      → or_used (cell_at (prev ∷ before) i) (cell_at from i)
        ≡ freed s e i (or_used (cell_at (prev ∷ before) i) (cell_at from i))
  contained_cells le =
      ground (arith, Asc-out from prev.second.ending_index (is_available prev.second) i h.2)

  behind_reserved_cells :
      s ≤ prev.second.ending_index
      → freed prev.second.ending_index e i (or_used (cell_at (prev ∷ before) i) (cell_at from i))
        ≡ freed s e i (or_used (cell_at (prev ∷ before) i) (cell_at from i))
  behind_reserved_cells le =
      ground (arith, Asc-out from prev.second.ending_index (is_available prev.second) i h.2)

  pub from_available_cells :
      s ≤ prev.second.ending_index
      → prev.second.ending_index < e
      → prev.second.reserved ≡ false
      → freed prev.first e i (or_used (cell_at before i) (cell_at from i))
        ≡ freed s e i (or_used (cell_at (prev ∷ before) i) (cell_at from i))
  from_available_cells le lt' av = ground (
    arith,
    Asc-out from prev.second.ending_index (is_available prev.second) i h.2,
    Desc-out before prev.first (is_available prev.second) i h.1,
  )

merge_previous-Painted :
    (before from : List Entry) (s e : ℕ) (upd : Bool)
    → At before from
    → KeysBelow s before
    → StartsFrom s from
    → Painted before from s e (merge_previous before from s e upd)
unfolding merge_previous
merge_previous-Painted [] from s e upd h below up =
    absorb-Painted upd [] from s e upd tt (Asc-raise 0 s false from h up)
merge_previous-Painted (prev ∷ before) from s e upd h below up =
    elim (Bool-cases (leb e prev.second.ending_index)) [
      | inl contained ↦ simp contained (record {
        well_formed = close-IsWellFormed (prev ∷ before) from h;
        cells = λ i.
            cell_at-close (prev ∷ before) from i h
            ∙ contained_cells prev before from s e i h below.0 (ground arith);
      })
      | inr further ↦ elim (Bool-cases (leb s prev.second.ending_index)) [
        | inl touches ↦ elim (Bool-cases prev.second.reserved) [
          | inl res ↦
              let p : Painted (prev ∷ before) from prev.second.ending_index e _ =
                absorb-Painted upd (prev ∷ before) from prev.second.ending_index e upd
                  (no_gap res, h.0, h.1) (after_previous (omega arith)) in
              simp (further, touches, res)
                (record {
                  well_formed = p.well_formed;
                  cells = λ i.
                      p.cells i
                      ∙ behind_reserved_cells prev before from s e i h below.0 (ground arith);
                })
          | inr av ↦
              let p : Painted before from prev.first e _ =
                absorb-Painted upd before from prev.first e (prev.second.file_needs_update || upd)
                  (subst (λ (b : Bool). Desc prev.first (not b) before) av h.1)
                  (after_previous (omega (arith, h.0))) in
              simp (further, touches, av)
                (record {
                  well_formed = p.well_formed;
                  cells = λ i.
                      p.cells i
                      ∙ from_available_cells prev before from s e i h below.0 (ground arith)
                          (ground arith) av;
                })
        ]
        | inr apart ↦
            simp (further, apart)
              (absorb-Painted upd (prev ∷ before) from s e upd
                (apart_gap (is_available prev.second) (ground arith), h.0, h.1)
                (Asc-raise prev.second.ending_index s (is_available prev.second) from h.2 up))
      ]
    ]
  where
    no_gap :
        prev.second.reserved ≡ true
        → prev.second.ending_index + gap (is_available prev.second) true ≤ prev.second.ending_index
    no_gap res = rw res (omega arith)

    apart_gap :
        (x : Bool) → prev.second.ending_index < s → prev.second.ending_index + gap x true ≤ s
    apart_gap true lt = omega arith
    apart_gap false lt = omega arith

    after_previous : {b : ℕ} → b ≤ prev.second.ending_index → Asc b false from
    after_previous {b} le =
        Asc-weaken prev.second.ending_index b (is_available prev.second) false from (omega arith)
          h.2

-- In a well-formed map and for an area that ends below 2^32, in a build without assertions:
-- newFreeSpaceArea makes every cell of the area free that was not tracked before, whatever regions it
-- touches or overlaps; no other cell changes, reserved ones included, and the map stays well-formed: in
-- order, without overlap, and with touching free regions merged.
pub new_free_space_area_lem :
    (starting area_size : ℕ) (file_update : Bool) (m : FreeMap)
    → IsWellFormed m
    → starting + area_size < 4294967296
    → IsWellFormed (new_free_space_area starting area_size file_update m)
      × ((i : ℕ)
          → cell_at (new_free_space_area starting area_size file_update m) i
            ≡ freed starting (starting + area_size) i (cell_at m i))
unfolding new_free_space_area
new_free_space_area_lem starting area_size file_update m w small = rw no_wrap (
  p.well_formed,
  λ i.
      p.cells i
      ∙ ap (freed starting (starting + area_size) i) (
          sym (cell_at-close c.before c.from i b.well_formed)
          ∙ ap (λ (n : FreeMap). cell_at n i) b.same_map),
)
  where
    c : Cursor
    c = lower_bound_from starting [] m

    b : Bounded starting m c
    b = lower_bound-Bounded starting m w

    no_wrap : add32 starting area_size ≡ starting + area_size
    no_wrap = omega arith

    p :
        Painted c.before c.from starting
          (starting + area_size)
          (merge_previous c.before c.from starting (starting + area_size) file_update)
    p =
        merge_previous-Painted c.before c.from starting (starting + area_size) file_update
          b.well_formed b.below b.not_below
