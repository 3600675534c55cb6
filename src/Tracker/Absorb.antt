-- ===== src/Tracker/Absorb.antt =====
-- The loop of `newFreeSpaceArea`: it frees the cells from one index up to another, past the
-- reserved entries and through the free ones.
use inecontainer.Prelude.{
  ℕ, ◌+◌, ◌≤◌, ◌<◌, ◌≡◌, refl, sym, ◌∙◌, Bool, true, false, ◌&&◌, List, [], ◌∷◌, ltb, leb, ◌==◌,
  if◌then◌else◌, ltb→lt, leb→le, ne→==, Bool-cases, inl, inr, arith,
}
use inecontainer.Area.{is_available}
use inecontainer.Tracker.{Entry, FreeMap, entry, insert_before, add_region, absorb}
use inecontainer.Tracker.Cells.{
  Cell, used, free, held, cell_at, or_used, gap, Asc, Desc, IsWellFormed, At, close-IsWellFormed,
  Desc-out, Asc-out, cell_at-close,
}

-- An unused cell from `s` up to `e` becomes free.
abbrev pub freed : ℕ → ℕ → ℕ → Cell → Cell
freed s e i used = if leb s i && ltb i e then free else used
freed s e i free = free
freed s e i held = held

-- The entries before a point at which an available region may start.
abbrev pub Room : List Entry → ℕ → Type 0
Room before s = Desc s true before

-- What an operation on a cursor must make of its map.
pub record Painted (before from : List Entry) (s e : ℕ) (m : FreeMap) : Type 0 where
  pub well_formed : IsWellFormed m
  pub cells : (i : ℕ) → cell_at m i ≡ freed s e i (or_used (cell_at before i) (cell_at from i))

pub gap-le : (x y : Bool) → gap x y ≤ gap x true
gap-le true true = omega arith
gap-le true false = omega arith
gap-le false y = omega arith

-- A lower bound may be lowered.
pub Asc-weaken :
    (b b' : ℕ) (av av' : Bool) (from : List Entry)
    → b' + gap av' true ≤ b
    → Asc b av from
    → Asc b' av' from
Asc-weaken b b' av av' [] le h = tt
Asc-weaken b b' av av' (e ∷ from) le h =
    (omega (arith, gap-le av' (is_available e.second)), h.1, h.2)

Room-At : (before from : List Entry) (s : ℕ) → Room before s → Asc s false from → At before from
Room-At [] from s h k = Asc-weaken s 0 false false from (omega arith) k
Room-At (e ∷ before) from s h k =
    (h.1, h.2, Asc-weaken s e.second.ending_index false (is_available e.second) from h.0 k)

freed_empty : (s e i : ℕ) (c : Cell) → e ≤ s → freed s e i c ≡ c
freed_empty s e i used le = ground arith
freed_empty s e i free le = refl
freed_empty s e i held le = refl

freed_outside : (s e i : ℕ) (c : Cell) → (leb s i && ltb i e) ≡ false → freed s e i c ≡ c
freed_outside s e i used out = rw out
freed_outside s e i free out = refl
freed_outside s e i held out = refl

-- A region that ends before the next entry starts is inserted.
insert_fresh :
    (s e : ℕ) (upd : Bool) (before from : List Entry)
    → s < e
    → Asc e true from
    → insert_before (entry s e false upd) before from ≡ entry s e false upd ∷ before
unfolding insert_before
insert_fresh s e upd before [] lt a = refl
insert_fresh s e upd before (f ∷ from) lt a = rw (ne→== f.first s (omega (arith, a.0)))

pub new_region_cells :
    (before from : List Entry) (s e i : ℕ) (upd : Bool)
    → Room before s
    → Asc e true from
    → or_used (cell_at (entry s e false upd ∷ before) i) (cell_at from i)
      ≡ freed s e i (or_used (cell_at before i) (cell_at from i))
new_region_cells before from s e i upd r a = elim (Bool-cases (leb s i && ltb i e)) [
  | inl inside ↦ ground (arith, Desc-out before s true i r, Asc-out from e true i a)
  | inr outside ↦ rw outside (sym (freed_outside s e i _ outside))
]

add_region-Painted :
    (before from : List Entry) (s e : ℕ) (upd : Bool)
    → Room before s
    → Asc s false from
    → (s < e → Asc e true from)
    → Painted before from s e (add_region before from s e upd)
unfolding add_region
add_region-Painted before from s e upd r a room = elim (Bool-cases (ltb s e)) [
  | inr none_left ↦ rw none_left (record {
    well_formed = close-IsWellFormed before from (Room-At before from s r a);
    cells = λ i.
        cell_at-close before from i (Room-At before from s r a)
        ∙ sym (freed_empty s e i _ (ground arith));
  })
  | inl some_left ↦
      let lt : s < e = ltb→lt s e some_left in
      rw (some_left, insert_fresh s e upd before from lt (room lt))
        (record {
          well_formed = close-IsWellFormed (entry s e false upd ∷ before) from (lt, r, room lt);
          cells = λ i.
              cell_at-close (entry s e false upd ∷ before) from i (lt, r, room lt)
              ∙ new_region_cells before from s e i upd r (room lt);
        })
]

Desc-weaken : (b b' : ℕ) (before : List Entry) → b ≤ b' → Desc b true before → Desc b' false before
Desc-weaken b b' [] le h = tt
Desc-weaken b b' (e ∷ before) le h = (omega (arith, none_wanted (is_available e.second)), h.1, h.2)
  where
    none_wanted : (x : Bool) → gap x false ≡ 0
    none_wanted true = refl
    none_wanted false = refl

-- Passing a reserved entry: the gap in front of it is filled, and the area goes on behind it.
module _ (it : Entry) (before from : List Entry) (s e : ℕ) (upd : Bool) where
  passed : List Entry
  passed = it ∷ insert_before (entry s it.first false upd) before (it ∷ from)

  passed-Room :
      it.second.reserved ≡ true
      → Room before s
      → Asc s false (it ∷ from)
      → Room passed it.second.ending_index
  unfolding passed insert_before
  passed-Room res r a = elim (Bool-cases (it.first == s)) [
    | inl same ↦ rw (same, res) (omega arith, a.1, Desc-weaken s it.first before (ground arith) r)
    | inr new ↦ rw (new, res) (omega arith, a.1, (omega arith, ground arith, r))
  ]

  passed_cells :
      (i : ℕ)
      → it.second.reserved ≡ true
      → it.first ≤ e
      → Room before s
      → Asc s false (it ∷ from)
      → freed it.second.ending_index e i (or_used (cell_at passed i) (cell_at from i))
        ≡ freed s e i (or_used (cell_at before i) (cell_at (it ∷ from) i))
  unfolding passed insert_before
  passed_cells i res le r a = elim (Bool-cases (it.first == s)) [
    | inl same ↦ rw same (ground (arith, out_before, out_from))
    | inr new ↦ rw new (ground (arith, out_before, out_from))
  ]
    where
      out_before : s ≤ i → cell_at before i ≡ used
      out_before = Desc-out before s true i r

      out_from : i < it.second.ending_index → cell_at from i ≡ used
      out_from = Asc-out from it.second.ending_index (is_available it.second) i a.2

-- Merging an available entry: its cells are free already.
merged_cells :
    (it : Entry) (before from : List Entry) (s e i : ℕ)
    → it.second.reserved ≡ false
    → it.first ≤ e
    → Room before s
    → Asc s false (it ∷ from)
    → freed s
        (if ltb e it.second.ending_index then it.second.ending_index else e)
        i
        (or_used (cell_at before i) (cell_at from i))
      ≡ freed s e i (or_used (cell_at before i) (cell_at (it ∷ from) i))
merged_cells it before from s e i av le r a = ground (
  arith,
  Desc-out before s true i r,
  Asc-out from it.second.ending_index (is_available it.second) i a.2,
)

absorb-passed :
    (file_update upd : Bool) (it : Entry) (before from : List Entry) (s e : ℕ)
    → leb it.first e ≡ true
    → it.second.reserved ≡ true
    → absorb file_update before (it ∷ from) s e upd
      ≡ absorb file_update (passed it before from s e upd) from it.second.ending_index e file_update
unfolding absorb passed
absorb-passed file_update upd it before from s e within res = simp (within, res)

absorb-merged :
    (file_update upd : Bool) (it : Entry) (before from : List Entry) (s e : ℕ)
    → leb it.first e ≡ true
    → it.second.reserved ≡ false
    → absorb file_update before (it ∷ from) s e upd
      ≡ absorb file_update before from s
          (if ltb e it.second.ending_index then it.second.ending_index else e)
          (if it.second.file_needs_update then true else upd)
unfolding absorb
absorb-merged file_update upd it before from s e within av = simp (within, av)

absorb-beyond :
    (file_update upd : Bool) (it : Entry) (before from : List Entry) (s e : ℕ)
    → leb it.first e ≡ false
    → absorb file_update before (it ∷ from) s e upd ≡ add_region before (it ∷ from) s e upd
unfolding absorb
absorb-beyond file_update upd it before from s e beyond = simp beyond

-- The loop frees the cells from `s` to `e`, wherever the reserved entries lie.
pub absorb-Painted :
    (file_update : Bool) (before from : List Entry) (s e : ℕ) (upd : Bool)
    → Room before s
    → Asc s false from
    → Painted before from s e (absorb file_update before from s e upd)
absorb-Painted file_update before [] s e upd r a =
    unfold absorb in add_region-Painted before [] s e upd r a (λ lt. tt)
absorb-Painted file_update before (it ∷ from) s e upd r a = elim (Bool-cases (leb it.first e)) [
  | inr beyond ↦ rw (absorb-beyond file_update upd it before from s e beyond) (
      add_region-Painted before (it ∷ from) s e upd r a
        (λ lt. (beyond_gap (is_available it.second) (ground arith), a.1, a.2)))
  | inl within ↦ elim (Bool-cases it.second.reserved) [
    | inl res ↦
        let p : Painted (passed it before from s e upd) from it.second.ending_index e _ =
          absorb-Painted file_update (passed it before from s e upd) from it.second.ending_index e
            file_update (passed-Room it before from s e upd res r a)
            (Asc-weaken it.second.ending_index it.second.ending_index (is_available it.second) false
              from (omega arith) a.2) in
        rw (absorb-passed file_update upd it before from s e within res) (record {
          well_formed = p.well_formed;
          cells = λ i.
              p.cells i ∙ passed_cells it before from s e upd i res (leb→le it.first e within) r a;
        })
    | inr av ↦
        let p : Painted before from s
            (if ltb e it.second.ending_index then it.second.ending_index else e) _ =
          absorb-Painted file_update before from s
            (if ltb e it.second.ending_index then it.second.ending_index else e)
            (if it.second.file_needs_update then true else upd) r
            (Asc-weaken it.second.ending_index s (is_available it.second) false from (omega arith)
              a.2) in
        rw (absorb-merged file_update upd it before from s e within av) (record {
          well_formed = p.well_formed;
          cells =
              λ i. p.cells i ∙ merged_cells it before from s e i av (leb→le it.first e within) r a;
        })
  ]
]
  where
    beyond_gap : (x : Bool) → e < it.first → e + gap true x ≤ it.first
    beyond_gap true lt = omega arith
    beyond_gap false lt = omega arith
