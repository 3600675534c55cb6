-- ===== src/Tracker/Cells.antt =====
-- The free map as a colouring of the file's 32-byte cells, and the invariant of its entries: in
-- order, not overlapping, none empty, and no two available regions touching.
use inecontainer.Prelude.{
  ℕ, ◌+◌, ◌≤◌, ◌<◌, ◌≡◌, refl, ◌∙◌, Bool, true, false, ◌&&◌, List, [], ◌∷◌, ltb, leb, if◌then◌else◌,
  Bool-cases, inl, inr, arith,
}
use inecontainer.Area.{FreeSpaceData, is_available}
use inecontainer.Tracker.{Entry, FreeMap, Cursor, close, lower_bound_from}

-- What a cell of the file is to the tracker.
pub data Cell : Type 0 where
  used free held : Cell

abbrev pub region_cell : FreeSpaceData → Cell
region_cell d = if d.reserved then held else free

abbrev pub holds : Entry → ℕ → Bool
holds e i = leb e.first i && ltb i e.second.ending_index

abbrev pub cell_at : FreeMap → ℕ → Cell
cell_at [] i = used
cell_at (e ∷ m) i = if holds e i then region_cell e.second else cell_at m i

abbrev pub or_used : Cell → Cell → Cell
or_used used d = d
or_used free d = free
or_used held d = held

-- One cell of room is wanted between two available regions.
abbrev pub gap : Bool → Bool → ℕ
gap true true = 1
gap true false = 0
gap false b = 0

-- The entries from a point on, which a region (available or not) ends at.
abbrev pub Asc : ℕ → Bool → List Entry → Type 0
Asc b av [] = Unit
Asc b av (e ∷ m) =
    (b + gap av (is_available e.second) ≤ e.first)
    × (e.first < e.second.ending_index)
    × Asc e.second.ending_index (is_available e.second) m

-- The entries before a point, nearest first, which a region (available or not) starts at.
abbrev pub Desc : ℕ → Bool → List Entry → Type 0
Desc b av [] = Unit
Desc b av (e ∷ m) =
    (e.second.ending_index + gap (is_available e.second) av ≤ b)
    × (e.first < e.second.ending_index)
    × Desc e.first (is_available e.second) m

abbrev pub IsWellFormed : FreeMap → Type 0
IsWellFormed m = Asc 0 false m

-- A cursor in a well-formed map.
abbrev pub At : List Entry → List Entry → Type 0
At [] from = Asc 0 false from
At (e ∷ before) from =
    (e.first < e.second.ending_index)
    × Desc e.first (is_available e.second) before
    × Asc e.second.ending_index (is_available e.second) from

pub At-back : (e : Entry) (before from : List Entry) → At (e ∷ before) from → At before (e ∷ from)
At-back e [] from h = (zero-gap (is_available e.second), h.0, h.2)
  where
    zero-gap : (b : Bool) → 0 + gap false b ≤ e.first
    zero-gap b = omega arith
At-back e (f ∷ before) from h = (h.1.1, h.1.2, (h.1.0, h.0, h.2))

pub At-forth : (e : Entry) (before from : List Entry) → At before (e ∷ from) → At (e ∷ before) from
At-forth e [] from h = (h.1, tt, h.2)
At-forth e (f ∷ before) from h = (h.2.1, (h.2.0, h.0, h.1), h.2.2)

pub close-IsWellFormed :
    (before from : List Entry) → At before from → IsWellFormed (close before from)
unfolding close
close-IsWellFormed [] from h = h
close-IsWellFormed (e ∷ before) from h =
    close-IsWellFormed before (e ∷ from) (At-back e before from h)

-- Outside their range the entries say nothing of a cell.
pub Desc-out :
    (before : List Entry) (b : ℕ) (av : Bool) (i : ℕ)
    → Desc b av before
    → b ≤ i
    → cell_at before i ≡ used
Desc-out [] b av i h le = refl
Desc-out (e ∷ before) b av i h le =
    ground (arith, Desc-out before e.first (is_available e.second) i h.2)

pub Asc-out :
    (from : List Entry) (b : ℕ) (av : Bool) (i : ℕ) → Asc b av from → i < b → cell_at from i ≡ used
Asc-out [] b av i h lt = refl
Asc-out (e ∷ from) b av i h lt =
    ground (arith, Asc-out from e.second.ending_index (is_available e.second) i h.2)

pub cell_at-close :
    (before from : List Entry) (i : ℕ)
    → At before from
    → cell_at (close before from) i ≡ or_used (cell_at before i) (cell_at from i)
unfolding close
cell_at-close [] from i h = refl
cell_at-close (e ∷ before) from i h =
    cell_at-close before (e ∷ from) i (At-back e before from h) ∙ move
  where
    move :
        or_used (cell_at before i) (cell_at (e ∷ from) i)
        ≡ or_used (cell_at (e ∷ before) i) (cell_at from i)
    move = elim (Bool-cases (holds e i)) [
      | inl in_e ↦ ground (arith, Desc-out before e.first (is_available e.second) i h.1)
      | inr out ↦ rw out refl
    ]

-- Every key before the cursor is below the bound, and no key from it on is.
abbrev pub KeysBelow : ℕ → List Entry → Type 0
KeysBelow key [] = Unit
KeysBelow key (e ∷ before) = (e.first < key) × KeysBelow key before

abbrev pub StartsFrom : ℕ → List Entry → Type 0
StartsFrom key [] = Unit
StartsFrom key (e ∷ from) = key ≤ e.first

-- What `lower_bound` promises of the cursor that it returns.
pub record Bounded (key : ℕ) (m : FreeMap) (c : Cursor) : Type 0 where
  pub same_map : close c.before c.from ≡ m
  pub well_formed : At c.before c.from
  pub below : KeysBelow key c.before
  pub not_below : StartsFrom key c.from

lower_bound_from-Bounded :
    (key : ℕ) (before from : List Entry)
    → At before from
    → KeysBelow key before
    → Bounded key (close before from) (lower_bound_from key before from)
unfolding lower_bound_from close
lower_bound_from-Bounded key before [] h k = record {
  same_map = refl;
  well_formed = h;
  below = k;
  not_below = tt;
}
lower_bound_from-Bounded key before (e ∷ from) h k = elim (Bool-cases (ltb e.first key)) [
  | inl lt ↦
      rw lt
        (lower_bound_from-Bounded key (e ∷ before) from (At-forth e before from h) (ground arith))
  | inr ge ↦
      rw ge (record { same_map = refl; well_formed = h; below = k; not_below = ground arith })
]

pub lower_bound-Bounded :
    (key : ℕ) (m : FreeMap) → IsWellFormed m → Bounded key m (lower_bound_from key [] m)
unfolding close
lower_bound-Bounded key m h = lower_bound_from-Bounded key [] m h tt
