-- ===== src/Tracker/Extend.antt =====
-- The reservation that `reserveFreeSpaceArea` adds at the end of the file, and what any reservation
-- promises.
use inecontainer.Prelude.{
  some, ==_iff, ne→==, refl, ℕ, ◌+◌, ◌≤◌, ◌<◌, ◌≡◌, refl, Bool, true, false, [], ◌∷◌, lt→ltb, inr,
  ◌⊎◌, arith,
}
use inecontainer.Prelude.Words.{add32}
use inecontainer.Area.{FreeSpace, is_available}
use inecontainer.Tracker.{FreeMap, entry, insert_entry, reserved_space}
use inecontainer.Tracker.Cells.{used, free, cell_at, Asc, IsWellFormed}
use inecontainer.Tracker.Split.{held_in}
use inecontainer.Tracker.Lookup.{lookup}

-- Every region ends at or before an index.
abbrev pub EndsWithin : ℕ → FreeMap → Type 0
EndsWithin eof [] = Unit
EndsWithin eof (e ∷ m) = (e.second.ending_index ≤ eof) × EndsWithin eof m

-- What a reservation promises, where `eof` is the index of the end of the file.
pub record Reserved (minimum desired eof : ℕ) (m m' : FreeMap) (s : FreeSpace) : Type 0 where
  pub well_formed : IsWellFormed m'
  pub cells :
      (i : ℕ)
      → cell_at m' i
        ≡ held_in s.area.starting_index (s.area.starting_index + s.area.area_size) i (cell_at m i)
  pub taken :
      (i : ℕ)
      → s.area.starting_index ≤ i
      → i < s.area.starting_index + s.area.area_size
      → (cell_at m i ≡ free) ⊎ (eof ≤ s.area.starting_index)
  pub entry_there :
      lookup s.position m'
      ≡ some (record {
        ending_index = s.area.starting_index + s.area.area_size;
        reserved = true;
        file_needs_update = true;
      })
  pub enough : minimum ≤ s.area.area_size
  pub no_more : s.area.area_size ≤ desired

module _ (eof desired : ℕ) (some_wanted : 0 < desired) where
  insert_entry-Asc :
      (m : FreeMap) (b : ℕ) (av : Bool)
      → b ≤ eof
      → Asc b av m
      → EndsWithin eof m
      → Asc b av (insert_entry (entry eof (eof + desired) true true) m)
  unfolding insert_entry
  insert_entry-Asc [] b true le h w = (omega arith, omega arith, tt)
  insert_entry-Asc [] b false le h w = (omega arith, omega arith, tt)
  insert_entry-Asc (e ∷ m) b av le h w =
      rw (lt→ltb e.first eof (omega (arith, h.1, w.0)))
        (h.0, h.1, insert_entry-Asc m e.second.ending_index (is_available e.second) w.0 h.2 w.1)

  insert_entry-cells :
      (m : FreeMap) (b : ℕ) (av : Bool) (i : ℕ)
      → Asc b av m
      → EndsWithin eof m
      → cell_at (insert_entry (entry eof (eof + desired) true true) m) i
        ≡ held_in eof (eof + desired) i (cell_at m i)
  unfolding insert_entry
  insert_entry-cells [] b av i h w = refl
  insert_entry-cells (e ∷ m) b av i h w =
      rw (lt→ltb e.first eof (omega (arith, h.1, w.0))) (
        ground
          (arith, insert_entry-cells m e.second.ending_index (is_available e.second) i h.2 w.1))

  insert_entry-lookup :
      (m : FreeMap) (b : ℕ) (av : Bool)
      → Asc b av m
      → EndsWithin eof m
      → lookup eof (insert_entry (entry eof (eof + desired) true true) m)
        ≡ some (record { ending_index = eof + desired; reserved = true; file_needs_update = true })
  unfolding insert_entry lookup
  insert_entry-lookup [] b av h w = rw ((==_iff eof eof).1 refl) refl
  insert_entry-lookup (e ∷ m) b av h w =
      rw (lt→ltb e.first eof (omega (arith, h.1, w.0)), ne→== e.first eof (omega (arith, h.1, w.0)))
        (insert_entry-lookup m e.second.ending_index (is_available e.second) h.2 w.1)

  pub end_Reserved :
      (minimum : ℕ) (m : FreeMap)
      → minimum ≤ desired
      → eof + desired < 4294967296
      → IsWellFormed m
      → EndsWithin eof m
      → Reserved minimum desired eof m
          (insert_entry (entry eof (add32 eof desired) true true) m)
          (reserved_space eof desired)
  end_Reserved minimum m le small h w = rw (no_wrap) (record {
    well_formed = insert_entry-Asc m 0 false (omega arith) h w;
    cells = λ i. insert_entry-cells m 0 false i h w;
    taken = λ i from below. inr (omega arith);
    entry_there = insert_entry-lookup m 0 false h w;
    enough = le;
    no_more = omega arith;
  })
    where
      no_wrap : add32 eof desired ≡ eof + desired
      no_wrap = omega arith

pub EndsWithin-used :
    (eof : ℕ) (m : FreeMap) (i : ℕ) → EndsWithin eof m → eof ≤ i → cell_at m i ≡ used
EndsWithin-used eof [] i w le = refl
EndsWithin-used eof (e ∷ m) i w le = ground (arith, EndsWithin-used eof m i w.1 le)
