-- ===== src/Tracker/Split.antt =====
-- The search of `reserveFreeSpaceArea`, and the entries that it splits a usable region into.
use inecontainer.Prelude.{
  ℕ, ◌+◌, ◌≤◌, ◌<◌, ◌≡◌, refl, subst, Bool, true, false, not, ◌&&◌, List, [], ◌∷◌, ltb, leb,
  if◌then◌else◌, ltb→lt, Bool-cases, inl, inr, arith,
}
use inecontainer.Prelude.Words.{add32}
use inecontainer.Area.{is_available}
use inecontainer.Tracker.{
  Entry, FreeMap, Cursor, entry, close, step_back, find_usable, is_unusable, allocation_start,
  allocation_end, right_part, split_region,
}
use inecontainer.Tracker.Cells.{Cell, held, cell_at, gap, Asc, At, At-back, At-forth, Asc-out}
use inecontainer.Tracker.Absorb.{Asc-weaken, gap-le}

-- The cells of an area become held.
abbrev pub held_in : ℕ → ℕ → ℕ → Cell → Cell
held_in s e i c = if leb s i && ltb i e then held else c

-- A cursor somewhere in the map `m`.
pub record Within (m : FreeMap) (c : Cursor) : Type 0 where
  pub same_map : close c.before c.from ≡ m
  pub well_formed : At c.before c.from

-- What the search stops at, if not at the end of the map.
abbrev pub Usable : ℕ → ℕ → List Entry → Type 0
Usable starting minimum [] = Unit
Usable starting minimum (it ∷ from) = is_unusable starting minimum it ≡ false

pub step_back-Within :
    (starting : ℕ) (m : FreeMap) (before from : List Entry)
    → close before from ≡ m
    → At before from
    → Within m (step_back starting before from)
unfolding step_back close
step_back-Within starting m [] from e h = record { same_map = e; well_formed = h }
step_back-Within starting m (p ∷ before) [] e h = record {
  same_map = e;
  well_formed = At-back p before [] h;
}
step_back-Within starting m (p ∷ before) (it ∷ from) e h =
    elim (Bool-cases (ltb starting it.first)) [
      | inl t ↦ rw t (record { same_map = e; well_formed = At-back p before (it ∷ from) h })
      | inr f ↦ rw f (record { same_map = e; well_formed = h })
    ]

find_usable-skip :
    (starting minimum : ℕ) (before from : List Entry) (it : Entry)
    → is_unusable starting minimum it ≡ true
    → find_usable starting minimum before (it ∷ from)
      ≡ find_usable starting minimum (it ∷ before) from
unfolding find_usable
find_usable-skip starting minimum before from it t = simp t

find_usable-stop :
    (starting minimum : ℕ) (before from : List Entry) (it : Entry)
    → is_unusable starting minimum it ≡ false
    → find_usable starting minimum before (it ∷ from) ≡ record { before = before; from = it ∷ from }
unfolding find_usable
find_usable-stop starting minimum before from it f = simp f

pub find_usable-Within :
    (starting minimum : ℕ) (m : FreeMap) (before from : List Entry)
    → close before from ≡ m
    → At before from
    → Within m (find_usable starting minimum before from)
      × Usable starting minimum (find_usable starting minimum before from).from
find_usable-Within starting minimum m before [] e h =
    unfold find_usable in (record { same_map = e; well_formed = h }, tt)
find_usable-Within starting minimum m before (it ∷ from) e h =
    elim (Bool-cases (is_unusable starting minimum it)) [
      | inl t ↦ rw (find_usable-skip starting minimum before from it t) (
          find_usable-Within starting minimum m (it ∷ before) from (unfold close in e)
            (At-forth it before from h))
      | inr f ↦
          rw (find_usable-stop starting minimum before from it f)
            (record { same_map = e; well_formed = h }, f)
    ]

-- Another run of entries in place of one that starts at the same index.
pub At-replace :
    (before from ns : List Entry) (it n : Entry)
    → At before (it ∷ from)
    → n.first ≡ it.first
    → is_available it.second ≡ true
    → n.first < n.second.ending_index
    → Asc n.second.ending_index (is_available n.second) ns
    → At before (n ∷ ns)
At-replace [] from ns it n h e av lt a =
    (omega (arith, gap-le false (is_available n.second)), lt, a)
At-replace (p ∷ before) from ns it n h e av lt a = (h.0, h.1, (room, lt, a))
  where
    wide : p.second.ending_index + gap (is_available p.second) true ≤ it.first
    wide =
        subst (λ (b : Bool). p.second.ending_index + gap (is_available p.second) b ≤ it.first) av
          h.2.0

    room : p.second.ending_index + gap (is_available p.second) (is_available n.second) ≤ n.first
    room = omega (arith, wide, gap-le (is_available p.second) (is_available n.second))

-- A region that is split: it is available and holds the area that is wanted.
module _ (it : Entry) (from : List Entry) (starting desired : ℕ) (av : it.second.reserved ≡ false)
    (fits : it.first < it.second.ending_index) (some_wanted : 0 < desired)
    (inside : starting < it.second.ending_index)
    (no_wrap : it.second.ending_index + desired < 4294967296)
    (rest : Asc it.second.ending_index true from) where
  pub no_wrap_lem :
      add32 (allocation_start starting it) desired ≡ allocation_start starting it + desired
  no_wrap_lem = ground arith

  right_part-Asc :
      Asc (allocation_end starting desired it) false (right_part starting desired it from)
  right_part-Asc =
      elim (Bool-cases
        (ltb (add32 (allocation_start starting it) desired) it.second.ending_index)) [
          | inl t ↦ rw t (omega arith, ltb→lt _ _ t, rest)
          | inr f ↦ rw f (
              Asc-weaken it.second.ending_index it.second.ending_index true false from (omega arith)
                rest)
        ]

  pub end_after_start : allocation_start starting it < allocation_end starting desired it
  end_after_start = ground (arith, no_wrap_lem)

  abbrev allocated : List Entry
  allocated =
      entry (allocation_start starting it) (allocation_end starting desired it) true true
      ∷ right_part starting desired it from

  split_region-left :
      ltb it.first starting ≡ true
      → split_region starting desired it from
        ≡ entry it.first (allocation_start starting it) it.second.reserved true ∷ allocated
  unfolding split_region
  split_region-left t = simp t

  split_region-whole :
      ltb it.first starting ≡ false → split_region starting desired it from ≡ allocated
  unfolding split_region
  split_region-whole f = simp f

  pub split_region-At :
      (before : List Entry)
      → At before (it ∷ from)
      → At before (split_region starting desired it from)
  split_region-At before h = elim (Bool-cases (ltb it.first starting)) [
    | inl t ↦ rw (split_region-left t) (
        At-replace before from allocated it _ h refl (rw av refl) (ground arith)
          (left_gap (not it.second.reserved) (ground arith), end_after_start, right_part-Asc))
    | inr f ↦ rw (split_region-whole f) (
        At-replace before from (right_part starting desired it from) it _ h (ground arith)
          (rw av refl) end_after_start right_part-Asc)
  ]
    where
      left_gap : (x : Bool) → {a : ℕ} → a ≤ a → a + gap x false ≤ a
      left_gap true le = omega arith
      left_gap false le = omega arith

  pub split_region-cells :
      (i : ℕ)
      → cell_at (split_region starting desired it from) i
        ≡ held_in
            (allocation_start starting it)
            (allocation_end starting desired it)
            i
            (cell_at (it ∷ from) i)
  unfolding split_region
  split_region-cells i = elim (Bool-cases (ltb it.first starting)) [
    | inl t ↦ ground (arith, no_wrap_lem, Asc-out from it.second.ending_index true i rest)
    | inr f ↦ ground (arith, no_wrap_lem, Asc-out from it.second.ending_index true i rest)
  ]
