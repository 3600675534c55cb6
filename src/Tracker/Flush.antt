-- ===== src/Tracker/Flush.antt =====
-- `flushFreeSpace`: which areas it writes to the file, in which order, and the flags afterwards.
use inecontainer.Prelude.{
  ℕ, ◌≡◌, refl, Bool, true, false, ◌||◌, List, [], ◌∷◌, if◌then◌else◌, Bool-cases, inl, inr, ◌⊎◌,
  arith,
}
use inecontainer.Prelude.Words.{sub32}
use inecontainer.Area.{ContainerArea}
use inecontainer.Tracker.{Entry, FreeMap, flush_entry, flush_free_space}
use inecontainer.Tracker.Cells.{cell_at}

-- The areas that are due, in the order of the map.
abbrev pub area_of : Entry → ContainerArea
area_of e = record { starting_index = e.first; area_size = sub32 e.second.ending_index e.first }

abbrev pub due : Bool → FreeMap → List ContainerArea
due flush_all [] = []
due flush_all (e ∷ m) =
    if flush_all || e.second.file_needs_update then area_of e ∷ due flush_all m else due flush_all m

-- No region is due for an update.
abbrev pub IsFlushed : FreeMap → Type 0
IsFlushed [] = Unit
IsFlushed (e ∷ m) = (e.second.file_needs_update ≡ false) × IsFlushed m

first-IsFlushed :
    (e : Entry) (m : FreeMap) (done : Bool)
    → e.second.file_needs_update ≡ false
    → IsFlushed m ⊎ (done ≡ false)
    → IsFlushed (e ∷ m) ⊎ (done ≡ false)
first-IsFlushed e m done h (inl rest) = inl (h, rest)
first-IsFlushed e m done h (inr failed) = inr failed

module _ {ℓ} {S : Type ℓ} (flush_area : ContainerArea → S → S × Bool) where
  -- Areas are flushed one after the other, up to the first failure.
  unfoldable pub flush_all_of : List ContainerArea → S → S × Bool
  flush_all_of [] s = (s, true)
  flush_all_of (a ∷ areas) s =
      if (flush_area a s).1
      then flush_all_of areas (flush_area a s).0
      else ((flush_area a s).0, false)

  -- What a flush must give from a map and a state.
  pub record Flushes (all : Bool) (m : FreeMap) (s : S) (r : FreeMap × S × Bool) : Type ℓ where
    pub effect : (r.1, r.2) ≡ flush_all_of (due all m) s
    pub same_cells : (i : ℕ) → cell_at r.0 i ≡ cell_at m i
    pub all_flushed : IsFlushed r.0 ⊎ (r.2 ≡ false)

  abbrev cleared : Entry → Entry
  cleared e = record e { second = record e.second { file_needs_update = false } }

  module _ (all : Bool) (e : Entry) (m : FreeMap) (s : S) where
    abbrev after : S
    after = (flush_area (area_of e) s).0

    flush-clean :
        (all || e.second.file_needs_update) ≡ false
        → flush_free_space flush_area all (e ∷ m) s ≡ (
          e ∷ (flush_free_space flush_area all m s).0,
          (flush_free_space flush_area all m s).1,
          (flush_free_space flush_area all m s).2,
        )
    unfolding flush_free_space flush_entry
    flush-clean clean = simp clean

    flush-done :
        (all || e.second.file_needs_update) ≡ true
        → (flush_area (area_of e) s).1 ≡ true
        → flush_free_space flush_area all (e ∷ m) s ≡ (
          cleared e ∷ (flush_free_space flush_area all m after).0,
          (flush_free_space flush_area all m after).1,
          (flush_free_space flush_area all m after).2,
        )
    unfolding flush_free_space flush_entry
    flush-done due_now done = simp (due_now, done)

    flush-failed :
        (all || e.second.file_needs_update) ≡ true
        → (flush_area (area_of e) s).1 ≡ false
        → flush_free_space flush_area all (e ∷ m) s ≡ (cleared e ∷ m, after, false)
    unfolding flush_free_space flush_entry
    flush-failed due_now failed = simp (due_now, failed)

  -- `flushFreeSpace` writes the areas of the regions that are due (all of them, if asked), in the order
  -- of the map, up to the first failure, and answers whether all were written. The regions keep
  -- their places, and after a success none is due.
  pub flush_free_space_lem :
      (all : Bool) (m : FreeMap) (s : S) → Flushes all m s (flush_free_space flush_area all m s)
  unfolding flush_all_of
  flush_free_space_lem all [] s =
      unfold flush_free_space in
      record { effect = refl; same_cells = λ i. refl; all_flushed = inl tt }
  flush_free_space_lem all (e ∷ m) s = elim (Bool-cases (all || e.second.file_needs_update)) [
    | inr clean ↦
        let r : Flushes all m s _ = flush_free_space_lem all m s in
        rw (flush-clean all e m s clean) (record {
          effect = rw clean r.effect;
          same_cells = λ i. rw (r.same_cells i) refl;
          all_flushed =
              first-IsFlushed e (flush_free_space flush_area all m s).0 _ (ground (arith, clean))
                r.all_flushed;
        })
    | inl due_now ↦ elim (Bool-cases (flush_area (area_of e) s).1) [
      | inl done ↦
          let r : Flushes all m (after all e m s) _ =
            flush_free_space_lem all m (after all e m s) in
          rw (flush-done all e m s due_now done) (record {
            effect = rw (due_now, done) r.effect;
            same_cells = λ i. rw (r.same_cells i) refl;
            all_flushed =
                first-IsFlushed (cleared e) (flush_free_space flush_area all m (after all e m s)).0
                  _ refl r.all_flushed;
          })
      | inr failed ↦ rw (flush-failed all e m s due_now failed) (record {
        effect = rw (due_now, failed) refl;
        same_cells = λ i. refl;
        all_flushed = inr refl;
      })
    ]
  ]
