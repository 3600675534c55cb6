-- ===== src/FlushArea/Tiling.antt =====
-- The fill chunks that `flushArea` writes tile the area, and its loop ends.
use native.Mathlib.Nat.{pow-suc}
use inecontainer.Prelude.{
  ℕ, zero, suc, ◌+◌, ◌-◌, ◌*◌, ◌/◌, ◌%◌, ◌^◌, ◌≤◌, ◌<◌, ◌≡◌, refl, ◌∙◌, ap, subst, Bool, true,
  false, some, List, [], ◌∷◌, ◌==◌, ==_iff, ne→==, if◌then◌else◌, Bool-cases, inl, inr, ◌⊎◌, arith,
}
use inecontainer.Status.{Status, no_status, to_bool}
use inecontainer.Header.{
  ChunkHeader, fill_chunk, type, chunk_size, number_valid_bytes, to_position, to_file_index,
  new_fill_chunk,
}
use inecontainer.Header.Fields.{chunk_size_pow, chunk_size_range}
use inecontainer.Header.Fill.{new_fill_chunk_lem}
use inecontainer.Area.{ContainerArea, from_front, reduce_by}
use inecontainer.Area.Laws.{Fits}
use inecontainer.FlushArea.{filled_chunk, rest_of, fill_area}

-- Chunks with the indices that they are saved at.
abbrev pub Placed : Type 0
Placed = ℕ × ChunkHeader

-- The chunks lie one after the other from an index on and cover so many 32-byte units: each is a
-- fill chunk, all of whose bytes behind its header are valid.
abbrev pub Tiles : ℕ → ℕ → List Placed → Type 0
Tiles start units [] = units ≡ 0
Tiles start units ((i, h) ∷ cs) =
    (i ≡ start)
    × (type h ≡ fill_chunk)
    × (number_valid_bytes h ≡ chunk_size h - 4)
    × ((k : ℕ) × (chunk_size h ≡ 32 * k) × (k ≤ units) × Tiles (start + k) (units - k) cs)

module _ {ℓ} {S : Type ℓ} (save : ℕ → ChunkHeader → S → S × Status) where
  -- Chunks are saved in turn, up to the first status with something to report.
  unfoldable pub save_all : List Placed → S → S × Status
  save_all [] s = (s, no_status)
  save_all ((i, h) ∷ cs) s =
      if to_bool (save i h s).1 then save i h s else save_all cs (save i h s).0

-- The first fill chunk over an area, and the area behind it.
record FirstChunk (area : ContainerArea) (h : ChunkHeader) (rest : ContainerArea) : Type 0 where
  kind : type h ≡ fill_chunk
  valid : number_valid_bytes h ≡ chunk_size h - 4
  units : ℕ
  units_size : chunk_size h ≡ 32 * units
  some_units : 0 < units
  within : units ≤ area.area_size
  start_moved : rest.starting_index ≡ area.starting_index + units
  size_reduced : rest.area_size ≡ area.area_size - units

thirty_two : (p : ℕ) → 2 ^ (p + 5) ≡ 32 * 2 ^ p
thirty_two p = omega (
  arith,
  five (p + 5) (omega arith),
  pow-suc 2 (suc (suc (suc (suc p)))),
  pow-suc 2 (suc (suc (suc p))),
  pow-suc 2 (suc (suc p)),
  pow-suc 2 (suc p),
  pow-suc 2 p,
)
  where
    five : (q : ℕ) → q ≡ suc (suc (suc (suc (suc p)))) → 2 ^ q ≡ 2 ^ suc (suc (suc (suc (suc p))))
    five q e = ap (λ (n : ℕ). 2 ^ n) e

reduced :
    (area : ContainerArea) (k : ℕ)
    → k ≤ area.area_size
    → Fits area
    → ((reduce_by k from_front area).0.starting_index ≡ area.starting_index + k)
      × ((reduce_by k from_front area).0.area_size ≡ area.area_size - k)
unfolding reduce_by
reduced area k le fits = ground (arith, fits.end_small)

first_chunk :
    (area : ContainerArea)
    → 0 < area.area_size
    → area.area_size < 134217728
    → Fits area
    → FirstChunk area (filled_chunk area) (rest_of area)
unfolding filled_chunk rest_of
first_chunk area left small fits = record {
  kind = n.0;
  valid = n.3;
  units = k;
  units_size = size;
  some_units = omega (arith, size, (chunk_size_range h).0);
  within = within_area;
  start_moved = rw (rest_of, t) (reduced area k within_area fits).0;
  size_reduced = rw (rest_of, t) (reduced area k within_area fits).1;
}
  where
    position : to_position area.area_size ≡ 32 * area.area_size
    position = unfold to_position in omega arith

    h : ChunkHeader
    h = new_fill_chunk (to_position area.area_size)

    n :
        (type h ≡ fill_chunk)
        × (chunk_size h ≤ to_position area.area_size)
        × ((chunk_size h ≡ 4096) ⊎ (to_position area.area_size < 2 * chunk_size h))
        × (number_valid_bytes h ≡ chunk_size h - 4)
    n =
        new_fill_chunk_lem (to_position area.area_size) (omega (arith, position))
          (omega (arith, position))

    k : ℕ
    k = 2 ^ (h.b0 / 4 % 8)

    size : chunk_size h ≡ 32 * k
    size = chunk_size_pow h ∙ thirty_two (h.b0 / 4 % 8)

    within_area : k ≤ area.area_size
    within_area = omega (arith, size, n.1, position)

    t : to_file_index (chunk_size h) ≡ k
    t = unfold to_file_index in omega (arith, size, within_area)

module _ {ℓ} {S : Type ℓ} (save : ℕ → ChunkHeader → S → S × Status) where
  fill_area-done :
      (fuel : ℕ) (area : ContainerArea) (s : S)
      → area.area_size ≡ 0
      → fill_area save (suc fuel) area s ≡ some (s, no_status)
  unfolding fill_area
  fill_area-done fuel area s done = rw done refl

  fill_area-step :
      (fuel : ℕ) (area : ContainerArea) (s : S)
      → 0 < area.area_size
      → fill_area save (suc fuel) area s ≡ (
          if to_bool (save area.starting_index (filled_chunk area) s).1
          then some (save area.starting_index (filled_chunk area) s)
          else fill_area save fuel
              (rest_of area)
              (save area.starting_index (filled_chunk area) s).0)
  unfolding fill_area
  fill_area-step fuel area s left = rw (ne→== area.area_size 0 (omega arith)) refl

  -- What the loop promises of an area.
  abbrev Filled : ℕ → ContainerArea → Type ℓ
  Filled fuel area =
      (cs : List Placed) × Tiles area.starting_index area.area_size cs
      × ((s : S) → fill_area save fuel area s ≡ some (save_all save cs s))

  Filled-more :
      (fuel : ℕ) (area : ContainerArea)
      → 0 < area.area_size
      → FirstChunk area (filled_chunk area) (rest_of area)
      → Filled fuel (rest_of area)
      → Filled (suc fuel) area
  unfolding save_all
  Filled-more fuel area left f (cs, tiles, runs) = (
    (area.starting_index, filled_chunk area) ∷ cs,
    (
      refl,
      f.kind,
      f.valid,
      (
        f.units,
        f.units_size,
        f.within,
        subst (λ (n : ℕ). Tiles (area.starting_index + f.units) n cs) f.size_reduced
            (subst (λ (n : ℕ). Tiles n (rest_of area).area_size cs) f.start_moved tiles),
      ),
    ),
    λ s.
        fill_area-step fuel area s left
        ∙ rw (runs (save area.starting_index (filled_chunk area) s).0) (
            if_some (to_bool (save area.starting_index (filled_chunk area) s).1)
              (save area.starting_index (filled_chunk area) s)
              (save_all save cs (save area.starting_index (filled_chunk area) s).0)),
  )
    where
      if_some :
          (b : Bool) (x y : S × Status) → (if b then some x else some y) ≡ some (if b then x else y)
      if_some true x y = refl
      if_some false x y = refl

  -- For an area of fewer than 2^27 units that ends below 2^32: the loop of flushArea that writes it as
  -- free ends, on as much fuel as the area has 32-byte units and one more; the chunks that it saves, up to
  -- the first failure, are fill chunks that tile the area.
  pub fill_area_lem :
      (fuel : ℕ) (area : ContainerArea)
      → area.area_size < fuel
      → area.area_size < 134217728
      → Fits area
      → (cs : List Placed) × Tiles area.starting_index area.area_size cs
        × ((s : S) → fill_area save fuel area s ≡ some (save_all save cs s))
  unfolding save_all
  fill_area_lem zero area enough small fits = absurd (omega arith)
  fill_area_lem (suc fuel) area enough small fits = elim (Bool-cases (area.area_size == 0)) [
    | inl done ↦ (
      [],
      (==_iff area.area_size 0).0 done,
      λ s. fill_area-done fuel area s ((==_iff area.area_size 0).0 done),
    )
    | inr left ↦
        let f : FirstChunk area (filled_chunk area) (rest_of area) =
          first_chunk area (ground (arith, left)) small fits in
        Filled-more fuel area (ground (arith, left)) f (
          fill_area_lem fuel (rest_of area) (omega (arith, f.size_reduced, f.some_units))
            (omega (arith, f.size_reduced))
            (record {
              end_small = omega (arith, f.start_moved, f.size_reduced, f.within, fits.end_small);
            }))
  ]
