-- ===== src/ChunkMap/Contiguous.antt =====
-- The chunks of a file lie one after the other from offset zero: appending one keeps that, and every
-- stored position is found.
use inecontainer.Prelude.{
  ℕ, ◌+◌, ◌≤◌, ◌<◌, ◌≡◌, refl, ◌∙◌, ap, false, Option, some, [], ◌∷◌, ◌++◌, ltb, ne→==, ge→ltb,
  Bool-cases, inl, inr, arith,
}
use inecontainer.ChunkMap.{
  MapEntry, ChunkMap, map_entry, add_chunk_location, last_entry, end_of, current_stored_size,
  entry_before, chunk_at, needs_other_chunk,
}

abbrev pub Contiguous : ℕ → ChunkMap → Type 0
Contiguous base [] = Unit
Contiguous base (c ∷ m) =
    (c.first ≡ base) × (0 < c.second.payload_size) × Contiguous (base + c.second.payload_size) m

-- The offset behind the last chunk.
abbrev pub end_from : ℕ → ChunkMap → ℕ
end_from base [] = base
end_from base (c ∷ m) = end_from (base + c.second.payload_size) m

end_from-le : (base : ℕ) (m : ChunkMap) → base ≤ end_from base m
end_from-le base [] = omega arith
end_from-le base (c ∷ m) = omega (arith, end_from-le (base + c.second.payload_size) m)

last_entry_end :
    (base : ℕ) (c : MapEntry) (m : ChunkMap)
    → Contiguous base (c ∷ m)
    → end_from base (c ∷ m) < 18446744073709551616
    → end_of (last_entry (c ∷ m)) ≡ end_from base (c ∷ m)
last_entry_end base c [] h small = omega (arith, h.0)
last_entry_end base c (d ∷ m) h small = last_entry_end (base + c.second.payload_size) d m h.2 small

-- `currentStoredSize` is the offset behind the last chunk.
pub current_stored_size_lem :
    (m : ChunkMap)
    → Contiguous 0 m
    → end_from 0 m < 18446744073709551616
    → current_stored_size m ≡ end_from 0 m
unfolding current_stored_size
current_stored_size_lem [] h small = refl
current_stored_size_lem (c ∷ m) h small = last_entry_end 0 c m h small

add_at_end :
    (base starting_index payload_size : ℕ) (m : ChunkMap)
    → Contiguous base m
    → add_chunk_location starting_index (end_from base m) payload_size m
      ≡ m ++ map_entry (end_from base m) starting_index payload_size ∷ []
unfolding add_chunk_location
add_at_end base starting_index payload_size [] h = refl
add_at_end base starting_index payload_size (c ∷ m) h =
    rw
      (
        ne→== c.first (end_from (base + c.second.payload_size) m) (omega (arith, h.0, h.1, beyond)),
        ge→ltb (end_from (base + c.second.payload_size) m) c.first (omega (arith, h.0, beyond)),
      )
      (ap (◌∷◌ c) (add_at_end (base + c.second.payload_size) starting_index payload_size m h.2))
  where
    beyond : base + c.second.payload_size ≤ end_from (base + c.second.payload_size) m
    beyond = end_from-le (base + c.second.payload_size) m

append-Contiguous :
    (base starting_index payload_size : ℕ) (m : ChunkMap)
    → Contiguous base m
    → 0 < payload_size
    → Contiguous base (m ++ map_entry (end_from base m) starting_index payload_size ∷ [])
      × (end_from base (m ++ map_entry (end_from base m) starting_index payload_size ∷ [])
          ≡ end_from base m + payload_size)
append-Contiguous base starting_index payload_size [] h some_payload =
    ((refl, some_payload, tt), refl)
append-Contiguous base starting_index payload_size (c ∷ m) h some_payload =
    let r =
      append-Contiguous (base + c.second.payload_size) starting_index payload_size m h.2
        some_payload in
    ((h.0, h.1, r.0), r.1)

-- A chunk that is added at the stored size, as `append` does it, goes behind all others: the chunks
-- stay contiguous, and the stored size grows by its payload.
pub add_chunk_location_lem :
    (starting_index payload_size : ℕ) (m : ChunkMap)
    → Contiguous 0 m
    → 0 < payload_size
    → end_from 0 m + payload_size < 18446744073709551616
    → let m' = add_chunk_location starting_index (current_stored_size m) payload_size m in
      (m' ≡ m ++ map_entry (current_stored_size m) starting_index payload_size ∷ [])
      × Contiguous 0 m'
      × (current_stored_size m' ≡ current_stored_size m + payload_size)
add_chunk_location_lem starting_index payload_size m h some_payload small =
    rw (current_stored_size_lem m h (omega arith), add_at_end 0 starting_index payload_size m h)
      (refl, a.0, current_stored_size_lem _ a.0 (omega (arith, a.1)) ∙ a.1)
  where
    a :
        Contiguous 0 (m ++ map_entry (end_from 0 m) starting_index payload_size ∷ [])
        × (end_from 0 (m ++ map_entry (end_from 0 m) starting_index payload_size ∷ [])
            ≡ end_from 0 m + payload_size)
    a = append-Contiguous 0 starting_index payload_size m h some_payload

-- What the search promises of a position.
pub record Found (position limit : ℕ) (o : Option MapEntry) : Type 0 where
  pub chunk : MapEntry
  pub result : o ≡ some chunk
  pub starts : chunk.first ≤ position
  pub ends : position < chunk.first + chunk.second.payload_size
  pub within : chunk.first + chunk.second.payload_size ≤ limit

entry_before-Found :
    (position base : ℕ) (p : MapEntry) (m : ChunkMap)
    → p.first ≤ position
    → base ≡ p.first + p.second.payload_size
    → Contiguous base m
    → position < end_from base m
    → Found position (end_from base m) (entry_before position (some p) m)
unfolding entry_before
entry_before-Found position base p [] le e h lt = record {
  chunk = p;
  result = refl;
  starts = le;
  ends = omega arith;
  within = omega arith;
}
entry_before-Found position base p (c ∷ m) le e h lt = elim (Bool-cases (ltb position c.first)) [
  | inl before ↦ rw before (record {
    chunk = p;
    result = refl;
    starts = le;
    ends = ground (arith, before, h.0);
    within = omega (arith, e, end_from-le base (c ∷ m));
  })
  | inr behind ↦ rw behind (
      entry_before-Found position (base + c.second.payload_size) c m (ground (arith, behind))
        (omega (arith, h.0)) h.2 lt)
]

-- Every position below the stored size lies in the chunk that `read` and `write` look up for it, and
-- with that chunk current their guard asks for no other.
pub chunk_at_lem :
    (position : ℕ) (m : ChunkMap)
    → Contiguous 0 m
    → end_from 0 m < 18446744073709551616
    → position < current_stored_size m
    → Found position (current_stored_size m) (chunk_at position m)
      × (needs_other_chunk position (chunk_at position m) ≡ false)
chunk_at_lem position [] h small lt = absurd (omega (arith, current_stored_size_lem [] h small))
chunk_at_lem position (c ∷ m) h small lt =
    rw (current_stored_size_lem (c ∷ m) h small) (f, rw f.result no_other)
  where
    first_found : chunk_at position (c ∷ m) ≡ entry_before position (some c) m
    first_found =
        unfold chunk_at entry_before in rw (ge→ltb position c.first (omega (arith, h.0))) refl

    f : Found position (end_from 0 (c ∷ m)) (chunk_at position (c ∷ m))
    f = rw first_found (
        entry_before-Found position (0 + c.second.payload_size) c m (omega (arith, h.0))
          (omega (arith, h.0)) h.2 (omega (arith, current_stored_size_lem (c ∷ m) h small)))

    no_other : needs_other_chunk position (some f.chunk) ≡ false
    no_other = unfold needs_other_chunk in ground (arith, f.starts, f.ends, f.within, small)
