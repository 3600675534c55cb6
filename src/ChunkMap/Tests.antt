-- ===== src/ChunkMap/Tests.antt =====
-- A file of two chunks, of 100 and 60 bytes.
use inecontainer.Prelude.{◌+◌, ◌<◌, ◌≡◌, refl, false, some, [], ◌∷◌, ◌++◌, arith}
use inecontainer.ChunkMap.{
  ChunkMap, map_entry, add_chunk_location, current_stored_size, chunk_at, needs_other_chunk,
}
use inecontainer.ChunkMap.Contiguous.{Contiguous, Found, add_chunk_location_lem, chunk_at_lem}

abbrev two_chunks : ChunkMap
two_chunks = map_entry 0 8 100 ∷ map_entry 100 40 60 ∷ []

two_chunks-Contiguous : Contiguous 0 two_chunks
two_chunks-Contiguous = (refl, omega arith, (refl, omega arith, tt))

stored_small : 150 < current_stored_size two_chunks
unfolding current_stored_size
stored_small = omega arith

add_chunk_location_example :
    let m' = add_chunk_location 50 (current_stored_size two_chunks) 30 two_chunks in
    (m' ≡ two_chunks ++ map_entry (current_stored_size two_chunks) 50 30 ∷ [])
    × Contiguous 0 m'
    × (current_stored_size m' ≡ current_stored_size two_chunks + 30)
add_chunk_location_example =
    add_chunk_location_lem 50 30 two_chunks two_chunks-Contiguous (omega arith) (omega arith)

chunk_at_example :
    Found 150 (current_stored_size two_chunks) (chunk_at 150 two_chunks)
    × (needs_other_chunk 150 (chunk_at 150 two_chunks) ≡ false)
chunk_at_example = chunk_at_lem 150 two_chunks two_chunks-Contiguous (omega arith) stored_small

chunk_at_run : chunk_at 150 two_chunks ≡ some (map_entry 100 40 60)
unfolding chunk_at
chunk_at_run = refl
