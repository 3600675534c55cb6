-- ===== src/Header/Tests.antt =====
-- Concrete headers and sizes.
use inecontainer.Prelude.{
  ℕ, ◌↔◌, some, ◌+◌, ◌-◌, ◌*◌, ◌^◌, ◌≤◌, ◌<◌, min, suc, ◌≡◌, ◌⊎◌, refl, true, not, [], ◌∷◌, ◌==◌,
  get_or, arith,
}
use inecontainer.Header.{
  ChunkHeader, IsBytes, fill_chunk, type, number_invalid_bytes, number_valid_bytes, chunk_size,
  maximum_payload_size, set_number_valid_bytes, set_best_fit_size, new_fill_chunk, log2,
  to_position, to_chunk_size, to_closest_smaller_chunk_p2, to_closest_larger_chunk_p2,
}
use inecontainer.Header.Tables.{crc_table}
use inecontainer.Header.Log2.{log2_bounds}
use inecontainer.Header.Sizes.{set_number_valid_bytes_lem}
use inecontainer.Header.Fill.{set_best_fit_size_lem, new_fill_chunk_lem}
use inecontainer.Header.Crc.{shift_bits, crc_table_lem}
use inecontainer.Header.Rounding.{to_closest_smaller_chunk_p2_lem, to_closest_larger_chunk_p2_lem}

-- A stream data chunk of 256 bytes, 24 of which are invalid, with two additional bytes.
abbrev sample : ChunkHeader
sample = record { b0 = 0x0E; b1 = 3; b2 = 0; b3 = 0; additional = 17 ∷ 34 ∷ [] }

sample-IsBytes : IsBytes sample
sample-IsBytes = record {
  byte0 = omega arith;
  byte1 = omega arith;
  byte2 = omega arith;
  byte3 = omega arith;
}

sample_size : chunk_size sample ≡ 256
unfolding chunk_size
sample_size = refl

sample_valid : number_valid_bytes sample ≡ 228
unfolding number_valid_bytes chunk_size number_invalid_bytes
sample_valid = refl

-- From 4 GiB on, the product of `toPosition` wraps.
position_wraps : to_position 134217728 ≡ 0
unfolding to_position
position_wraps = refl

log2_example : (2 ^ log2 4095 ≤ 4095) × (4095 < 2 ^ suc (log2 4095))
log2_example = log2_bounds 4095 (omega arith) (omega arith)

set_number_valid_bytes_example :
    let (h', kept, changed) = set_number_valid_bytes 500 true sample in
    (kept ≡ min 500 (maximum_payload_size true sample))
    × ((number_valid_bytes h' ≡ kept)
        × (type h' ≡ type sample)
        × (kept + 4 ≤ chunk_size h')
        × ((chunk_size h' ≡ 32) ⊎ (chunk_size h' < 2 * (kept + 4)))
        × (changed ≡ not (chunk_size h' == chunk_size sample)))
set_number_valid_bytes_example = set_number_valid_bytes_lem 500 true sample

set_best_fit_size_example :
    let (h', size) = set_best_fit_size 700 sample in
    (size ≤ 700)
    × ((size ≡ 4096) ⊎ (700 < 2 * size))
    × (chunk_size h' ≡ size)
    × (type h' ≡ type sample)
    × (number_invalid_bytes h' ≡ number_invalid_bytes sample)
    × IsBytes h'
set_best_fit_size_example =
    set_best_fit_size_lem 700 sample sample-IsBytes (omega arith) (omega arith)

new_fill_chunk_example :
    let h = new_fill_chunk 96 in
    (type h ≡ fill_chunk)
    × (chunk_size h ≤ 96)
    × ((chunk_size h ≡ 4096) ⊎ (96 < 2 * chunk_size h))
    × (number_valid_bytes h ≡ chunk_size h - 4)
new_fill_chunk_example = new_fill_chunk_lem 96 (omega arith) (omega arith)

crc_table_example : get_or crc_table 3 0 ≡ shift_bits 8 (3 * 256)
crc_table_example = crc_table_lem 3 (omega arith)

to_closest_smaller_chunk_p2_example :
    let p2 = to_closest_smaller_chunk_p2 100 in
    ((2 ^ (p2 + 5) ≤ 100) × (100 < 2 ^ (p2 + 6))) × ((p2 ≤ 7) ↔ (100 < 8192))
to_closest_smaller_chunk_p2_example =
    to_closest_smaller_chunk_p2_lem 100 (omega arith) (omega arith)

to_closest_larger_chunk_p2_example :
    (size : ℕ) × (to_chunk_size (to_closest_larger_chunk_p2 100) ≡ some size)
    × (100 ≤ size)
    × (size < 2 * 100)
to_closest_larger_chunk_p2_example = to_closest_larger_chunk_p2_lem 100 (omega arith) (omega arith)
