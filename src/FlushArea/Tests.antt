-- ===== src/FlushArea/Tests.antt =====
-- The area of five units that starts at index eight, filled by a program that logs its chunks.
use inecontainer.Prelude.{ℕ, ◌≡◌, some, List, ◌∷◌, arith}
use inecontainer.Status.{Status, no_status}
use inecontainer.Header.{ChunkHeader, chunk_size}
use inecontainer.Area.{ContainerArea}
use inecontainer.FlushArea.{fill_area}
use inecontainer.FlushArea.Tiling.{Placed, Tiles, save_all, fill_area_lem}

abbrev log_chunk : ℕ → ChunkHeader → List ℕ → List ℕ × Status
log_chunk i h s = (i ∷ chunk_size h ∷ s, no_status)

abbrev five_units : ContainerArea
five_units = record { starting_index = 8; area_size = 5 }

fill_area_example :
    (cs : List Placed) × Tiles 8 5 cs
    × ((s : List ℕ) → fill_area log_chunk 6 five_units s ≡ some (save_all log_chunk cs s))
fill_area_example =
    fill_area_lem log_chunk 6 five_units (omega arith) (omega arith)
      (record { end_small = omega arith })
