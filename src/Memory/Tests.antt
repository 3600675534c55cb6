-- ===== src/Memory/Tests.antt =====
-- A memory container of five bytes, at position three.
use inecontainer.Prelude.{ℕ, ◌+◌, ◌-◌, min, ◌≡◌, List, [], ◌∷◌, take, arith}
use inecontainer.Status.{no_status, read_successful, write_successful}
use inecontainer.Memory.{MemoryContainer, size, set_position, read, copy_at, write, truncate}
use inecontainer.Memory.Laws.{IsValid, read_lem, truncate_lem, write_lem, read-write}

abbrev five_bytes : MemoryContainer
five_bytes = record { memory_buffer = 1 ∷ 2 ∷ 3 ∷ 4 ∷ 5 ∷ []; current_position = 3 }

five_bytes-IsValid : IsValid five_bytes
five_bytes-IsValid = record { in_buffer = omega arith; size_small = omega arith }

abbrev three_bytes : List ℕ
three_bytes = 7 ∷ 8 ∷ 9 ∷ []

read_example : read 7 five_bytes ≡ (
  record { memory_buffer = 1 ∷ 2 ∷ 3 ∷ 4 ∷ 5 ∷ []; current_position = 3 + min 7 (5 - 3) },
  take 7 (4 ∷ 5 ∷ []),
  read_successful (min 7 (5 - 3)),
)
read_example = read_lem 7 five_bytes five_bytes-IsValid (omega arith)

truncate_example :
    ((truncate five_bytes).0.memory_buffer ≡ take 3 five_bytes.memory_buffer)
    × (size (truncate five_bytes).0 ≡ 3)
    × IsValid (truncate five_bytes).0
truncate_example = truncate_lem five_bytes five_bytes-IsValid

write_example :
    ((write three_bytes five_bytes).0.memory_buffer
      ≡ copy_at 3 three_bytes five_bytes.memory_buffer)
    × ((write three_bytes five_bytes).0.current_position ≡ 3 + 3)
    × IsValid (write three_bytes five_bytes).0
    × ((write three_bytes five_bytes).1 ≡ write_successful 3)
write_example = write_lem three_bytes five_bytes five_bytes-IsValid (omega arith) (omega arith)

read-write_example :
    ((set_position 3 (write three_bytes five_bytes).0).1 ≡ no_status)
    × ((read 3 (set_position 3 (write three_bytes five_bytes).0).0).1 ≡ three_bytes)
    × ((read 3 (set_position 3 (write three_bytes five_bytes).0).0).2 ≡ read_successful 3)
read-write_example =
    read-write three_bytes five_bytes five_bytes-IsValid (omega arith) (omega arith)
