-- ===== src/Memory.antt =====
-- inecontainer/source/container_memory_container_private.cpp: the container that keeps its file in a
-- vector of bytes. A `std::uint8_t*` with its length is the list of the bytes there.
pub mod Laws
mod Tests
use inecontainer.Prelude.{
  ℕ, ◌+◌, ◌-◌, ◌%◌, Bool, true, List, [], ◌∷◌, ◌++◌, ltb, leb, ◌==◌, if◌then◌else◌, length, take,
  drop, replicate,
}
use inecontainer.Prelude.Words.{u32, sub64, add64}
use inecontainer.Status.{Status, no_status, seek_error, read_successful, write_successful}

pub record MemoryContainer : Type 0 where
  pub memory_buffer : List ℕ
  pub current_position : ℕ

unfoldable pub set_buffer : List ℕ → MemoryContainer → MemoryContainer
set_buffer new_buffer m = record { memory_buffer = new_buffer; current_position = 0 }

unfoldable pub size : MemoryContainer → ℕ
size m = length m.memory_buffer

unfoldable pub set_position : ℕ → MemoryContainer → MemoryContainer × Status
unfolding size
set_position new_offset m =
    if leb new_offset (size m)
    then (record m { current_position = new_offset }, no_status)
    else (m, seek_error new_offset (size m))

unfoldable pub set_position_last : MemoryContainer → MemoryContainer × Status
unfolding size
set_position_last m = (record m { current_position = size m }, no_status)

-- The bytes from the position to the end; the subtraction is one of `unsigned long long`.
unfoldable pub remaining : MemoryContainer → ℕ
unfolding size
remaining m = sub64 (size m) m.current_position

-- The smaller of a 32-bit count and what remains.
unfoldable pub limit : ℕ → ℕ → ℕ
limit count maximum_length = if ltb count maximum_length then count else u32 maximum_length

-- The container, the bytes that are copied into the caller's buffer, and the status.
unfoldable pub read : ℕ → MemoryContainer → MemoryContainer × List ℕ × Status
unfolding remaining limit
read desired_count m =
    let bytes_to_copy = limit desired_count (remaining m) in
    (
      record m { current_position = add64 m.current_position bytes_to_copy },
      take bytes_to_copy (drop m.current_position m.memory_buffer),
      read_successful bytes_to_copy,
    )

-- `memcpy` of `bytes` into `xs` at an index.
abbrev pub copy_at : ℕ → List ℕ → List ℕ → List ℕ
copy_at i bytes xs = take i xs ++ bytes ++ drop (i + length bytes) xs

-- The `push_back` loop.
unfoldable pub push_back : List ℕ → List ℕ → List ℕ
push_back xs [] = xs
push_back xs (b ∷ bytes) = push_back (xs ++ b ∷ []) bytes

unfoldable pub number_to_overwrite : ℕ → MemoryContainer → ℕ
unfolding remaining limit
number_to_overwrite count m = if remaining m == 0 then 0 else limit count (remaining m)

unfoldable pub write : List ℕ → MemoryContainer → MemoryContainer × Status
unfolding number_to_overwrite push_back
write bytes m =
    let n = number_to_overwrite (length bytes) m in
    (
      record {
        memory_buffer =
            push_back (copy_at m.current_position (take n bytes) m.memory_buffer) (drop n bytes);
        current_position = add64 m.current_position (length bytes);
      },
      write_successful (length bytes),
    )

-- `std::vector::resize`, which appends zeros if the new size is the larger.
abbrev pub resize : ℕ → List ℕ → List ℕ
resize n xs = take n xs ++ replicate (n - length xs) 0

unfoldable pub truncate : MemoryContainer → MemoryContainer × Status
truncate m = (record m { memory_buffer = resize m.current_position m.memory_buffer }, no_status)
