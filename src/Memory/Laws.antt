-- ===== src/Memory/Laws.antt =====
-- What the operations of the memory container do to its bytes.
use inecontainer.Prelude.{
  ℕ, ◌+◌, ◌-◌, ◌≤◌, ◌<◌, min, ◌≡◌, refl, sym, ◌∙◌, ap, subst, List, [], ◌∷◌, ◌++◌, append-nil,
  append_assoc, leb, le→leb, gt→leb, length, take, drop, length-append, length-take, length-drop,
  take-append-drop, drop_all, take_all, take-append, drop-append, take-min, Bool-cases, inl, inr,
  arith,
}
use inecontainer.Prelude.Words.{add64}
use inecontainer.Status.{no_status, seek_error, read_successful, write_successful}
use inecontainer.Memory.{
  MemoryContainer, size, set_position, remaining, limit, read, copy_at, push_back,
  number_to_overwrite, write, resize, truncate,
}

-- The position lies in the buffer, and the buffer's size is a 64-bit number.
pub record IsValid (m : MemoryContainer) : Type 0 where
  pub in_buffer : m.current_position ≤ length m.memory_buffer
  pub size_small : length m.memory_buffer < 18446744073709551616

push_back_lem : (xs ys : List ℕ) → push_back xs ys ≡ xs ++ ys
unfolding push_back
push_back_lem xs [] = sym (append-nil xs)
push_back_lem xs (y ∷ ys) = push_back_lem (xs ++ y ∷ []) ys ∙ append_assoc xs (y ∷ []) ys

remaining_lem :
    (m : MemoryContainer) → IsValid m → remaining m ≡ length m.memory_buffer - m.current_position
unfolding remaining size
remaining_lem m v = omega (arith, v.in_buffer, v.size_small)

limit_lem : (count maximum : ℕ) → count < 4294967296 → limit count maximum ≡ min count maximum
unfolding limit
limit_lem count maximum small = ground arith

number_to_overwrite_lem :
    (count : ℕ) (m : MemoryContainer)
    → IsValid m
    → count < 4294967296
    → number_to_overwrite count m ≡ min count (length m.memory_buffer - m.current_position)
unfolding number_to_overwrite
number_to_overwrite_lem count m v small =
    rw (remaining_lem m v, limit_lem count (length m.memory_buffer - m.current_position) small)
      (ground arith)

-- Overwriting what is there and appending the rest puts the bytes at the position.
overwrite-append :
    (p n : ℕ) (xs bytes : List ℕ)
    → p ≤ length xs
    → n ≡ min (length bytes) (length xs - p)
    → copy_at p (take n bytes) xs ++ drop n bytes ≡ copy_at p bytes xs
overwrite-append p n xs bytes le e = elim (Bool-cases (leb (length bytes) (length xs - p))) [
  | inl fits ↦
      rw (take_all n bytes (ground (arith, e, fits)), drop_all n bytes (ground (arith, e, fits)))
        (append-nil _)
  | inr beyond ↦
      rw
        (
          drop_all (p + length (take n bytes)) xs (ground (arith, e, beyond, length-take n bytes)),
          drop_all (p + length bytes) xs (ground (arith, e, beyond)),
          append-nil (take p xs ++ take n bytes),
          append-nil (take p xs ++ bytes),
        )
        (append_assoc (take p xs) (take n bytes) (drop n bytes)
          ∙ ap (λ (t : List ℕ). take p xs ++ t) (take-append-drop n bytes))
]

pub length-copy_at :
    (p : ℕ) (bytes xs : List ℕ)
    → p ≤ length xs
    → (p + length bytes ≤ length (copy_at p bytes xs))
      × (length (copy_at p bytes xs) ≤ length xs + length bytes)
length-copy_at p bytes xs le =
    rw
      (
        length-append (take p xs ++ bytes) (drop (p + length bytes) xs),
        length-append (take p xs) bytes,
        length-take p xs,
        length-drop (p + length bytes) xs,
      )
      (omega arith, omega arith)

copy_at_read :
    (p : ℕ) (bytes xs : List ℕ)
    → p ≤ length xs
    → take (length bytes) (drop p (copy_at p bytes xs)) ≡ bytes
copy_at_read p bytes xs le =
    rw
      (
        append_assoc (take p xs) bytes (drop (p + length bytes) xs),
        drop-append p (take p xs) (bytes ++ drop (p + length bytes) xs)
            (omega (arith, length-take p xs)),
      )
      (take-append (length bytes) bytes (drop (p + length bytes) xs) refl)

-- `read` hands out the bytes from the position on, as many as are wanted or remain, says how many
-- they are, and moves the position behind them.
pub read_lem :
    (desired_count : ℕ) (m : MemoryContainer)
    → IsValid m
    → desired_count < 4294967296
    → read desired_count m ≡ (
      record m {
        current_position =
            m.current_position + min desired_count (length m.memory_buffer - m.current_position);
      },
      take desired_count (drop m.current_position m.memory_buffer),
      read_successful (min desired_count (length m.memory_buffer - m.current_position)),
    )
unfolding read
read_lem desired_count m v small =
    rw
      (
        remaining_lem m v,
        limit_lem desired_count (length m.memory_buffer - m.current_position) small,
        no_wrap,
        same_bytes,
      )
      refl
  where
    left : ℕ
    left = length m.memory_buffer - m.current_position

    no_wrap :
        add64 m.current_position (min desired_count left)
        ≡ m.current_position + min desired_count left
    no_wrap = omega (arith, v.in_buffer, v.size_small)

    same_bytes :
        take (min desired_count left) (drop m.current_position m.memory_buffer)
        ≡ take desired_count (drop m.current_position m.memory_buffer)
    same_bytes =
        take-min desired_count (min desired_count left) (drop m.current_position m.memory_buffer)
          (omega (arith, length-drop m.current_position m.memory_buffer))

-- `setPosition` takes any position up to the end, and refuses one beyond it without moving.
pub set_position_lem :
    (offset : ℕ) (m : MemoryContainer)
    → (offset ≤ length m.memory_buffer
        → set_position offset m ≡ (record m { current_position = offset }, no_status))
      × (length m.memory_buffer < offset
          → set_position offset m ≡ (m, seek_error offset (length m.memory_buffer)))
unfolding set_position size
set_position_lem offset m = (
  λ h. rw (le→leb offset (length m.memory_buffer) h) refl,
  λ h. rw (gt→leb offset (length m.memory_buffer) h) refl,
)

-- `truncate` cuts the buffer at the position.
pub truncate_lem :
    (m : MemoryContainer)
    → IsValid m
    → ((truncate m).0.memory_buffer ≡ take m.current_position m.memory_buffer)
      × (size (truncate m).0 ≡ m.current_position)
      × IsValid (truncate m).0
unfolding truncate size
truncate_lem m v = rw cut (
  refl,
  len,
  record {
    in_buffer = omega (arith, len);
    size_small = omega (arith, len, v.in_buffer, v.size_small);
  },
)
  where
    cut : resize m.current_position m.memory_buffer ≡ take m.current_position m.memory_buffer
    cut = rw (no_zeros) (append-nil (take m.current_position m.memory_buffer))
      where
        no_zeros : m.current_position - length m.memory_buffer ≡ 0
        no_zeros = omega (arith, v.in_buffer)

    len : length (take m.current_position m.memory_buffer) ≡ m.current_position
    len = omega (arith, length-take m.current_position m.memory_buffer, v.in_buffer)

module _ (bytes : List ℕ) (m : MemoryContainer) (v : IsValid m) (small : length bytes < 4294967296)
    (room : length m.memory_buffer + length bytes < 18446744073709551616) where
  -- `write` replaces the bytes at the position and appends what does not fit before the end; the
  -- position moves behind them and stays in the buffer, and the status says how many they were.
  pub write_lem :
      ((write bytes m).0.memory_buffer ≡ copy_at m.current_position bytes m.memory_buffer)
      × ((write bytes m).0.current_position ≡ m.current_position + length bytes)
      × IsValid (write bytes m).0
      × ((write bytes m).1 ≡ write_successful (length bytes))
  unfolding write
  write_lem = (
    buffer,
    moved,
    record {
      in_buffer =
          rw (moved, buffer)
            (length-copy_at m.current_position bytes m.memory_buffer v.in_buffer).0;
      size_small = rw buffer (
          omega
            (arith, (length-copy_at m.current_position bytes m.memory_buffer v.in_buffer).1, room));
    },
    refl,
  )
    where
      n : ℕ
      n = number_to_overwrite (length bytes) m

      buffer :
          push_back (copy_at m.current_position (take n bytes) m.memory_buffer) (drop n bytes)
          ≡ copy_at m.current_position bytes m.memory_buffer
      buffer =
          push_back_lem (copy_at m.current_position (take n bytes) m.memory_buffer) (drop n bytes)
          ∙ overwrite-append m.current_position n m.memory_buffer bytes v.in_buffer
              (number_to_overwrite_lem (length bytes) m v small)

      moved : add64 m.current_position (length bytes) ≡ m.current_position + length bytes
      moved = omega (arith, v.in_buffer)

  -- Bytes that are written are read back from where they were written, all of them.
  pub read-write :
      ((set_position m.current_position (write bytes m).0).1 ≡ no_status)
      × ((read (length bytes) (set_position m.current_position (write bytes m).0).0).1 ≡ bytes)
      × ((read (length bytes) (set_position m.current_position (write bytes m).0).0).2
          ≡ read_successful (length bytes))
  read-write = rw (seek, r) (refl, copied, ap read_successful (omega (arith, fits)))
    where
      w : MemoryContainer
      w = (write bytes m).0

      fits : m.current_position + length bytes ≤ length w.memory_buffer
      fits = subst (λ (n : ℕ). n ≤ length w.memory_buffer) write_lem.1 write_lem.2.in_buffer

      back : MemoryContainer
      back = record w { current_position = m.current_position }

      seek : set_position m.current_position w ≡ (back, no_status)
      seek = (set_position_lem m.current_position w).0 (omega (arith, fits))

      back_valid : IsValid back
      back_valid = record { in_buffer = omega (arith, fits); size_small = write_lem.2.size_small }

      r : read (length bytes) back ≡ (
        record back {
          current_position =
              back.current_position
              + min (length bytes) (length back.memory_buffer - back.current_position);
        },
        take (length bytes) (drop back.current_position back.memory_buffer),
        read_successful (min (length bytes) (length back.memory_buffer - back.current_position)),
      )
      r = read_lem (length bytes) back back_valid small

      copied : take (length bytes) (drop m.current_position w.memory_buffer) ≡ bytes
      copied = rw write_lem.0 (copy_at_read m.current_position bytes m.memory_buffer v.in_buffer)
