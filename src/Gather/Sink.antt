-- ===== src/Gather/Sink.antt =====
-- What `save` relies on of the container that it writes to, and the memory container as one.
use inecontainer.Prelude.{
  ℕ, ◌+◌, ◌≤◌, ◌<◌, ◌≡◌, ◌∙◌, ap, ap₂, List, [], ◌++◌, append-nil, append_assoc, length, take, drop,
  length-append, length-take, take-append, take-append-drop, drop-drop, drop-append_more, arith,
}
use inecontainer.Status.{Status, write_successful}
use inecontainer.Memory.{MemoryContainer, write, copy_at}
use inecontainer.Memory.Laws.{IsValid, write_lem, length-copy_at}

-- A container whose writes succeed while it has room, each one behind the last.
pub record Sink (S : Type 0) : Type 1 where
  pub write : List ℕ → S → S × Status
  pub put : List ℕ → S → S
  pub HasRoom : ℕ → S → Type 0
  pub write-put :
      (bytes : List ℕ) (s : S)
      → HasRoom (length bytes) s
      → write bytes s ≡ (put bytes s, write_successful (length bytes))
  pub put-nil : (n : ℕ) (s : S) → HasRoom n s → put [] s ≡ s
  pub put-append :
      (xs ys : List ℕ) (s : S)
      → HasRoom (length xs + length ys) s
      → put ys (put xs s) ≡ put (xs ++ ys) s
  pub put-HasRoom : (n : ℕ) (xs : List ℕ) (s : S) → HasRoom (length xs + n) s → HasRoom n (put xs s)
  pub less-HasRoom : (m n : ℕ) (s : S) → m ≤ n → HasRoom n s → HasRoom m s

unfoldable pub put_bytes : List ℕ → MemoryContainer → MemoryContainer
put_bytes bytes m = record {
  memory_buffer = copy_at m.current_position bytes m.memory_buffer;
  current_position = m.current_position + length bytes;
}

-- A memory container has room for so many bytes as a 32-bit count and its 64-bit size allow.
pub record MemoryRoom (n : ℕ) (m : MemoryContainer) : Type 0 where
  pub valid : IsValid m
  pub count_small : n < 4294967296
  pub room : length m.memory_buffer + n < 18446744073709551616

pub copy_at-nil : (p : ℕ) (xs : List ℕ) → copy_at p [] xs ≡ xs
copy_at-nil p xs =
    ap₂ ◌++◌ (append-nil (take p xs)) (ap (λ (k : ℕ). drop k xs) same) ∙ take-append-drop p xs
  where
    same : p + 0 ≡ p
    same = omega arith

pub copy_at-append :
    (p : ℕ) (ys bs xs : List ℕ)
    → p ≤ length xs
    → copy_at (p + length ys) bs (copy_at p ys xs) ≡ copy_at p (ys ++ bs) xs
copy_at-append p ys bs xs le =
    rw (front, back)
      (ap (λ (l : List ℕ). l ++ drop (p + length (ys ++ bs)) xs) (append_assoc (take p xs) ys bs))
  where
    head : length (take p xs ++ ys) ≡ p + length ys
    head = omega (arith, length-append (take p xs) ys, length-take p xs)

    front : take (p + length ys) (copy_at p ys xs) ≡ take p xs ++ ys
    front =
        take-append (p + length ys) (take p xs ++ ys) (drop (p + length ys) xs)
          (omega (arith, head))

    back : drop (p + length ys + length bs) (copy_at p ys xs) ≡ drop (p + length (ys ++ bs)) xs
    back =
        drop-append_more (p + length ys + length bs) (length bs) (take p xs ++ ys)
          (drop (p + length ys) xs) (omega (arith, head))
        ∙ drop-drop (p + length ys) (length bs) xs
        ∙ ap (λ (k : ℕ). drop k xs) (omega (arith, length-append ys bs))

pub put_bytes-write :
    (bytes : List ℕ) (m : MemoryContainer)
    → MemoryRoom (length bytes) m
    → write bytes m ≡ (put_bytes bytes m, write_successful (length bytes))
unfolding put_bytes
put_bytes-write bytes m r =
    ap₂ (λ (c : MemoryContainer) (st : Status). (c, st))
      (ap₂ (λ (b : List ℕ) (p : ℕ). record { memory_buffer = b; current_position = p }) w.0 w.1) w.3
  where
    w :
        ((write bytes m).0.memory_buffer ≡ copy_at m.current_position bytes m.memory_buffer)
        × ((write bytes m).0.current_position ≡ m.current_position + length bytes)
        × IsValid (write bytes m).0
        × ((write bytes m).1 ≡ write_successful (length bytes))
    w = write_lem bytes m r.valid r.count_small r.room

unfoldable pub memory_Sink : Sink MemoryContainer
unfolding put_bytes
memory_Sink = record {
  write = write;
  put = put_bytes;
  HasRoom = MemoryRoom;
  write-put = put_bytes-write;
  put-nil = λ n m r.
      ap₂ (λ (b : List ℕ) (p : ℕ). record { memory_buffer = b; current_position = p })
        (copy_at-nil m.current_position m.memory_buffer) (omega arith);
  put-append = λ xs ys m r.
      ap₂ (λ (b : List ℕ) (p : ℕ). record { memory_buffer = b; current_position = p })
        (copy_at-append m.current_position xs ys m.memory_buffer r.valid.in_buffer)
        (omega (arith, length-append xs ys));
  put-HasRoom = λ n xs m r. record {
    valid = record {
      in_buffer = (length-copy_at m.current_position xs m.memory_buffer r.valid.in_buffer).0;
      size_small = omega (
        arith,
        r.room,
        (length-copy_at m.current_position xs m.memory_buffer r.valid.in_buffer).1,
      );
    };
    count_small = omega (arith, r.count_small);
    room =
        omega (
          arith,
          r.room,
          (length-copy_at m.current_position xs m.memory_buffer r.valid.in_buffer).1,
        );
  };
  less-HasRoom = λ a b m le r. record {
    valid = r.valid;
    count_small = omega (arith, r.count_small);
    room = omega (arith, r.room);
  };
}
