-- ===== src/VirtualFile/Tail/Overwrite.antt =====
-- The bytes of the tail buffer under `VirtualFileImpl::write`: its writes through `snoop`, and what falls into
-- the tail.
use inecontainer.Prelude.{
  ℕ, zero, suc, ◌+◌, ◌-◌, ◌≤◌, ◌<◌, min, ◌≡◌, refl, sym, ◌∙◌, ap, ap₂, true, false, List, [], ◌∷◌,
  ◌++◌, append-nil, append_assoc, length, length-append, length-take, length-drop, set, take, drop,
  drop_all, take-append-drop, arith, leb, ◌==◌, ◌&&◌,
}
use inecontainer.Prelude.Words.{u32, sub32, sub64, add64}
use inecontainer.Status.{write_successful}
use inecontainer.Ring.{RingBuffer, IsValid, clear, snoop_set}
use inecontainer.Ring.Window.{entries, window}
use inecontainer.Ring.Refine.{snoop_lem}
use inecontainer.ChunkMap.{current_stored_size}
use inecontainer.Gather.{wrote_all}
use inecontainer.VirtualFile.{VirtualFile}
use inecontainer.VirtualFile.Read.{smaller}
use inecontainer.VirtualFile.Write.{snoop_write, write_tail_buffer}
use inecontainer.VirtualFile.Tail.{length-entries, tail_base, total_size}

-- A list with some of its bytes replaced from an offset on, and continued where they go further.
abbrev pub overwritten : ℕ → List ℕ → List ℕ → List ℕ
overwritten k xs ys = take k ys ++ xs ++ drop (k + length xs) ys

overwritten-set :
    (k : ℕ) (x : ℕ) (xs ys : List ℕ)
    → k < length ys
    → overwritten (suc k) xs (set ys k x) ≡ overwritten k (x ∷ xs) ys
overwritten-set k x xs [] lt = absurd (omega arith)
overwritten-set zero x xs (y ∷ ys) lt =
    ap (λ (n : ℕ). x ∷ xs ++ drop n (x ∷ ys)) first ∙ ap (λ (n : ℕ). x ∷ xs ++ drop n (y ∷ ys)) last
  where
    first : 1 + length xs ≡ suc (length xs)
    first = omega arith

    last : suc (length xs) ≡ 0 + length (x ∷ xs)
    last = omega arith
overwritten-set (suc k) x xs (y ∷ ys) lt =
    ap (λ (n : ℕ). y ∷ take (suc k) (set ys k x) ++ xs ++ drop n (y ∷ set ys k x)) first
    ∙ ap (◌∷◌ y) (overwritten-set k x xs ys (omega arith))
    ∙ ap (λ (n : ℕ). y ∷ take k ys ++ (x ∷ xs) ++ drop n (y ∷ ys)) last
  where
    first : suc (suc k) + length xs ≡ suc (suc k + length xs)
    first = omega arith

    last : suc (k + length (x ∷ xs)) ≡ suc k + length (x ∷ xs)
    last = omega arith

pub overwritten-nil : (k : ℕ) (ys : List ℕ) → overwritten k [] ys ≡ ys
overwritten-nil k ys =
    ap₂ (λ (xs : List ℕ) (n : ℕ). xs ++ drop n ys) (append-nil (take k ys)) same
    ∙ take-append-drop k ys
  where
    same : k + length {A = ℕ} [] ≡ k
    same = omega arith

pub record Kept (offset : ℕ) (xs : List ℕ) (tail tail' : RingBuffer ℕ) : Type 0 where
  pub written : entries 4096 0 tail' ≡ overwritten offset xs (entries 4096 0 tail)
  pub ring : IsValid 4096 0 tail'

pub snoop_write_lem :
    (xs : List ℕ) (offset : ℕ) (tail : RingBuffer ℕ)
    → IsValid 4096 0 tail
    → offset + length xs ≤ tail.entry_count
    → Kept offset xs tail (snoop_write offset xs tail)
unfolding snoop_write snoop_set
snoop_write_lem [] offset tail v le = record {
  written = sym (overwritten-nil offset (entries 4096 0 tail));
  ring = v;
}
snoop_write_lem (x ∷ xs) offset tail v le =
    let (_, changed, ring) = snoop_lem 4096 0 tail offset x v (omega arith) in
    let rest : Kept (offset + 1) xs (snoop_set 4096 0 offset x tail)
        (snoop_write (offset + 1) xs (snoop_set 4096 0 offset x tail)) =
      snoop_write_lem xs (offset + 1) (snoop_set 4096 0 offset x tail) ring (omega arith) in
    record {
      written =
          rest.written
          ∙ ap (overwritten (offset + 1) xs) changed
          ∙ ap (λ (n : ℕ). overwritten n xs (set (entries 4096 0 tail) offset x)) (the_next offset)
          ∙ overwritten-set offset x xs (entries 4096 0 tail) (omega (arith, length-entries tail));
      ring = rest.ring;
    }
  where
    the_next : (n : ℕ) → n + 1 ≡ suc n
    the_next n = omega arith

-- The cleared tail.
pub clear_lem :
    (tail : RingBuffer ℕ)
    → IsValid 4096 0 tail
    → IsValid 4096 0 (clear 4096 0 tail) × (entries 4096 0 (clear 4096 0 tail) ≡ [])
unfolding clear entries window
clear_lem tail v = (
  record {
    storage = v.storage;
    positive = v.positive;
    small = v.small;
    insertion_in = v.positive;
    extraction_in = v.positive;
    count_in = omega arith;
    in_step = refl;
  },
  refl,
)

pub wrote_all-successful : (n : ℕ) → wrote_all n (write_successful n) ≡ true
unfolding wrote_all
wrote_all-successful n = ground arith

-- The two cases of `write_tail_buffer`.
pub write_tail_buffer-cleared :
    (buffer : List ℕ) (f : VirtualFile)
    → ((f.current_position == tail_base f) && leb f.tail_buffer.entry_count (length buffer)) ≡ true
    → write_tail_buffer (current_stored_size f.chunk_map) buffer f
      ≡ (record f { tail_buffer = clear 4096 0 f.tail_buffer }, buffer)
unfolding write_tail_buffer
write_tail_buffer-cleared buffer f whole = rw whole refl

-- How many bytes of the buffer fall into the tail, which starts `k` bytes before the position.
abbrev pub in_tail : List ℕ → VirtualFile → ℕ
in_tail buffer f =
    min (length buffer) (f.tail_buffer.entry_count - (f.current_position - tail_base f))

pub write_tail_buffer-written :
    (buffer : List ℕ) (f : VirtualFile)
    → ((f.current_position == tail_base f) && leb f.tail_buffer.entry_count (length buffer)) ≡ false
    → IsValid 4096 0 f.tail_buffer
    → tail_base f ≤ f.current_position
    → f.current_position ≤ total_size f
    → total_size f < 18446744073709551616
    → write_tail_buffer (current_stored_size f.chunk_map) buffer f ≡ (
      record f {
        tail_buffer =
            snoop_write
              (f.current_position - tail_base f)
              (take (in_tail buffer f) buffer)
              f.tail_buffer;
        current_position = f.current_position + in_tail buffer f;
      },
      drop (in_tail buffer f) buffer,
    )
unfolding write_tail_buffer
write_tail_buffer-written buffer f partly v behind inside small = rw partly (
    ap₂
      (λ (o n : ℕ). (
        record f {
          tail_buffer = snoop_write o (take n buffer) f.tail_buffer;
          current_position = add64 f.current_position n;
        },
        drop n buffer,
      ))
      offset_is count_is
    ∙ ap
        (λ (p : ℕ). (
          record f {
            tail_buffer =
                snoop_write (f.current_position - tail_base f) (take (in_tail buffer f) buffer)
                  f.tail_buffer;
            current_position = p;
          },
          drop (in_tail buffer f) buffer,
        ))
        (omega arith))
  where
    offset_is : u32 (sub64 f.current_position (tail_base f)) ≡ f.current_position - tail_base f
    offset_is = omega (arith, v.count_in)

    count_is :
        smaller
          (length buffer)
          (sub32 f.tail_buffer.entry_count (u32 (sub64 f.current_position (tail_base f))))
        ≡ in_tail buffer f
    count_is = rw offset_is (ground (arith, v.count_in))

pub length-overwritten :
    (k : ℕ) (xs ys : List ℕ) → k + length xs ≤ length ys → length (overwritten k xs ys) ≡ length ys
length-overwritten k xs ys le = omega (
  arith,
  length-append (take k ys ++ xs) (drop (k + length xs) ys),
  length-append (take k ys) xs,
  length-take k ys,
  length-drop (k + length xs) ys,
)

-- Bytes that reach the end leave nothing behind them.
pub overwritten-end :
    (k : ℕ) (xs ys : List ℕ) → length ys ≤ k + length xs → overwritten k xs ys ≡ take k ys ++ xs
overwritten-end k xs ys le =
    ap (λ (zs : List ℕ). take k ys ++ xs ++ zs) (drop_all (k + length xs) ys le)
    ∙ append-nil (take k ys ++ xs)

pub overwritten-split :
    (k n : ℕ) (xs ys : List ℕ)
    → n ≤ length xs
    → k + n ≡ length ys
    → overwritten k (take n xs) ys ++ drop n xs ≡ overwritten k xs ys
overwritten-split k n xs ys le e =
    ap (λ (zs : List ℕ). zs ++ drop n xs)
      (overwritten-end k (take n xs) ys (omega (arith, length-take n xs)))
    ∙ append_assoc (take k ys) (take n xs) (drop n xs)
    ∙ ap (λ (zs : List ℕ). take k ys ++ zs) (take-append-drop n xs)
    ∙ sym (overwritten-end k xs ys (omega arith))

pub both_hold : (a b c d : ℕ) → ((a == b) && leb c d) ≡ true → (a ≡ b) × (c ≤ d)
both_hold a b c d h = ground arith
