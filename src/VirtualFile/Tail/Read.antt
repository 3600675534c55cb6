-- ===== src/VirtualFile/Tail/Read.antt =====
-- `VirtualFileImpl::read` where the position lies in the tail buffer.
use inecontainer.Prelude.{
  map_option, ℕ, zero, suc, ◌+◌, ◌-◌, ◌≤◌, ◌<◌, min, ◌≡◌, refl, ◌∙◌, ap, ap₂, Bool, true, some,
  List, [], ◌∷◌, ◌++◌, get_or, length, length-take, length-drop, take, drop, arith, Bool-cases, inl,
  inr, if◌then◌else◌, ltb, ge→ltb,
}
use inecontainer.Prelude.Words.{u32, sub64, add64}
use inecontainer.Status.{Status, no_status, container_unavailable, read_successful, to_bool}
use inecontainer.Ring.{RingBuffer, IsValid}
use inecontainer.Ring.Window.{entries}
use inecontainer.Ring.Refine.{snoop_lem}
use inecontainer.ChunkMap.{current_stored_size}
use inecontainer.Chunk.{overlay}
use inecontainer.VirtualFile.{ChunkStore, VirtualFile}
use inecontainer.VirtualFile.Read.{bytes_to_read, snoop_bytes, read_loop, read_tail, read}
use inecontainer.VirtualFile.Tail.{length-entries, tail_base, total_size, size_word-total, reported}

take-get :
    (n k : ℕ) (xs : List ℕ)
    → k < length xs
    → get_or xs k 0 ∷ take n (drop (k + 1) xs) ≡ take (suc n) (drop k xs)
take-get n k [] lt = absurd (omega arith)
take-get n zero (x ∷ xs) lt = refl
take-get n (suc k) (x ∷ xs) lt =
    ap (λ (j : ℕ). get_or xs k 0 ∷ take n (drop j (x ∷ xs))) next ∙ take-get n k xs (omega arith)
  where
    next : suc k + 1 ≡ suc (k + 1)
    next = omega arith

-- The bytes that are read out of the tail are its entries from the offset on.
snoop_bytes_lem :
    (tail : RingBuffer ℕ) (offset n : ℕ)
    → IsValid 4096 0 tail
    → offset + n ≤ tail.entry_count
    → snoop_bytes offset n tail ≡ take n (drop offset (entries 4096 0 tail))
unfolding snoop_bytes
snoop_bytes_lem tail offset zero v le = refl
snoop_bytes_lem tail offset (suc n) v le =
    ap₂ ◌∷◌ (snoop_lem 4096 0 tail offset 0 v (omega arith)).0
      (snoop_bytes_lem tail (offset + 1) n v (omega arith))
    ∙ take-get n offset (entries 4096 0 tail) (omega (arith, length-entries tail))

module _ {S : Type 0} (store : ChunkStore S) where
  bytes_to_read_lem :
      (desired : ℕ) (f : VirtualFile)
      → f.available ≡ true
      → f.current_position ≤ total_size f
      → total_size f < 18446744073709551616
      → desired < 4294967296
      → bytes_to_read desired f ≡ min desired (total_size f - f.current_position)
  unfolding bytes_to_read
  bytes_to_read_lem desired f there inside small few =
      rw (size_word-total f there small) (ground arith)

  -- No chunk is read where the position lies in the tail.
  read_loop-tail :
      (n m e : ℕ) (raw buffer : List ℕ) (f : VirtualFile) (s : S)
      → tail_base f ≤ f.current_position
      → read_loop store (suc m) raw n e buffer f s
        ≡ some (record {
          file = f;
          done = [];
          rest = buffer;
          remaining = n;
          state = s;
          status = no_status;
        })
  unfolding read_loop
  read_loop-tail n m e raw buffer f s behind =
      rw (ge→ltb f.current_position (current_stored_size f.chunk_map) behind)
        (elim (Bool-cases (ltb 0 n)) [ inl e ↦ rw e refl | inr e ↦ rw e refl ])

  read_is :
      (raw buffer : List ℕ) (f : VirtualFile) (s : S) (n : ℕ)
      → f.available ≡ true
      → bytes_to_read (length buffer) f ≡ n
      → read store raw buffer f s
        ≡ map_option
            (read_tail store n)
            (read_loop store (n + 1) raw n (add64 f.current_position n) buffer f s)
  unfolding read
  read_is raw buffer f s n there count =
      ap
        (λ (b : Bool).
          if b
          then map_option (read_tail store (bytes_to_read (length buffer) f)) (
              read_loop store (bytes_to_read (length buffer) f + 1) raw
                (bytes_to_read (length buffer) f)
                (add64 f.current_position (bytes_to_read (length buffer) f)) buffer f s)
          else some (f, buffer, s, container_unavailable))
        there
      ∙ ap
          (λ (k : ℕ).
            map_option (read_tail store k)
              (read_loop store (k + 1) raw k (add64 f.current_position k) buffer f s))
          count

  -- What the tail has of a read of `n` bytes.
  read_tail_lem :
      (n : ℕ) (buffer : List ℕ) (f : VirtualFile) (s : S)
      → f.available ≡ true
      → IsValid 4096 0 f.tail_buffer
      → tail_base f ≤ f.current_position
      → f.current_position + n ≤ total_size f
      → total_size f < 18446744073709551616
      → read_tail store n (record {
        file = f;
        done = [];
        rest = buffer;
        remaining = n;
        state = s;
        status = no_status;
      })
        ≡ (
          record f { current_position = f.current_position + n },
          take n (drop (f.current_position - tail_base f) (entries 4096 0 f.tail_buffer))
              ++ drop n buffer,
          store.set_last_status (read_successful n) s,
          read_successful n,
        )
  unfolding read_tail to_bool
  read_tail_lem n buffer f s there v behind inside small =
      let offset = f.current_position - tail_base f in
      let bytes = take n (drop offset (entries 4096 0 f.tail_buffer)) in
      let bytes_is : snoop_bytes (u32 (sub64 f.current_position (current_stored_size f.chunk_map)))
            n f.tail_buffer
          ≡ bytes =
        ap (λ (o : ℕ). snoop_bytes o n f.tail_buffer) (omega (arith, v.count_in))
        ∙ snoop_bytes_lem f.tail_buffer offset n v (omega arith) in
      let count : length bytes ≡ n =
        length-take n (drop offset (entries 4096 0 f.tail_buffer))
        ∙ omega (
          arith,
          length-drop offset (entries 4096 0 f.tail_buffer),
          length-entries f.tail_buffer,
        ) in
      ap
        (λ ((g, t, code) : VirtualFile × S × Status). (
          g,
          overlay
              (snoop_bytes (u32 (sub64 f.current_position (current_stored_size f.chunk_map))) n
                f.tail_buffer)
              buffer,
          t,
          code,
        ))
        (reported store (record f { current_position = add64 f.current_position n }) s
          (read_successful n) there)
      ∙ ap₂
          (λ (p : ℕ) (out : List ℕ). (
            record f { current_position = p },
            out,
            store.set_last_status (read_successful n) s,
            read_successful n,
          ))
          (omega arith)
          (ap (λ (xs : List ℕ). overlay xs buffer) bytes_is
            ∙ ap (λ (k : ℕ). bytes ++ drop k buffer) count)

  -- For an open file of fewer than 2^64 bytes, with a valid tail buffer and a position in the tail
  -- or at its end, and a buffer of fewer than 2^32 bytes, over any container: read ends with the
  -- bytes of the tail from the position on at the front of the buffer, as many as it has room for
  -- or are left, and the rest of the buffer as it was; status and position count these bytes, and
  -- nothing else changes.
  pub read-entries :
      (raw buffer : List ℕ) (f : VirtualFile) (s : S)
      → f.available ≡ true
      → IsValid 4096 0 f.tail_buffer
      → tail_base f ≤ f.current_position
      → f.current_position ≤ total_size f
      → total_size f < 18446744073709551616
      → length buffer < 4294967296
      → let n = min (length buffer) (total_size f - f.current_position) in
        read store raw buffer f s
        ≡ some (
          record f { current_position = f.current_position + n },
          take n (drop (f.current_position - tail_base f) (entries 4096 0 f.tail_buffer))
              ++ drop n buffer,
          store.set_last_status (read_successful n) s,
          read_successful n,
        )
  read-entries raw buffer f s there v behind inside small few =
      let n = min (length buffer) (total_size f - f.current_position) in
      let next : n + 1 ≡ suc n = omega arith in
      read_is raw buffer f s n there (bytes_to_read_lem (length buffer) f there inside small few)
      ∙ ap
          (λ (m : ℕ).
            map_option (read_tail store n)
              (read_loop store m raw n (add64 f.current_position n) buffer f s))
          next
      ∙ ap (map_option (read_tail store n))
          (read_loop-tail n n (add64 f.current_position n) raw buffer f s behind)
      ∙ ap some (read_tail_lem n buffer f s there v behind (omega arith) small)
