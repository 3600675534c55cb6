-- ===== src/VirtualFile/Tail/Append.antt =====
-- `VirtualFileImpl::append` where the tail buffer has room for the whole buffer.
use inecontainer.Prelude.{
  map_option, ℕ, suc, ◌+◌, ◌<◌, ◌≡◌, refl, sym, ◌∙◌, ap, ap₂, true, false, Option, some, List, [],
  ◌∷◌, ◌++◌, append-nil, length, length-append, arith, if◌then◌else◌, ltb, ◌==◌, lt→ltb, gt→leb,
}
use inecontainer.Prelude.Words.{sub32}
use inecontainer.Status.{Status, no_status, write_successful, to_bool}
use inecontainer.Header.{invalid_file_index}
use inecontainer.Ring.{IsValid, available, store_bytes}
use inecontainer.Ring.Window.{entries}
use inecontainer.Ring.Store.{store_bytes_lem}
use inecontainer.VirtualFile.{ChunkStore, VirtualFile, size_word, tail_buffer_size}
use inecontainer.VirtualFile.Append.{
  append, append_rest, append_loop, append_fuel, write_stream_start_if_needed,
}
use inecontainer.VirtualFile.Tail.{length-entries, tail_base, total_size, size_word-total, reported}

module _ {S : Type 0} (store : ChunkStore S) where
  -- The file after its tail has taken the buffer.
  abbrev filled : List ℕ → VirtualFile → VirtualFile
  filled buffer f =
      if ltb 0 (length buffer)
      then record f { tail_buffer = (store_bytes tail_buffer_size 0 buffer f.tail_buffer).0 }
      else f

  record Filled (buffer : List ℕ) (f f' : VirtualFile) : Type 0 where
    pub ring : IsValid 4096 0 f'.tail_buffer
    pub grown : entries 4096 0 f'.tail_buffer ≡ entries 4096 0 f.tail_buffer ++ buffer
    pub same : f' ≡ record f { tail_buffer = f'.tail_buffer }

  filled_lem :
      (buffer : List ℕ) (f : VirtualFile)
      → IsValid 4096 0 f.tail_buffer
      → f.tail_buffer.entry_count + length buffer < 4096
      → Filled buffer f (filled buffer f)
  filled_lem [] f v room = record { ring = v; grown = sym (append-nil _); same = refl }
  filled_lem (x ∷ buffer) f v room =
      let l = store_bytes_lem 4096 0 f.tail_buffer (x ∷ buffer) v (omega arith) in
      rw (lt→ltb 0 (length (x ∷ buffer)) (omega arith))
        (record { ring = l.2; grown = l.0; same = refl })

  -- The loop ends at once where the tail has room for the buffer.
  no_turn :
      (n : ℕ) (buffer : List ℕ) (f : VirtualFile) (s : S)
      → f.tail_buffer.entry_count + length buffer < 4096
      → append_loop store (suc n) buffer f s ≡ some (f, buffer, s, no_status)
  unfolding append_loop available
  no_turn n buffer f s room =
      rw (gt→leb (sub32 4096 f.tail_buffer.entry_count) (length buffer) (omega arith)) refl

  no_start :
      (raw : List ℕ) (f : VirtualFile) (s : S)
      → (f.start_chunk_index == invalid_file_index) ≡ false
      → write_stream_start_if_needed store raw f s ≡ some (f, s, no_status)
  unfolding write_stream_start_if_needed
  no_start raw f s started = rw started refl

  append_fuel_lem :
      (buffer : List ℕ) (f : VirtualFile)
      → append_fuel buffer f ≡ suc (f.tail_buffer.entry_count + length buffer)
  unfolding append_fuel
  append_fuel_lem buffer f = omega arith

  append-started :
      (raw buffer : List ℕ) (f f₁ : VirtualFile) (s s₁ : S) (code : Status)
      → write_stream_start_if_needed store raw f s ≡ some (f₁, s₁, code)
      → to_bool code ≡ false
      → f₁.available ≡ true
      → append store raw buffer f s
        ≡ map_option
            (append_rest store (length buffer))
            (append_loop store (append_fuel buffer f₁) buffer f₁ s₁)
  unfolding append
  append-started raw buffer f f₁ s s₁ code e started there = simp (append, e, started, there) refl

  append_is :
      (raw buffer : List ℕ) (f : VirtualFile) (s : S)
      → f.available ≡ true
      → (f.start_chunk_index == invalid_file_index) ≡ false
      → f.tail_buffer.entry_count + length buffer < 4096
      → append store raw buffer f s
        ≡ some (append_rest store (length buffer) (f, buffer, s, no_status))
  unfolding to_bool
  append_is raw buffer f s there started room =
      append-started raw buffer f f s s no_status (no_start raw f s started) no_error there
      ∙ ap
          (λ (n : ℕ).
            map_option (append_rest store (length buffer)) (append_loop store n buffer f s))
          (append_fuel_lem buffer f)
      ∙ ap (map_option (append_rest store (length buffer)))
          (no_turn (f.tail_buffer.entry_count + length buffer) buffer f s room)
    where
      no_error : to_bool no_status ≡ false
      no_error = refl

  append_rest_is :
      (n : ℕ) (buffer : List ℕ) (f : VirtualFile) (s : S)
      → (filled buffer f).available ≡ true
      → append_rest store n (f, buffer, s, no_status) ≡ (
        record (filled buffer f) { current_position = size_word (filled buffer f) },
        store.set_last_status (write_successful n) s,
        write_successful n,
      )
  unfolding append_rest to_bool
  append_rest_is n buffer f s there = reported store _ s (write_successful n) there

  -- What an append into the tail leaves.
  pub record Appended (buffer : List ℕ) (f : VirtualFile) (s : S)
      (r : Option (VirtualFile × S × Status)) : Type 0 where
    pub f' : VirtualFile
    pub result :
        r
        ≡ some (
          f',
          store.set_last_status (write_successful (length buffer)) s,
          write_successful (length buffer),
        )
    pub ring : IsValid 4096 0 f'.tail_buffer
    pub grown : entries 4096 0 f'.tail_buffer ≡ entries 4096 0 f.tail_buffer ++ buffer
    pub same :
        f'
        ≡ record f { tail_buffer = f'.tail_buffer; current_position = total_size f + length buffer }

  -- The whole buffer joins the tail, and the position is the new size.
  pub append_lem :
      (raw buffer : List ℕ) (f : VirtualFile) (s : S)
      → f.available ≡ true
      → (f.start_chunk_index == invalid_file_index) ≡ false
      → IsValid 4096 0 f.tail_buffer
      → f.tail_buffer.entry_count + length buffer < 4096
      → total_size f + length buffer < 18446744073709551616
      → Appended buffer f s (append store raw buffer f s)
  append_lem raw buffer f s there started v room small =
      let l = filled_lem buffer f v room in
      let g : VirtualFile = filled buffer f in
      let there' : g.available ≡ true = ap (λ (h : VirtualFile). h.available) l.same ∙ there in
      let same_base : tail_base g ≡ tail_base f = ap (λ (h : VirtualFile). tail_base h) l.same in
      let count : g.tail_buffer.entry_count ≡ f.tail_buffer.entry_count + length buffer =
        sym (length-entries g.tail_buffer)
        ∙ ap length l.grown
        ∙ length-append (entries 4096 0 f.tail_buffer) buffer
        ∙ ap (λ (n : ℕ). n + length buffer) (length-entries f.tail_buffer) in
      let size_is : size_word g ≡ total_size f + length buffer =
        size_word-total g there' (omega (arith, count, same_base))
        ∙ omega (arith, count, same_base) in
      record {
        f' = record g { current_position = size_word g };
        result =
            append_is raw buffer f s there started room
            ∙ ap some (append_rest_is (length buffer) buffer f s there');
        ring = l.ring;
        grown = l.grown;
        same = ap₂ (λ (h : VirtualFile) (n : ℕ). record h { current_position = n }) l.same size_is;
      }
