-- ===== src/VirtualFile/Tail/Write.antt =====
-- `VirtualFileImpl::write` where the position lies in the tail buffer.
use inecontainer.Prelude.{
  ℕ, suc, ◌+◌, ◌-◌, ◌≤◌, ◌<◌, ◌≡◌, refl, sym, ◌∙◌, ap, true, false, Option, some, List, [], ◌∷◌,
  length, arith, Bool-cases, inl, inr, ◌⊎◌, leb, ◌==◌, leb→le, ◌&&◌,
}
use inecontainer.Prelude.Words.{add64}
use inecontainer.Status.{Status, no_status, write_successful, to_bool}
use inecontainer.Header.{invalid_file_index}
use inecontainer.Ring.{IsValid}
use inecontainer.Ring.Window.{entries}
use inecontainer.VirtualFile.{ChunkStore, VirtualFile}
use inecontainer.VirtualFile.Write.{write_loop, write_rest, report_written, write}
use inecontainer.VirtualFile.Tail.{tail_base, total_size, reported}
use inecontainer.VirtualFile.Tail.Overwrite.{overwritten, overwritten-nil}
use inecontainer.VirtualFile.Tail.Rest.{
  write_loop-tail, write-started, Overwritten, whole_tail, kept_tail, appended_tail,
}

module _ {S : Type 0} (store : ChunkStore S) where
  -- What a write at a position in the tail leaves: `chunk_map`, and all else but the tail and the
  -- position, is as before, and the container has at most a new status.
  pub record Written (buffer : List ℕ) (f : VirtualFile) (s : S)
      (r : Option (VirtualFile × S × Status)) : Type 0 where
    pub f' : VirtualFile
    pub s' : S
    pub result :
        r
        ≡ some (
          f',
          store.set_last_status (write_successful (length buffer)) s',
          write_successful (length buffer),
        )
    pub ring : IsValid 4096 0 f'.tail_buffer
    pub changed :
        entries 4096 0 f'.tail_buffer
        ≡ overwritten (f.current_position - tail_base f) buffer (entries 4096 0 f.tail_buffer)
    pub same : f' ≡ record f {
      tail_buffer = f'.tail_buffer;
      current_position = f.current_position + length buffer;
    }
    pub untouched : (s' ≡ s) ⊎ ((k : ℕ) × (s' ≡ store.set_last_status (write_successful k) s))

  report_written-fine :
      (n : ℕ) (f : VirtualFile) (s : S)
      → f.available ≡ true
      → report_written store n (f, s, no_status)
        ≡ (f, store.set_last_status (write_successful n) s, write_successful n)
  unfolding report_written to_bool
  report_written-fine n f s there = reported store f s (write_successful n) there

  write_rest-empty :
      (name : List ℕ) (f : VirtualFile) (s : S)
      → write_rest store name (f, [], s, no_status) ≡ some (f, s, no_status)
  unfolding write_rest to_bool
  write_rest-empty name f s = refl

  write_rest_lem :
      (name buffer : List ℕ) (f : VirtualFile) (s : S)
      → f.available ≡ true
      → (f.start_chunk_index == invalid_file_index) ≡ false
      → IsValid 4096 0 f.tail_buffer
      → tail_base f ≤ f.current_position
      → f.current_position ≤ total_size f
      → f.current_position - tail_base f + length buffer < 4096
      → total_size f + length buffer < 18446744073709551616
      → Overwritten store buffer f s (write_rest store name (f, buffer, s, no_status))
  write_rest_lem name [] f s there started v behind inside room small = record {
    f' = f;
    s' = s;
    result = write_rest-empty name f s;
    ring = v;
    changed =
        sym (overwritten-nil (f.current_position - tail_base f) (entries 4096 0 f.tail_buffer));
    same = ap (λ (m : ℕ). record f { current_position = m }) (the_position f.current_position);
    untouched = inl refl;
  }
    where
      the_position : (p : ℕ) → p ≡ p + length {A = ℕ} []
      the_position p = omega arith
  write_rest_lem name (x ∷ buffer) f s there started v behind inside room small =
      elim (Bool-cases (
        (f.current_position == tail_base f)
        && leb f.tail_buffer.entry_count (length (x ∷ buffer)))) [
          | inl whole ↦
              whole_tail store name (x ∷ buffer) f s there started v behind inside room small
                (omega arith) whole
          | inr partly ↦
              elim (Bool-cases (
                leb (length (x ∷ buffer))
                  (f.tail_buffer.entry_count - (f.current_position - tail_base f)))) [
                    | inl fits ↦
                        kept_tail store name (x ∷ buffer) f s there started v behind inside room
                          small (omega arith) partly (leb→le _ _ fits)
                    | inr more ↦
                        appended_tail store name (x ∷ buffer) f s there started v behind inside room
                          small (omega arith) partly (ground (arith, more))
                  ]
        ]

  -- For an open file whose start chunk is there, with a valid tail buffer, a position in the tail
  -- or at its end, a buffer that ends fewer than 4096 bytes behind the chunks and fewer than 2^64
  -- bytes in all, over any container: write replaces the bytes of the tail from the position on and
  -- appends what goes further. The position moves behind the bytes and the status counts them, the
  -- tail buffer stays valid and nothing else of the file changes; the container has a new last
  -- status at most, so that no chunk is saved or loaded.
  pub write-entries :
      (raw name buffer : List ℕ) (f : VirtualFile) (s : S)
      → f.available ≡ true
      → (f.start_chunk_index == invalid_file_index) ≡ false
      → IsValid 4096 0 f.tail_buffer
      → tail_base f ≤ f.current_position
      → f.current_position ≤ total_size f
      → f.current_position - tail_base f + length buffer < 4096
      → total_size f + length buffer < 18446744073709551616
      → Written buffer f s (write store raw name buffer f s)
  write-entries raw name buffer f s there started v behind inside room small =
      let o = write_rest_lem name buffer f s there started v behind inside room small in
      record {
        f' = o.f';
        s' = o.s';
        result =
            write-started store raw name buffer f s (o.f', o.s', no_status) there
              (ap
                  (λ (m : ℕ).
                    write_loop store m raw (add64 f.current_position (length buffer)) buffer f s)
                  next
                ∙ write_loop-tail store (length buffer) _ raw buffer f s behind)
              o.result
            ∙ ap some (
                report_written-fine (length buffer) o.f' o.s'
                  (ap (λ (h : VirtualFile). h.available) o.same ∙ there));
        ring = o.ring;
        changed = o.changed;
        same = o.same;
        untouched = o.untouched;
      }
    where
      next : length buffer + 1 ≡ suc (length buffer)
      next = omega arith
