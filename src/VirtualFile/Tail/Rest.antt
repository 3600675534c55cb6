-- ===== src/VirtualFile/Tail/Rest.antt =====
-- What `VirtualFileImpl::write` does behind its loop, where the position lies in the tail buffer.
use inecontainer.Prelude.{
  ℕ, suc, ◌+◌, ◌-◌, ◌≤◌, ◌<◌, ◌≡◌, refl, sym, ◌∙◌, ap, Bool, true, false, Option, some, none, List,
  ◌++◌, length, length-take, length-drop, take, drop, take_all, arith, Bool-cases, inl, inr, ◌⊎◌,
  if◌then◌else◌, ltb, leb, ◌==◌, ge→ltb, ne→==, ==_iff, ◌&&◌,
}
use inecontainer.Prelude.Words.{add64}
use inecontainer.Status.{Status, no_status, container_unavailable, write_successful, to_bool}
use inecontainer.Header.{invalid_file_index}
use inecontainer.Ring.{IsValid, clear}
use inecontainer.Ring.Window.{entries}
use inecontainer.ChunkMap.{current_stored_size}
use inecontainer.Gather.{wrote_all}
use inecontainer.VirtualFile.{ChunkStore, VirtualFile}
use inecontainer.VirtualFile.Append.{append}
use inecontainer.VirtualFile.Write.{
  snoop_write, write_tail_buffer, write_loop, write_rest, report_written, write,
}
use inecontainer.VirtualFile.Tail.{length-entries, tail_base, total_size}
use inecontainer.VirtualFile.Tail.Append.{append_lem}
use inecontainer.VirtualFile.Tail.Overwrite.{
  overwritten, Kept, snoop_write_lem, clear_lem, wrote_all-successful, write_tail_buffer-cleared,
  in_tail, write_tail_buffer-written, length-overwritten, overwritten-end, overwritten-split,
  both_hold,
}

module _ {S : Type 0} (store : ChunkStore S) where
  pub write_loop-tail :
      (m e : ℕ) (raw buffer : List ℕ) (f : VirtualFile) (s : S)
      → tail_base f ≤ f.current_position
      → write_loop store (suc m) raw e buffer f s ≡ some (f, buffer, s, no_status)
  unfolding write_loop
  write_loop-tail m e raw buffer f s behind =
      rw (ge→ltb f.current_position (current_stored_size f.chunk_map) behind)
        (elim (Bool-cases (ltb 0 (length buffer))) [ inl e ↦ rw e refl | inr e ↦ rw e refl ])

  pub write-started :
      (raw name buffer : List ℕ) (f : VirtualFile) (s : S) (r : VirtualFile × S × Status)
      → f.available ≡ true
      → write_loop store
          (length buffer + 1)
          raw
          (add64 f.current_position (length buffer))
          buffer
          f
          s
        ≡ some (f, buffer, s, no_status)
      → write_rest store name (f, buffer, s, no_status) ≡ some r
      → write store raw name buffer f s ≡ some (report_written store (length buffer) r)
  unfolding write
  write-started raw name buffer f s r there e rest =
      ap
        (λ (b : Bool).
          if b
          then elim (write_loop store (length buffer + 1) raw
              (add64 f.current_position (length buffer)) buffer f s) [
                | none ↦ none
                | some r ↦ elim (write_rest store name r) [
                  | none ↦ none
                  | some w ↦ some (report_written store (length buffer) w)
                ]
              ]
          else some (f, s, container_unavailable))
        there
      ∙ ap
          (λ (o : Option (VirtualFile × List ℕ × S × Status)). elim o [
            | none ↦ none
            | some r ↦ elim (write_rest store name r) [
              | none ↦ none
              | some w ↦ some (report_written store (length buffer) w)
            ]
          ])
          e
      ∙ ap
          (λ (o : Option (VirtualFile × S × Status)). elim o [
            | none ↦ none
            | some w ↦ some (report_written store (length buffer) w)
          ])
          rest

  -- The file after the bytes of the tail from the position on are replaced, and what is behind the end
  -- appended.
  pub record Overwritten (buffer : List ℕ) (f : VirtualFile) (s : S)
      (r : Option (VirtualFile × S × Status)) : Type 0 where
    pub f' : VirtualFile
    pub s' : S
    pub result : r ≡ some (f', s', no_status)
    pub ring : IsValid 4096 0 f'.tail_buffer
    pub changed :
        entries 4096 0 f'.tail_buffer
        ≡ overwritten (f.current_position - tail_base f) buffer (entries 4096 0 f.tail_buffer)
    pub same : f' ≡ record f {
      tail_buffer = f'.tail_buffer;
      current_position = f.current_position + length buffer;
    }
    pub untouched : (s' ≡ s) ⊎ ((k : ℕ) × (s' ≡ store.set_last_status (write_successful k) s))

  pub write_rest-appended :
      (name buffer rest : List ℕ) (f g f' : VirtualFile) (s s' : S) (code : Status)
      → (length buffer == 0) ≡ false
      → write_tail_buffer (current_stored_size f.chunk_map) buffer f ≡ (g, rest)
      → (length rest == 0) ≡ false
      → append store name rest g s ≡ some (f', s', code)
      → wrote_all (length rest) code ≡ true
      → write_rest store name (f, buffer, s, no_status) ≡ some (f', s', no_status)
  unfolding write_rest to_bool
  write_rest-appended name buffer rest f g f' s s' code nonempty e more appended counted =
      simp (write_rest, nonempty, e, more, appended, counted) refl

  pub write_rest-kept :
      (name buffer rest : List ℕ) (f g : VirtualFile) (s : S)
      → (length buffer == 0) ≡ false
      → write_tail_buffer (current_stored_size f.chunk_map) buffer f ≡ (g, rest)
      → (length rest == 0) ≡ true
      → write_rest store name (f, buffer, s, no_status) ≡ some (g, s, no_status)
  unfolding write_rest to_bool
  write_rest-kept name buffer rest f g s nonempty e none_left =
      simp (write_rest, nonempty, e, none_left) refl

module _ {S : Type 0} (store : ChunkStore S) (name buffer : List ℕ) (f : VirtualFile) (s : S)
    (there : f.available ≡ true) (started : (f.start_chunk_index == invalid_file_index) ≡ false)
    (v : IsValid 4096 0 f.tail_buffer) (behind : tail_base f ≤ f.current_position)
    (inside : f.current_position ≤ total_size f)
    (room : f.current_position - tail_base f + length buffer < 4096)
    (small : total_size f + length buffer < 18446744073709551616)
    (nonempty : 0 < length buffer) where
  abbrev es : List ℕ
  es = entries 4096 0 f.tail_buffer

  is_nonempty : (length buffer == 0) ≡ false
  is_nonempty = ne→== (length buffer) 0 (omega arith)

  pub whole_tail :
      ((f.current_position == tail_base f) && leb f.tail_buffer.entry_count (length buffer)) ≡ true
      → Overwritten store buffer f s (write_rest store name (f, buffer, s, no_status))
  unfolding clear
  whole_tail whole =
      let at : (f.current_position ≡ tail_base f) × (f.tail_buffer.entry_count ≤ length buffer) =
        both_hold f.current_position (tail_base f) f.tail_buffer.entry_count (length buffer)
          whole in
      let g : VirtualFile = record f { tail_buffer = clear 4096 0 f.tail_buffer } in
      let (ring, none_left) = clear_lem f.tail_buffer v in
      let a = append_lem store name buffer g s there started ring (omega arith) (omega arith) in
      record {
        f' = a.f';
        s' = store.set_last_status (write_successful (length buffer)) s;
        result =
            write_rest-appended store name buffer buffer f g a.f' s _ _ is_nonempty
              (write_tail_buffer-cleared buffer f whole) is_nonempty a.result
              (wrote_all-successful (length buffer));
        ring = a.ring;
        changed =
            a.grown
            ∙ ap (λ (xs : List ℕ). xs ++ buffer) none_left
            ∙ sym (ap (λ (k : ℕ). take k es ++ buffer) (the_offset at.0))
            ∙ sym (
                overwritten-end (f.current_position - tail_base f) buffer es
                  (omega (arith, at.1, length-entries f.tail_buffer)));
        same =
            a.same
            ∙ ap (λ (p : ℕ). record f { tail_buffer = a.f'.tail_buffer; current_position = p })
                (omega (arith, at.0));
        untouched = inr (length buffer, refl);
      }
    where
      the_offset : f.current_position ≡ tail_base f → f.current_position - tail_base f ≡ 0
      the_offset e = omega (arith, e)

  abbrev k : ℕ
  k = f.current_position - tail_base f

  abbrev n : ℕ
  n = in_tail buffer f

  -- The file once its tail has the first bytes.
  abbrev g : VirtualFile
  g = record f {
    tail_buffer = snoop_write k (take n buffer) f.tail_buffer;
    current_position = f.current_position + n;
  }

  taken : length (take n buffer) ≡ n
  taken = length-take n buffer ∙ omega arith

  in_place : Kept k (take n buffer) f.tail_buffer g.tail_buffer
  in_place = snoop_write_lem (take n buffer) k f.tail_buffer v (omega (arith, taken))

  pub kept_tail :
      ((f.current_position == tail_base f) && leb f.tail_buffer.entry_count (length buffer)) ≡ false
      → length buffer ≤ f.tail_buffer.entry_count - k
      → Overwritten store buffer f s (write_rest store name (f, buffer, s, no_status))
  kept_tail partly fits =
      let all : n ≡ length buffer = omega arith in
      record {
        f' = g;
        s' = s;
        result =
            write_rest-kept store name buffer (drop n buffer) f g s is_nonempty
              (write_tail_buffer-written buffer f partly v behind inside (omega arith))
              ((==_iff (length (drop n buffer)) 0).1 (length-drop n buffer ∙ omega arith));
        ring = in_place.ring;
        changed =
            in_place.written
            ∙ ap (λ (xs : List ℕ). overwritten k xs es) (take_all n buffer (omega arith));
        same =
            ap (λ (m : ℕ). record f { tail_buffer = g.tail_buffer; current_position = m })
              (omega arith);
        untouched = inl refl;
      }

  pub appended_tail :
      ((f.current_position == tail_base f) && leb f.tail_buffer.entry_count (length buffer)) ≡ false
      → f.tail_buffer.entry_count - k < length buffer
      → Overwritten store buffer f s (write_rest store name (f, buffer, s, no_status))
  appended_tail partly more =
      let rest = drop n buffer in
      let left : length rest ≡ length buffer - n = length-drop n buffer in
      let count : g.tail_buffer.entry_count ≡ f.tail_buffer.entry_count =
        sym (length-entries g.tail_buffer)
        ∙ ap length in_place.written
        ∙ length-overwritten k (take n buffer) es
            (omega (arith, taken, length-entries f.tail_buffer))
        ∙ length-entries f.tail_buffer in
      let a =
        append_lem store name rest g s there started in_place.ring (omega (arith, count))
          (omega (arith, count)) in
      record {
        f' = a.f';
        s' = store.set_last_status (write_successful (length rest)) s;
        result =
            write_rest-appended store name buffer rest f g a.f' s _ _ is_nonempty
              (write_tail_buffer-written buffer f partly v behind inside (omega arith))
              (ne→== (length rest) 0 (omega arith)) a.result (wrote_all-successful (length rest));
        ring = a.ring;
        changed =
            a.grown
            ∙ ap (λ (xs : List ℕ). xs ++ rest) in_place.written
            ∙ overwritten-split k n buffer es (omega arith)
                (omega (arith, length-entries f.tail_buffer));
        same =
            a.same
            ∙ ap (λ (p : ℕ). record f { tail_buffer = a.f'.tail_buffer; current_position = p })
                (omega (arith, count));
        untouched = inr (length rest, refl);
      }
