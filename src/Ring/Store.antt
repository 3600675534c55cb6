-- ===== src/Ring/Store.antt =====
-- Bulk insertion as `VirtualFileImpl::append` does it: copied bytes join the entries in order.
use native.Mathlib.Nat.{mod-eq_of_lt, mod_self, add-zero}
use native.Mathlib.Decide.{dec_lt}
use inecontainer.Prelude.{
  ℕ, suc, ◌+◌, ◌-◌, ◌%◌, ◌≤◌, ◌<◌, ◌≡◌, refl, sym, ◌∙◌, ap, true, List, [], ◌∷◌, ◌++◌, append-nil,
  append_assoc, length, length-take, length-drop, length-set, take-append-drop, drop_all, take,
  drop, set, ltb, lt→ltb, ge→ltb, le→leb, gt→leb, ne→==, Option, none, some, ◌⊎◌, inl, inr, arith,
}
use inecontainer.Prelude.Words.{add32, sub32}
use inecontainer.Ring.{
  RingBuffer, Segments, IsValid, skip_index, bulk_insertion_start, bulk_insertion_finish, write_at,
  write_segment, copy_segments, store_bytes,
}
use inecontainer.Ring.Window.{window, entries, window-set_end}
use inecontainer.Ring.Refine.{skip_index_mod, round_add}
use inecontainer.Ring.Bulk.{straight_or_round}

module _ {ℓ} {A : Type ℓ} (L : ℕ) (d : A) where
  length-write_at : (i : ℕ) (xs buf : List A) → length (write_at i xs buf) ≡ length buf
  length-write_at i [] buf = refl
  length-write_at i (x ∷ xs) buf = length-write_at (suc i) xs (set buf i x) ∙ length-set buf i x

  -- Copying a run of entries to just past a window makes it longer by the run.
  window-write_at :
      (xs buf : List A) (h n i m : ℕ)
      → length buf ≡ L
      → h < L
      → n + length xs ≡ m
      → m ≤ L
      → i + length xs ≤ L
      → (xs ≡ []) ⊎ ((h + n) % L ≡ i)
      → window L d (write_at i xs buf) h m ≡ window L d buf h n ++ xs
  window-write_at [] buf h n i m hl hh e hm fits at =
      ap (window L d buf h) (omega arith) ∙ sym (append-nil _)
  window-write_at (x ∷ xs) buf h n i m hl hh e hm fits (inl at) = cc
  window-write_at (x ∷ xs) buf h n i m hl hh e hm fits (inr at) =
      window-write_at xs (set buf i x) h (suc n) (suc i) m (length-set buf i x ∙ hl) hh
        (omega arith) hm (omega arith) (next xs fits)
      ∙ ap (λ (w : List A). w ++ xs)
          (ap (λ (k : ℕ). window L d (set buf k x) h (suc n)) (sym at)
            ∙ window-set_end L d buf h n x hl hh (omega arith))
      ∙ append_assoc (window L d buf h n) (x ∷ []) xs
    where
      next : (ys : List A) → i + suc (length ys) ≤ L → (ys ≡ []) ⊎ ((h + suc n) % L ≡ suc i)
      next [] f = inl refl
      next (y ∷ ys) f = inr (
          sym (round_add L h n 1 (suc n) (omega arith))
          ∙ ap (λ (k : ℕ). (k + 1) % L) at
          ∙ mod-eq_of_lt (omega arith)
          ∙ omega arith)

  -- Bytes that fit behind the entries, copied to the end of the buffer and from its front on.
  two_runs :
      (r : RingBuffer A) (xs : List A) (k : ℕ)
      → IsValid L d r
      → length xs + r.entry_count ≤ L
      → k ≤ length xs
      → r.insertion_index + k ≤ L
      → (k ≡ length xs) ⊎ (r.insertion_index + k ≡ L)
      → window L d
          (write_at 0 (drop k xs) (write_at r.insertion_index (take k xs) r.buffer))
          r.extraction_index
          (r.entry_count + length xs)
        ≡ entries L d r ++ xs
  unfolding entries
  two_runs r xs k v room hk fits where_to =
      window-write_at (drop k xs) (write_at r.insertion_index (take k xs) r.buffer)
        r.extraction_index (r.entry_count + k) 0 (r.entry_count + length xs)
        (length-write_at r.insertion_index (take k xs) r.buffer ∙ v.storage) v.extraction_in
        (omega (arith, length-drop k xs)) (omega arith)
        (omega (arith, length-drop k xs, v.insertion_in)) (second where_to)
      ∙ ap (λ (w : List A). w ++ drop k xs)
          (window-write_at (take k xs) r.buffer r.extraction_index r.entry_count r.insertion_index
            (r.entry_count + k) v.storage v.extraction_in (omega (arith, length-take k xs))
            (omega arith) (omega (arith, length-take k xs)) (inr (sym v.in_step)))
      ∙ append_assoc (entries L d r) (take k xs) (drop k xs)
      ∙ ap (λ (w : List A). entries L d r ++ w) (take-append-drop k xs)
    where
      second :
          (k ≡ length xs) ⊎ (r.insertion_index + k ≡ L)
          → (drop k xs ≡ []) ⊎ ((r.extraction_index + (r.entry_count + k)) % L ≡ 0)
      second (inl e) = inl (drop_all k xs (omega arith))
      second (inr e) = inr (
          sym (round_add L r.extraction_index r.entry_count k (r.entry_count + k) refl)
          ∙ ap (λ (j : ℕ). (j + k) % L) (sym v.in_step)
          ∙ ap (λ (j : ℕ). j % L) e
          ∙ mod_self L)

  -- `bulkInsertionFinish` over a buffer whose window already holds the new entries.
  finish_stored :
      (r : RingBuffer A) (xs buf : List A)
      → IsValid L d r
      → length xs + r.entry_count ≤ L
      → length buf ≡ L
      → window L d buf r.extraction_index (r.entry_count + length xs) ≡ entries L d r ++ xs
      → let (r', done) = bulk_insertion_finish L d (length xs) (record r { buffer = buf }) in
        (entries L d r' ≡ entries L d r ++ xs) × (done ≡ true) × IsValid L d r'
  unfolding bulk_insertion_finish entries
  finish_stored r xs buf v room hl h =
      rw (le→leb (length xs) (sub32 L r.entry_count) (omega (arith, v.count_in, v.small))) (
        rw more h,
        refl,
        record {
          storage = hl;
          positive = v.positive;
          small = v.small;
          insertion_in = rw at (omega (arith, v.positive));
          extraction_in = v.extraction_in;
          count_in = rw more (omega arith);
          in_step =
              rw (at, more, v.in_step)
                (round_add L r.extraction_index r.entry_count (length xs)
                  (r.entry_count + length xs) refl);
        },
      )
    where
      at : skip_index L r.insertion_index (length xs) ≡ (r.insertion_index + length xs) % L
      at = skip_index_mod L r.insertion_index (length xs) v.insertion_in (omega arith) v.small

      more : add32 r.entry_count (length xs) ≡ r.entry_count + length xs
      more = omega (arith, v.small)

  copy_segments_nil : (s : Segments) (buf : List A) → copy_segments s [] buf ≡ buf
  unfolding copy_segments
  copy_segments_nil s buf = rw (ge→ltb s.l1 0 (omega arith)) (nothing s.p1)
    where
      nothing : (p : Option ℕ) → write_segment p [] buf ≡ buf
      nothing none = refl
      nothing (some i) = refl

  -- What the two copies leave in the buffer, by where the ring's free space lies.
  record Copied (r : RingBuffer A) (xs buf : List A) : Type ℓ where
    k : ℕ
    within : k ≤ length xs
    fits : r.insertion_index + k ≤ L
    where_to : (k ≡ length xs) ⊎ (r.insertion_index + k ≡ L)
    copied : buf ≡ write_at 0 (drop k xs) (write_at r.insertion_index (take k xs) r.buffer)

  -- All bytes fit into the first segment.
  Copied-once :
      (r : RingBuffer A) (xs : List A) (s : Segments)
      → s.p1 ≡ some r.insertion_index
      → length xs ≤ s.l1
      → r.insertion_index + length xs ≤ L
      → Copied r xs (copy_segments s xs r.buffer)
  unfolding copy_segments
  Copied-once r xs s p le fits = record {
    k = length xs;
    within = omega arith;
    fits = fits;
    where_to = inl refl;
    copied = rw (ge→ltb s.l1 (length xs) le, p, drop_all (length xs) xs (omega arith));
  }

  -- The first segment ends with the buffer, and the rest goes to the front.
  Copied-twice :
      (r : RingBuffer A) (xs : List A) (s : Segments)
      → s.p1 ≡ some r.insertion_index
      → s.p2 ≡ some 0
      → s.l1 < length xs
      → r.insertion_index + s.l1 ≡ L
      → Copied r xs (copy_segments s xs r.buffer)
  unfolding copy_segments
  Copied-twice r xs s p q lt ends = record {
    k = s.l1;
    within = omega arith;
    fits = omega arith;
    where_to = inr ends;
    copied = rw (
      lt→ltb s.l1 (length xs) lt,
      lt→ltb 0 (length (drop s.l1 xs)) (omega (arith, length-drop s.l1 xs)),
      p,
      q,
    );
  }

  Copied-segments :
      (r : RingBuffer A) (xs : List A)
      → IsValid L d r
      → length xs + r.entry_count ≤ L
      → 0 < length xs
      → Copied r xs (copy_segments (bulk_insertion_start L d r).0 xs r.buffer)
  unfolding bulk_insertion_start
  Copied-segments r xs v room some_bytes = elim (straight_or_round L d r v) [
    | inl (ahead, e) ↦
        rw (space, le→leb r.extraction_index r.insertion_index (omega arith), behind)
          (elim (dec_lt (L - r.insertion_index) (length xs)) [
            | yes over ↦
                Copied-twice r xs _ refl (rw (ne→== r.extraction_index 0 (omega arith))) over
                  (omega (arith, v.insertion_in))
            | no fits ↦ Copied-once r xs _ refl (omega arith) (omega (arith, v.insertion_in))
          ])
    | inr (round, e) ↦
        rw (space, gt→leb r.extraction_index r.insertion_index (omega arith))
          (Copied-once r xs _ refl (omega (arith, v.small, v.count_in))
            (omega (arith, v.extraction_in)))
  ]
    where
      space : ltb 0 (sub32 L r.entry_count) ≡ true
      space = lt→ltb 0 _ (omega (arith, v.small, v.count_in))

      behind : sub32 L r.insertion_index ≡ L - r.insertion_index
      behind = omega (arith, v.small, v.insertion_in)

  -- With room for all of them, the bytes that `append` copies through the segments of
  -- `bulkInsertionStart` join the entries at the end, in order, and the ring stays valid.
  pub store_bytes_lem :
      (r : RingBuffer A) (xs : List A)
      → IsValid L d r
      → length xs + r.entry_count ≤ L
      → let (r', done) = store_bytes L d xs r in
        (entries L d r' ≡ entries L d r ++ xs) × (done ≡ true) × IsValid L d r'
  unfolding store_bytes
  store_bytes_lem r [] v room = rw (copy_segments_nil (bulk_insertion_start L d r).0 r.buffer) (
      finish_stored r [] r.buffer v room v.storage (
        ap (window L d r.buffer r.extraction_index) (add-zero r.entry_count)
        ∙ unfold entries in sym (append-nil _)))
  store_bytes_lem r (x ∷ xs) v room =
      let c : Copied r (x ∷ xs) (copy_segments (bulk_insertion_start L d r).0 (x ∷ xs) r.buffer) =
        Copied-segments r (x ∷ xs) v room (omega arith) in
      finish_stored r (x ∷ xs) _ v room
        (ap length c.copied
          ∙ length-write_at 0 (drop c.k (x ∷ xs))
              (write_at r.insertion_index (take c.k (x ∷ xs)) r.buffer)
          ∙ length-write_at r.insertion_index (take c.k (x ∷ xs)) r.buffer
          ∙ v.storage)
        (ap (λ (b : List A). window L d b r.extraction_index (r.entry_count + length (x ∷ xs)))
            c.copied
          ∙ two_runs r (x ∷ xs) c.k v room c.within c.fits c.where_to)
