-- ===== src/Ring/Bulk.antt =====
-- The bulk operations of a ring: what lies in the segments that they hand out, and what finishing
-- one of them does to the entries.
use native.Mathlib.Nat.{mod-eq_of_lt, mod_self, mod-eq-sub-mod, zero-add, suc-add, add-zero}
use native.Mathlib.Decide.{dec_lt}
use inecontainer.Prelude.{
  ℕ, zero, suc, ◌+◌, ◌-◌, ◌%◌, ◌≤◌, ◌<◌, ◌≡◌, refl, sym, ◌∙◌, ap, ap₂, true, List, [], ◌∷◌, ◌++◌,
  append-nil, length, take, drop, get_or, ◌==◌, if◌then◌else◌, lt→ltb, ge→ltb, le→leb, ne→==, none,
  some, ◌⊎◌, inl, inr, arith,
}
use inecontainer.Prelude.Words.{sub32}
use inecontainer.Ring.{
  segment, RingBuffer, IsValid, skip_index, bulk_extraction_start, bulk_extraction_finish,
}
use inecontainer.Ring.Window.{window, entries, window-add, round_step}
use inecontainer.Ring.Refine.{skip_index_mod, round_add}

-- `p2` and `l2` when the far side may be empty.
front {ℓ} :
    {A : Type ℓ} (i : ℕ) (buf : List A)
    → segment (if i == 0 then none else some 0) (if i == 0 then 0 else i) buf ≡ take i buf
front zero buf = refl
front (suc i) buf = rw (ne→== (suc i) 0 (omega arith))

front_length : (i : ℕ) → (if i == 0 then 0 else i) ≡ i
front_length zero = refl
front_length (suc i) = rw (ne→== (suc i) 0 (omega arith))

module _ {ℓ} {A : Type ℓ} (L : ℕ) (d : A) where
  take-drop :
      (buf : List A) (h n : ℕ)
      → h < length buf
      → take (suc n) (drop h buf) ≡ get_or buf h d ∷ take n (drop (suc h) buf)
  take-drop [] h n hh = absurd (omega arith)
  take-drop (x ∷ buf) zero n hh = refl
  take-drop (x ∷ buf) (suc h) n hh = take-drop buf h n (omega arith)

  -- A window that does not go round is a plain segment.
  window_segment :
      (buf : List A) (h n : ℕ)
      → length buf ≡ L
      → h + n ≤ L
      → window L d buf h n ≡ take n (drop h buf)
  unfolding window
  window_segment buf h zero hl fits = refl
  window_segment buf h (suc zero) hl fits = sym (take-drop buf h 0 (omega arith))
  window_segment buf h (suc (suc n)) hl fits =
      ap (◌∷◌ (get_or buf h d)) (
        ap (λ (k : ℕ). window L d buf k (suc n)) next
        ∙ window_segment buf (suc h) (suc n) hl (omega arith))
      ∙ sym (take-drop buf h (suc n) (omega arith))
    where
      next : (h + 1) % L ≡ suc h
      next = mod-eq_of_lt (omega arith) ∙ omega arith

  -- Where the insertion index stands: straight ahead of the oldest entry, or round the end.
  pub straight_or_round :
      (r : RingBuffer A)
      → IsValid L d r
      → ((r.extraction_index + r.entry_count < L)
          × (r.insertion_index ≡ r.extraction_index + r.entry_count))
        ⊎ ((L ≤ r.extraction_index + r.entry_count)
            × (r.insertion_index + L ≡ r.extraction_index + r.entry_count))
  straight_or_round r v = elim (dec_lt (r.extraction_index + r.entry_count) L) [
    | yes p ↦ inl (p, v.in_step ∙ mod-eq_of_lt p)
    | no p ↦
        let sum : ℕ = r.extraction_index + r.entry_count in
        inr (
          omega arith,
          omega (
            arith,
            v.in_step,
            v.count_in,
            v.extraction_in,
            mod-eq-sub-mod {n = sum} {m = L} (omega arith),
            mod-eq_of_lt {n = sum - L} {m = L} (omega (arith, v.count_in, v.extraction_in)),
          ),
        )
  ]

  -- A window that goes round is the rest of the buffer and then its front.
  window_round :
      (buf : List A) (h n i : ℕ)
      → length buf ≡ L
      → h < L
      → i ≤ L
      → i + L ≡ h + n
      → window L d buf h n ≡ take (L - h) (drop h buf) ++ take i buf
  window_round buf h n i hl hh hi e =
      ap (window L d buf h) count
      ∙ window-add L d buf h (L - h) i hh
      ∙ ap₂ ◌++◌ (window_segment buf h (L - h) hl (omega arith))
          (ap (λ (k : ℕ). window L d buf k i) start ∙ window_segment buf 0 i hl (omega arith))
    where
      count : n ≡ (L - h) + i
      count = omega arith

      to_end : h + (L - h) ≡ L
      to_end = omega arith

      start : (h + (L - h)) % L ≡ 0
      start = ap (λ (k : ℕ). k % L) to_end ∙ mod_self L

  -- The two segments of `bulkExtractionStart` hold exactly the entries, in order, and it returns
  -- their number.
  pub bulk_extraction_start_lem :
      (r : RingBuffer A)
      → IsValid L d r
      → let (s, total) = bulk_extraction_start L d r in
        (segment s.p1 s.l1 r.buffer ++ segment s.p2 s.l2 r.buffer ≡ entries L d r)
        × (total ≡ r.entry_count)
        × (s.l1 + s.l2 ≡ total)
  unfolding bulk_extraction_start entries
  bulk_extraction_start_lem r v = elim (dec_lt 0 r.entry_count) [
    | no p ↦
        let zero_count : r.entry_count ≡ 0 = omega arith in
        rw (ge→ltb 0 r.entry_count (omega arith), zero_count) (unfold window in refl, refl, refl)
    | yes p ↦ rw (lt→ltb 0 r.entry_count p) (elim (straight_or_round r v) [
      | inl (fits, e) ↦ rw (lt→ltb r.extraction_index r.insertion_index (omega arith)) (
        append-nil _
            ∙ sym
                (window_segment r.buffer r.extraction_index r.entry_count v.storage (omega arith)),
        refl,
        omega arith,
      )
      | inr (over, e) ↦
          rw
            (
              ge→ltb r.extraction_index r.insertion_index (omega (arith, v.count_in)),
              to_end,
              front r.insertion_index r.buffer,
              front_length r.insertion_index,
            )
            (
              sym (
                  window_round r.buffer r.extraction_index r.entry_count r.insertion_index v.storage
                    v.extraction_in (omega (arith, v.insertion_in)) e),
              refl,
              omega (arith, v.extraction_in),
            )
    ])
  ]
    where
      to_end : sub32 L r.extraction_index ≡ L - r.extraction_index
      to_end = omega (arith, v.extraction_in, v.small)

  drop-window :
      (buf : List A) (h n m : ℕ)
      → h < L
      → drop n (window L d buf h (n + m)) ≡ window L d buf ((h + n) % L) m
  unfolding window
  drop-window buf h zero m hh = ap₂ (λ (j : ℕ) (k : ℕ). window L d buf j k) (sym at_h) (zero-add m)
    where
      at_h : (h + 0) % L ≡ h
      at_h = ap (λ (k : ℕ). k % L) (add-zero h) ∙ mod-eq_of_lt hh
  drop-window buf h (suc n) m hh = rw suc-add (
      drop-window buf ((h + 1) % L) n m (omega arith)
      ∙ ap (λ (k : ℕ). window L d buf k m) (round_step L d h n))

  -- `bulkExtractionFinish` drops as many of the oldest entries.
  pub bulk_extraction_finish_lem :
      (r : RingBuffer A) (n : ℕ)
      → IsValid L d r
      → n ≤ r.entry_count
      → let (r', done) = bulk_extraction_finish L d n r in
        (entries L d r' ≡ drop n (entries L d r)) × (done ≡ true) × IsValid L d r'
  unfolding bulk_extraction_finish entries
  bulk_extraction_finish_lem r n v le = rw (le→leb n r.entry_count le) (
    rw (at, fewer)
        (sym (
          ap (λ (k : ℕ). drop n (window L d r.buffer r.extraction_index k)) parts
          ∙ drop-window r.buffer r.extraction_index n (r.entry_count - n) v.extraction_in)),
    refl,
    record {
      storage = v.storage;
      positive = v.positive;
      small = v.small;
      insertion_in = v.insertion_in;
      extraction_in = rw at (omega (arith, v.positive));
      count_in = rw fewer (omega (arith, v.count_in));
      in_step =
          rw (at, fewer)
            (v.in_step
              ∙ sym (
                  round_add L r.extraction_index n (r.entry_count - n) r.entry_count
                    (omega arith)));
    },
  )
    where
      at : skip_index L r.extraction_index n ≡ (r.extraction_index + n) % L
      at = skip_index_mod L r.extraction_index n v.extraction_in (omega (arith, v.count_in)) v.small

      fewer : sub32 r.entry_count n ≡ r.entry_count - n
      fewer = omega (arith, v.count_in, v.small)

      parts : r.entry_count ≡ n + (r.entry_count - n)
      parts = omega arith
