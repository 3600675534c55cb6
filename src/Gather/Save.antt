-- ===== src/Gather/Save.antt =====
-- What the loop of `StreamDataChunk::save` writes.
use inecontainer.Prelude.{
  ℕ, ◌+◌, ◌-◌, ◌<◌, min, ◌≡◌, refl, sym, ◌∙◌, ap, true, List, [], ◌∷◌, ◌++◌, length, take, take_all,
  ◌≢◌, zero, suc, length-append, length-take, ◌==◌, ==_iff, ne→==, Bool-cases, inl, inr, arith,
}
use inecontainer.Prelude.Words.{sub32}
use inecontainer.Status.{Status, no_status, write_successful, success}
use inecontainer.Gather.{Segment, bytes_to_write, wrote_all, save_segment, save_segments}
use inecontainer.Gather.Sink.{Sink}

-- The bytes of all segments, in their order.
abbrev pub all_bytes : List Segment → List ℕ
all_bytes [] = []
all_bytes (it ∷ segments) = it.base ++ all_bytes segments

abbrev pub processed_sum : List Segment → ℕ
processed_sum [] = 0
processed_sum (it ∷ segments) = it.processed_count + processed_sum segments

wrote_all_lem : (n : ℕ) → wrote_all n (write_successful n) ≡ true
unfolding wrote_all success
wrote_all_lem n = (==_iff n n).1 refl

-- No segment has been processed.
abbrev pub IsFresh : List Segment → Type 0
IsFresh [] = Unit
IsFresh (it ∷ segments) = (it.processed_count ≡ 0) × IsFresh segments

-- A take that goes past the first list goes on in the second.
take-append_rest :
    (n k : ℕ) (xs ys : List ℕ)
    → k ≡ min (length xs) n
    → take k xs ++ take (n - k) ys ≡ take n (xs ++ ys)
take-append_rest n zero [] ys e = ap (λ (k : ℕ). take k ys) all_left
  where
    all_left : n - zero ≡ n
    all_left = omega arith
take-append_rest n (suc k) [] ys e = absurd (omega arith)
take-append_rest zero zero (x ∷ xs) ys e = ap (λ (k : ℕ). take k ys) none_left
  where
    none_left : zero - zero ≡ zero
    none_left = omega arith
take-append_rest zero (suc k) (x ∷ xs) ys e = absurd (omega arith)
take-append_rest (suc n) zero (x ∷ xs) ys e = absurd (omega arith)
take-append_rest (suc n) (suc k) (x ∷ xs) ys e =
    ap (◌∷◌ x)
      (ap (λ (j : ℕ). take k xs ++ take j ys) less ∙ take-append_rest n k xs ys (omega arith))
  where
    less : suc n - suc k ≡ n - k
    less = omega arith

pub bytes_to_write_lem :
    (remaining : ℕ) (it : Segment) → bytes_to_write remaining it ≡ min (length it.base) remaining
bytes_to_write_lem remaining it = ground arith

processed_sum_fresh : (segments : List Segment) → IsFresh segments → processed_sum segments ≡ 0
processed_sum_fresh [] f = refl
processed_sum_fresh (it ∷ segments) f = omega (arith, f.0, processed_sum_fresh segments f.1)

module _ {S : Type 0} (k : Sink S) where
  save_segment-written :
      (n : ℕ) (it : Segment) (s s' : S)
      → k.write (take n it.base) s ≡ (s', write_successful n)
      → save_segment k.write n it s ≡ (record it { processed_count = n }, s', no_status)
  unfolding save_segment
  save_segment-written n it s s' e = rw (e, wrote_all_lem n) refl

  save_segments-step :
      (remaining n : ℕ) (it : Segment) (segments : List Segment) (s s' : S)
      → remaining ≢ 0
      → bytes_to_write remaining it ≡ n
      → save_segment k.write n it s ≡ (record it { processed_count = n }, s', no_status)
      → save_segments k.write remaining (it ∷ segments) s ≡ (
        record it { processed_count = n }
            ∷ (save_segments k.write (sub32 remaining n) segments s').0,
        (save_segments k.write (sub32 remaining n) segments s').1,
        (save_segments k.write (sub32 remaining n) segments s').2,
      )
  unfolding save_segments
  save_segments-step remaining n it segments s s' ne en e = rw (en, e, ne→== remaining 0 ne) refl

  save_segments-none :
      (remaining : ℕ) (it : Segment) (segments : List Segment) (s : S)
      → remaining ≡ 0
      → save_segments k.write remaining (it ∷ segments) s ≡ (it ∷ segments, s, no_status)
  unfolding save_segments
  save_segments-none remaining it segments s e = rw e refl

  -- What the loop must make of a state.
  pub record Saved (remaining : ℕ) (segments : List Segment) (s : S) (r : List Segment × S × Status)
      : Type 0 where
    pub written : r.1 ≡ k.put (take remaining (all_bytes segments)) s
    pub done : r.2 ≡ no_status
    pub counted : processed_sum r.0 ≡ min remaining (length (all_bytes segments))

  Saved-more :
      (remaining : ℕ) (it : Segment) (segments : List Segment) (s : S)
      → remaining < 4294967296
      → remaining ≢ 0
      → k.HasRoom (min remaining (length (all_bytes (it ∷ segments)))) s
      → ((s' : S)
          → k.HasRoom
              (min (sub32 remaining (bytes_to_write remaining it)) (length (all_bytes segments)))
              s'
          → Saved
              (sub32 remaining (bytes_to_write remaining it))
              segments
              s'
              (save_segments k.write (sub32 remaining (bytes_to_write remaining it)) segments s'))
      → Saved remaining (it ∷ segments) s (save_segments k.write remaining (it ∷ segments) s)
  Saved-more remaining it segments s small ne room later =
      rw (save_segments-step remaining n it segments s s' ne refl step) (record {
        written =
            r.written
            ∙ k.put-append xs (take (sub32 remaining n) (all_bytes segments)) s (
                k.less-HasRoom _ _ s
                  (omega (
                    arith,
                    xs_length,
                    count,
                    rest,
                    size,
                    length-take (sub32 remaining n) (all_bytes segments),
                  ))
                  room)
            ∙ ap (λ (l : List ℕ). k.put l s) joined;
        done = r.done;
        counted = omega (arith, r.counted, count, rest, size);
      })
    where
      n : ℕ
      n = bytes_to_write remaining it

      count : n ≡ min (length it.base) remaining
      count = bytes_to_write_lem remaining it

      rest : sub32 remaining n ≡ remaining - n
      rest = omega (arith, count)

      size : length (all_bytes (it ∷ segments)) ≡ length it.base + length (all_bytes segments)
      size = length-append it.base (all_bytes segments)

      xs : List ℕ
      xs = take n it.base

      xs_length : length xs ≡ n
      xs_length = omega (arith, length-take n it.base, count)

      s' : S
      s' = k.put xs s

      step : save_segment k.write n it s ≡ (record it { processed_count = n }, s', no_status)
      step = save_segment-written n it s s' (
          k.write-put xs s
            (k.less-HasRoom (length xs) _ s (omega (arith, xs_length, count, size)) room)
          ∙ ap (λ (m : ℕ). (s', write_successful m)) xs_length)

      r :
          Saved
            (sub32 remaining n)
            segments
            s'
            (save_segments k.write (sub32 remaining n) segments s')
      r = later s' (
          k.put-HasRoom _ xs s
            (k.less-HasRoom _ _ s (omega (arith, xs_length, count, rest, size)) room))

      joined :
          xs ++ take (sub32 remaining n) (all_bytes segments)
          ≡ take remaining (all_bytes (it ∷ segments))
      joined = rw rest (take-append_rest remaining n it.base (all_bytes segments) count)

  -- With room in the container, `save` writes the first bytes of its segments, as many as remain of
  -- the payload, one after the other and through segments of any length; the segments' processed
  -- counts add up to that many, and the status has nothing to report.
  pub save_segments_lem :
      (remaining : ℕ) (segments : List Segment) (s : S)
      → remaining < 4294967296
      → IsFresh segments
      → k.HasRoom (min remaining (length (all_bytes segments))) s
      → Saved remaining segments s (save_segments k.write remaining segments s)
  save_segments_lem remaining [] s small fresh room =
      unfold save_segments in
      record {
        written = sym (
            ap (λ (l : List ℕ). k.put l s) (take_all remaining [] (omega arith))
            ∙ k.put-nil _ s room);
        done = refl;
        counted = omega arith;
      }
  save_segments_lem remaining (it ∷ segments) s small fresh room =
      elim (Bool-cases (remaining == 0)) [
        | inl none_left ↦
            let e : remaining ≡ 0 = (==_iff remaining 0).0 none_left in
            rw (save_segments-none remaining it segments s e) (record {
              written = sym (
                  ap (λ (r : ℕ). k.put (take r (all_bytes (it ∷ segments))) s) e
                  ∙ k.put-nil _ s room);
              done = refl;
              counted = omega (arith, e, processed_sum_fresh (it ∷ segments) fresh);
            })
        | inr left ↦
            Saved-more remaining it segments s small (ground (arith, left)) room (λ s' room'.
              save_segments_lem (sub32 remaining (bytes_to_write remaining it)) segments s'
                (omega arith) fresh.1 room')
      ]
