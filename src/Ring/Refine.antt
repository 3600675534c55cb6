-- ===== src/Ring/Refine.antt =====
-- The single-entry operations of a ring against a bounded queue of its entries.
use native.Mathlib.Nat.{mod-eq_of_lt, mod-eq-sub-mod, mod-add-mod}
use native.Mathlib.Decide.{dec_lt}
use inecontainer.Prelude.{
  ℕ, zero, suc, ◌+◌, ◌-◌, ◌%◌, ◌≤◌, ◌<◌, ◌≡◌, refl, sym, ◌∙◌, ap, ap₂, true, false, [], ◌∷◌, ◌++◌,
  length, get_or, set, lt→ltb, ge→ltb, length-set, arith,
}
use inecontainer.Prelude.Words.{add32, sub32}
use inecontainer.Ring.{
  RingBuffer, IsValid, next_index, skip_index, insert, extract, snoop, snoop_set,
}
use inecontainer.Ring.Window.{
  window, entries, length-window, get_or-window, set-window_in, round_step, window-set_end,
}
use inecontainer.Ring.Queue

-- Both ways of moving an index on go round at the end of the buffer.
pub next_index_mod : (L i : ℕ) → i < L → L ≤ 2147483648 → next_index L i ≡ (i + 1) % L
next_index_mod L i hi small = elim (dec_lt (i + 1) L) [
  | yes p ↦ ground (arith, mod-eq_of_lt p)
  | no p ↦ ground (
    arith,
    mod-eq-sub-mod {n = i + 1} {m = L} (omega arith),
    mod-eq_of_lt {n = i + 1 - L} {m = L} (omega arith),
  )
]

pub skip_index_mod : (L i n : ℕ) → i < L → n ≤ L → L ≤ 2147483648 → skip_index L i n ≡ (i + n) % L
skip_index_mod L i n hi hn small = elim (dec_lt (i + n) L) [
  | yes p ↦ ground (arith, mod-eq_of_lt p)
  | no p ↦ ground (
    arith,
    mod-eq-sub-mod {n = i + n} {m = L} (omega arith),
    mod-eq_of_lt {n = i + n - L} {m = L} (omega arith),
  )
]

pub round_add : (L e c n m : ℕ) → c + n ≡ m → ((e + c) % L + n) % L ≡ (e + m) % L
round_add L e c n m h = rw mod-add-mod (ap (λ (k : ℕ). k % L) (omega arith))

module _ {ℓ} {A : Type ℓ} (L : ℕ) (d : A) where
  insert_room :
      (r : RingBuffer A) (x : A)
      → IsValid L d r
      → r.entry_count < L
      → IsValid L d (insert L d x r).0
        × (entries L d (insert L d x r).0 ≡ entries L d r ++ x ∷ [])
        × ((insert L d x r).1 ≡ true)
  unfolding insert entries
  insert_room r x v room =
      let next : next_index L r.insertion_index ≡ (r.insertion_index + 1) % L =
        next_index_mod L r.insertion_index v.insertion_in v.small in
      let longer : add32 r.entry_count 1 ≡ suc r.entry_count = omega (arith, v.small) in
      rw (lt→ltb r.entry_count L room) (
        record {
          storage = length-set r.buffer r.insertion_index x ∙ v.storage;
          positive = v.positive;
          small = v.small;
          insertion_in = rw next (omega (arith, v.positive));
          extraction_in = v.extraction_in;
          count_in = rw longer room;
          in_step =
              rw (longer, next, v.in_step)
                (round_add L r.extraction_index r.entry_count 1 _ (omega arith));
        },
        rw (longer, v.in_step)
            (window-set_end L d r.buffer r.extraction_index r.entry_count x v.storage
              v.extraction_in room),
        refl,
      )

  pub length-entries : (r : RingBuffer A) → length (entries L d r) ≡ r.entry_count
  unfolding entries
  length-entries r = length-window L d r.buffer r.extraction_index r.entry_count

  -- `insert` does to the entries what `push` does to the queue, its answer included, and keeps the
  -- ring valid.
  pub insert_refines :
      (r : RingBuffer A) (x : A)
      → IsValid L d r
      → IsValid L d (insert L d x r).0
        × ((entries L d (insert L d x r).0, (insert L d x r).1) ≡ Queue.push L x (entries L d r))
  unfolding Queue.push
  insert_refines r x v = elim (dec_lt r.entry_count L) [
    | yes room ↦
        let (valid, joined, done) = insert_room r x v room in
        (valid, rw (length-entries r, lt→ltb r.entry_count L room) (λ i. (joined i, done i)))
    | no stuck ↦
        let same : insert L d x r ≡ (r, false) =
          unfold insert in rw (ge→ltb r.entry_count L (omega arith)) in
        rw (same, length-entries r, ge→ltb r.entry_count L (omega arith)) (v, refl)
  ]

  extract_some :
      (r : RingBuffer A) (default_value : A) (n : ℕ)
      → IsValid L d r
      → r.entry_count ≡ suc n
      → IsValid L d (extract L d default_value r).0
        × (entries L d r
            ≡ (extract L d default_value r).1 ∷ entries L d (extract L d default_value r).0)
  unfolding extract entries window
  extract_some r default_value n v e =
      let next : next_index L r.extraction_index ≡ (r.extraction_index + 1) % L =
        next_index_mod L r.extraction_index v.extraction_in v.small in
      let fewer : sub32 r.entry_count 1 ≡ n = omega (arith, v.small, v.count_in) in
      rw (lt→ltb 0 r.entry_count (omega arith)) (
        record {
          storage = v.storage;
          positive = v.positive;
          small = v.small;
          insertion_in = v.insertion_in;
          extraction_in = rw next (omega (arith, v.positive));
          count_in = rw fewer (omega (arith, v.count_in));
          in_step = rw (next, fewer, v.in_step, e) (sym (round_step L d r.extraction_index n));
        },
        ap (window L d r.buffer r.extraction_index) e
            ∙ ap₂
                (λ (h : ℕ) (k : ℕ). get_or r.buffer r.extraction_index d ∷ window L d r.buffer h k)
                (sym next) (sym fewer),
      )

  -- `extract` does to the entries what `pop` does to the queue, the default for an empty ring
  -- included, and keeps the ring valid.
  pub extract_refines :
      (r : RingBuffer A) (default_value : A)
      → IsValid L d r
      → IsValid L d (extract L d default_value r).0
        × ((entries L d (extract L d default_value r).0, (extract L d default_value r).1)
            ≡ Queue.pop default_value (entries L d r))
  extract_refines r default_value v = by_count r.entry_count refl
    where
      by_count :
          (n : ℕ)
          → r.entry_count ≡ n
          → IsValid L d (extract L d default_value r).0
            × ((entries L d (extract L d default_value r).0, (extract L d default_value r).1)
                ≡ Queue.pop default_value (entries L d r))
      by_count zero e =
          let same : extract L d default_value r ≡ (r, default_value) =
            unfold extract in rw e refl in
          let none_left : entries L d r ≡ [] =
            unfold entries window in ap (window L d r.buffer r.extraction_index) e in
          rw (same, none_left) (v, unfold Queue.pop in refl)
      by_count (suc n) e =
          let (valid, split) = extract_some r default_value n v e in
          (valid, rw split (unfold Queue.pop in refl))

  -- `snoop` at an offset below the count reads that entry, and writing through its reference changes
  -- that entry alone.
  pub snoop_lem :
      (r : RingBuffer A) (offset : ℕ) (x : A)
      → IsValid L d r
      → offset < r.entry_count
      → (snoop L d offset r ≡ get_or (entries L d r) offset d)
        × (entries L d (snoop_set L d offset x r) ≡ set (entries L d r) offset x)
        × IsValid L d (snoop_set L d offset x r)
  unfolding snoop snoop_set entries
  snoop_lem r offset x v inside =
      let no_wrap : add32 r.extraction_index offset ≡ r.extraction_index + offset =
        omega (arith, v.small, v.count_in, v.extraction_in) in
      rw no_wrap (
        sym (
            get_or-window L d r.buffer r.extraction_index r.entry_count offset v.extraction_in
              inside),
        set-window_in L d r.buffer r.extraction_index r.entry_count offset x v.storage
            v.extraction_in v.count_in inside,
        record {
          storage = length-set r.buffer _ x ∙ v.storage;
          positive = v.positive;
          small = v.small;
          insertion_in = v.insertion_in;
          extraction_in = v.extraction_in;
          count_in = v.count_in;
          in_step = v.in_step;
        },
      )
