-- ===== src/Ring/Tests.antt =====
-- Concrete rings of length four.
use inecontainer.Prelude.{ℕ, ◌+◌, ◌≡◌, refl, true, [], ◌∷◌, ◌++◌, drop, arith}
use inecontainer.Ring.{
  RingBuffer, IsValid, insert, extract, bulk_extraction_start, bulk_extraction_finish, store_bytes,
  segment,
}
use inecontainer.Ring.Window.{window, entries}
use inecontainer.Ring.Queue
use inecontainer.Ring.Refine.{insert_refines, extract_refines}
use inecontainer.Ring.Bulk.{bulk_extraction_start_lem, bulk_extraction_finish_lem}
use inecontainer.Ring.Store.{store_bytes_lem}

-- Two entries that go round the end of the buffer.
abbrev round_ring : RingBuffer ℕ
round_ring = record {
  buffer = 7 ∷ 0 ∷ 0 ∷ 5 ∷ [];
  insertion_index = 1;
  extraction_index = 3;
  entry_count = 2;
}

round_ring-IsValid : IsValid 4 0 round_ring
round_ring-IsValid = record {
  storage = refl;
  positive = omega arith;
  small = omega arith;
  insertion_in = omega arith;
  extraction_in = omega arith;
  count_in = omega arith;
  in_step = refl;
}

entries-round_ring : entries 4 0 round_ring ≡ 5 ∷ 7 ∷ []
unfolding entries window
entries-round_ring = refl

insert_refines_example :
    IsValid 4 0 (insert 4 0 9 round_ring).0
    × ((entries 4 0 (insert 4 0 9 round_ring).0, (insert 4 0 9 round_ring).1)
        ≡ Queue.push 4 9 (entries 4 0 round_ring))
insert_refines_example = insert_refines 4 0 round_ring 9 round_ring-IsValid

extract_refines_example :
    IsValid 4 0 (extract 4 0 1 round_ring).0
    × ((entries 4 0 (extract 4 0 1 round_ring).0, (extract 4 0 1 round_ring).1)
        ≡ Queue.pop 1 (entries 4 0 round_ring))
extract_refines_example = extract_refines 4 0 round_ring 1 round_ring-IsValid

bulk_extraction_start_example :
    let (s, total) = bulk_extraction_start 4 0 round_ring in
    (segment s.p1 s.l1 round_ring.buffer ++ segment s.p2 s.l2 round_ring.buffer
      ≡ entries 4 0 round_ring)
    × (total ≡ round_ring.entry_count)
    × (s.l1 + s.l2 ≡ total)
bulk_extraction_start_example = bulk_extraction_start_lem 4 0 round_ring round_ring-IsValid

bulk_extraction_finish_example :
    let (r', done) = bulk_extraction_finish 4 0 1 round_ring in
    (entries 4 0 r' ≡ drop 1 (entries 4 0 round_ring)) × (done ≡ true) × IsValid 4 0 r'
bulk_extraction_finish_example =
    bulk_extraction_finish_lem 4 0 round_ring 1 round_ring-IsValid (omega arith)

store_bytes_example :
    let (r', done) = store_bytes 4 0 (1 ∷ 2 ∷ []) round_ring in
    (entries 4 0 r' ≡ entries 4 0 round_ring ++ 1 ∷ 2 ∷ []) × (done ≡ true) × IsValid 4 0 r'
store_bytes_example = store_bytes_lem 4 0 round_ring (1 ∷ 2 ∷ []) round_ring-IsValid (omega arith)
