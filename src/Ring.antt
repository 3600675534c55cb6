-- ===== src/Ring.antt =====
-- inecontainer/source/ring_buffer.h: `RingBuffer<T, L>`. A pointer into `buffer` is its index, and
-- `nullptr` is `none`. A method that changes the ring returns the new ring beside its result.
pub mod Window
pub mod Queue
pub mod Refine
pub mod Bulk
pub mod Store
mod Tests
use inecontainer.Prelude.{
  ℕ, suc, ◌+◌, ◌%◌, ◌≤◌, ◌<◌, ◌≡◌, Bool, true, false, not, List, [], ◌∷◌, Option, none, some, ltb,
  leb, ◌==◌, if◌then◌else◌, length, get_or, set, take, drop, replicate,
}
use inecontainer.Prelude.Words.{add32, sub32}

pub record RingBuffer {ℓ} (A : Type ℓ) : Type ℓ where
  pub buffer : List A
  pub insertion_index : ℕ
  pub extraction_index : ℕ
  pub entry_count : ℕ

-- Where a bulk operation may work: `p1`, `l1`, `p2`, `l2`.
pub record Segments : Type 0 where
  pub p1 : Option ℕ
  pub l1 : ℕ
  pub p2 : Option ℕ
  pub l2 : ℕ

abbrev pub no_segments : Segments
no_segments = record { p1 = none; l1 = 0; p2 = none; l2 = 0 }

-- `std::memcpy(buffer + i, xs, …)`.
abbrev pub write_at {ℓ} : {A : Type ℓ} → ℕ → List A → List A → List A
write_at i [] buf = buf
write_at i (x ∷ xs) buf = write_at (suc i) xs (set buf i x)

-- The entries that a pointer and a length hand out.
abbrev pub segment {ℓ} : {A : Type ℓ} → Option ℕ → ℕ → List A → List A
segment none l buf = []
segment (some p) l buf = take l (drop p buf)

abbrev pub write_segment {ℓ} : {A : Type ℓ} → Option ℕ → List A → List A → List A
write_segment none xs buf = buf
write_segment (some p) xs buf = write_at p xs buf

-- The two `std::memcpy` calls at the end of `VirtualFileImpl::append`.
unfoldable pub copy_segments {ℓ} : {A : Type ℓ} → Segments → List A → List A → List A
copy_segments s xs buf =
    let count_p1 = if ltb s.l1 (length xs) then s.l1 else length xs in
    let buf' = write_segment s.p1 (take count_p1 xs) buf in
    let rest = drop count_p1 xs in
    if ltb 0 (length rest) then write_segment s.p2 rest buf' else buf'

-- The next index of the single-entry operations.
abbrev pub next_index : ℕ → ℕ → ℕ
next_index L i = if leb L (add32 i 1) then 0 else add32 i 1

-- The index `n` entries on, of the bulk operations.
abbrev pub skip_index : ℕ → ℕ → ℕ → ℕ
skip_index L i n = if leb L (add32 i n) then sub32 (add32 i n) L else add32 i n

-- `L` is `bufferLength`, and `d` is what a default-constructed entry holds.
module _ {ℓ} {A : Type ℓ} (L : ℕ) (d : A) where
  unfoldable pub new_ring : RingBuffer A
  new_ring = record {
    buffer = replicate L d;
    insertion_index = 0;
    extraction_index = 0;
    entry_count = 0;
  }

  unfoldable pub empty : RingBuffer A → Bool
  empty r = r.entry_count == 0

  unfoldable pub full : RingBuffer A → Bool
  full r = r.entry_count == L

  unfoldable pub available : RingBuffer A → ℕ
  available r = sub32 L r.entry_count

  unfoldable pub clear : RingBuffer A → RingBuffer A
  clear r = record r { insertion_index = 0; extraction_index = 0; entry_count = 0 }

  unfoldable pub insert : A → RingBuffer A → RingBuffer A × Bool
  insert entry r =
      if ltb r.entry_count L
      then (
        record r {
          buffer = set r.buffer r.insertion_index entry;
          insertion_index = next_index L r.insertion_index;
          entry_count = add32 r.entry_count 1;
        },
        true,
      )
      else (r, false)

  unfoldable pub extract : A → RingBuffer A → RingBuffer A × A
  extract default_value r =
      if ltb 0 r.entry_count
      then (
        record r {
          extraction_index = next_index L r.extraction_index;
          entry_count = sub32 r.entry_count 1;
        },
        get_or r.buffer r.extraction_index d,
      )
      else (r, default_value)

  -- `snoop` returns a reference: the entry that is read through it, and the ring after a write.
  unfoldable pub snoop_offset : ℕ → RingBuffer A → ℕ
  snoop_offset offset r = add32 r.extraction_index offset % L

  unfoldable pub snoop : ℕ → RingBuffer A → A
  unfolding snoop_offset
  snoop offset r = get_or r.buffer (snoop_offset offset r) d

  unfoldable pub snoop_set : ℕ → A → RingBuffer A → RingBuffer A
  unfolding snoop_offset
  snoop_set offset entry r = record r { buffer = set r.buffer (snoop_offset offset r) entry }

  unfoldable pub bulk_insertion_start : RingBuffer A → Segments × ℕ
  bulk_insertion_start r =
      let available_space = sub32 L r.entry_count in
      if ltb 0 available_space
      then if leb r.extraction_index r.insertion_index
        then (
          record {
            p1 = some r.insertion_index;
            l1 = sub32 L r.insertion_index;
            p2 = if r.extraction_index == 0 then none else some 0;
            l2 = if r.extraction_index == 0 then 0 else r.extraction_index;
          },
          available_space,
        )
        else (
          record { p1 = some r.insertion_index; l1 = available_space; p2 = none; l2 = 0 },
          available_space,
        )
      else (no_segments, available_space)

  unfoldable pub bulk_insertion_finish : ℕ → RingBuffer A → RingBuffer A × Bool
  bulk_insertion_finish entries_inserted r =
      if leb entries_inserted (sub32 L r.entry_count)
      then (
        record r {
          insertion_index = skip_index L r.insertion_index entries_inserted;
          entry_count = add32 r.entry_count entries_inserted;
        },
        true,
      )
      else (r, false)

  unfoldable pub bulk_extraction_start : RingBuffer A → Segments × ℕ
  bulk_extraction_start r =
      if ltb 0 r.entry_count
      then if ltb r.extraction_index r.insertion_index
        then (
          record { p1 = some r.extraction_index; l1 = r.entry_count; p2 = none; l2 = 0 },
          r.entry_count,
        )
        else (
          record {
            p1 = some r.extraction_index;
            l1 = sub32 L r.extraction_index;
            p2 = if r.insertion_index == 0 then none else some 0;
            l2 = if r.insertion_index == 0 then 0 else r.insertion_index;
          },
          r.entry_count,
        )
      else (no_segments, r.entry_count)

  unfoldable pub bulk_extraction_finish : ℕ → RingBuffer A → RingBuffer A × Bool
  bulk_extraction_finish entries_extracted r =
      if leb entries_extracted r.entry_count
      then (
        record r {
          extraction_index = skip_index L r.extraction_index entries_extracted;
          entry_count = sub32 r.entry_count entries_extracted;
        },
        true,
      )
      else (r, false)

  -- The end of `VirtualFileImpl::append`: the bytes that are left go into the tail buffer, through
  -- the two segments of `bulkInsertionStart`.
  unfoldable pub store_bytes : List A → RingBuffer A → RingBuffer A × Bool
  store_bytes xs r =
      let (s, available_space) = bulk_insertion_start r in
      bulk_insertion_finish (length xs) (record r { buffer = copy_segments s xs r.buffer })

  -- The representation invariant. Lengths up to `2 ^ 31` keep `unsigned` sums from wrapping.
  pub record IsValid (r : RingBuffer A) : Type ℓ where
    pub storage : length r.buffer ≡ L
    pub positive : 0 < L
    pub small : L ≤ 2147483648
    pub insertion_in : r.insertion_index < L
    pub extraction_in : r.extraction_index < L
    pub count_in : r.entry_count ≤ L
    pub in_step : r.insertion_index ≡ (r.extraction_index + r.entry_count) % L
