-- ===== src/Gather.antt =====
-- The scatter-gather lists of inecontainer/source/stream_data_chunk.cpp and
-- scatter_gather_list_segment.cpp: the payload of a data chunk is written from a list of buffers.
-- A segment is the bytes at its base pointer with its processed count.
pub mod Sink
pub mod Save
mod Tests
use inecontainer.Prelude.{
  ℕ, ◌+◌, ◌-◌, Bool, true, false, ◌&&◌, Option, none, some, List, [], ◌∷◌, ◌++◌, ltb, ◌==◌,
  if◌then◌else◌, length, take,
}
use inecontainer.Prelude.Words.{add32, sub32}
use inecontainer.Status.{Status, no_status, success, to_bool, bytes_written}

pub record Segment : Type 0 where
  pub base : List ℕ
  pub processed_count : ℕ

-- The list of a chunk and `currentScatterGatherListByteCount`.
pub record GatherList : Type 0 where
  pub segments : List Segment
  pub byte_count : ℕ

abbrev pub clear_scatter_gather_list : GatherList
clear_scatter_gather_list = record { segments = []; byte_count = 0 }

-- `addScatterGatherListSegment`: the list, and how many bytes of the segment the chunk has room for.
unfoldable pub add_segment : ℕ → Segment → GatherList → GatherList × ℕ
add_segment available_space new_segment g =
    let remaining =
      if ltb g.byte_count available_space then sub32 available_space g.byte_count else 0 in
    let segment_length = length new_segment.base in
    (
      record {
        segments = g.segments ++ new_segment ∷ [];
        byte_count = add32 g.byte_count segment_length;
      },
      if ltb segment_length remaining then segment_length else remaining,
    )

-- Whether a status says that so many bytes were written. The source reads the count of a success through
-- a cast that it does not test; a Device and a Sink say that there is one, so that `none` is no success.
abbrev pub is_count : ℕ → Option ℕ → Bool
is_count n none = false
is_count n (some m) = m == n

unfoldable pub wrote_all : ℕ → Status → Bool
unfolding success
wrote_all n status = success status && is_count n (bytes_written status)

-- The bytes of a segment that a step processes.
abbrev pub bytes_to_write : ℕ → Segment → ℕ
bytes_to_write remaining it = if ltb (length it.base) remaining then length it.base else remaining

module _ {ℓ} {S : Type ℓ} (write : List ℕ → S → S × Status) where
  -- The segment, the state and the status after one turn of the loop of `save`.
  unfoldable pub save_segment : ℕ → Segment → S → Segment × S × Status
  unfolding wrote_all
  save_segment n it s =
      let (s', status) = write (take n it.base) s in
      if wrote_all n status
      then (record it { processed_count = n }, s', no_status)
      else (it, s', status)

  -- The loop of `StreamDataChunk::save` over its segments.
  unfoldable pub save_segments : ℕ → List Segment → S → List Segment × S × Status
  unfolding save_segment to_bool
  save_segments remaining [] s = ([], s, no_status)
  save_segments remaining (it ∷ segments) s =
      let n = bytes_to_write remaining it in
      let (it', s', status) = save_segment n it s in
      let (segments', s'', status') = save_segments (sub32 remaining n) segments s' in
      if remaining == 0
      then (it ∷ segments, s, no_status)
      else if to_bool status
      then (it' ∷ segments, s', status)
      else (it' ∷ segments', s'', status')
