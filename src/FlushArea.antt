-- ===== src/FlushArea.antt =====
-- `ContainerImpl::flushArea` in inecontainer/source/container_impl.cpp: an area that is free is cut off
-- the file, or filled with fill chunks. The virtual functions of the container and the saving of a
-- chunk are the section's parameters, over its state `S`.
pub mod Tiling
mod Tests
use inecontainer.Prelude.{
  ℕ, zero, suc, Bool, true, ◌&&◌, Option, none, some, List, [], ◌∷◌, leb, ◌==◌, if◌then◌else◌,
}
use inecontainer.Status.{Status, no_status, to_bool, success}
use inecontainer.Header.{ChunkHeader, chunk_size, to_position, to_file_index, new_fill_chunk}
use inecontainer.Area.{ContainerArea, from_front, ending_index, reduce_by}

-- The chunk that is written at the start of an area, and the area behind it.
unfoldable pub filled_chunk : ContainerArea → ChunkHeader
filled_chunk area = new_fill_chunk (to_position area.area_size)

unfoldable pub rest_of : ContainerArea → ContainerArea
unfolding filled_chunk
rest_of area = (reduce_by (to_file_index (chunk_size (filled_chunk area))) from_front area).0

module _ {ℓ} {S : Type ℓ} (save : ℕ → ChunkHeader → S → S × Status) where
  -- The loop that writes the area as free, on fuel.
  unfoldable pub fill_area : ℕ → ContainerArea → S → Option (S × Status)
  unfolding filled_chunk rest_of to_bool
  fill_area zero area s = none
  fill_area (suc fuel) area s =
      let saved = save area.starting_index (filled_chunk area) s in
      let rest = fill_area fuel (rest_of area) saved.0 in
      if area.area_size == 0
      then some (s, no_status)
      else if to_bool saved.1
      then some saved
      else rest

  module _ (supports_truncation : Bool) (size : S → ℕ) (set_position : ℕ → S → S × Status)
      (truncate : S → S × Status) where
    unfoldable pub cut_area : ContainerArea → S → S × Status
    unfolding to_bool
    cut_area area s =
        let sought = set_position (to_position area.starting_index) s in
        if to_bool sought.1 then sought else truncate sought.0

    -- The state, `lastReportedStatus`, and the answer `status.success()`.
    unfoldable pub flush_area : ContainerArea → S → Option (S × Status × Bool)
    unfolding cut_area fill_area success
    flush_area area s =
        let result =
          if supports_truncation && leb (size s) (to_position (ending_index area))
          then some (cut_area area s)
          else fill_area (suc area.area_size) area s in
        elim result [ none ↦ none | some (s', status) ↦ some (s', status, success status) ]
