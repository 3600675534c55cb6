-- ===== src/VirtualFile/Tail.antt =====
-- `append`, `read` and `write` of inecontainer/source/virtual_file_impl.cpp where the tail buffer alone
-- serves them, over any container: no chunk is saved or loaded and no space is reserved. What they share.
pub mod Append
pub mod Read
pub mod Overwrite
pub mod Rest
pub mod Write
pub mod RoundTrip
use inecontainer.Prelude.{
  map_option, ℕ, zero, suc, ◌+◌, ◌-◌, ◌≤◌, ◌<◌, min, ◌≡◌, refl, sym, ◌∙◌, ap, ap₂, Bool, true,
  false, Option, some, List, [], ◌∷◌, ◌++◌, append-nil, get_or, length, length-append, length-take,
  length-drop, take, drop, drop-append, take_all, arith, Bool-cases, inl, inr, if◌then◌else◌, ltb,
  leb, ◌==◌, lt→ltb, ge→ltb, gt→leb,
}
use inecontainer.Prelude.Words.{u32, sub32, sub64, add64}
use inecontainer.Status.{
  Status, no_status, container_unavailable, read_successful, write_successful, to_bool,
}
use inecontainer.Header.{invalid_file_index}
use inecontainer.Ring.{RingBuffer, IsValid, available, store_bytes}
use inecontainer.Ring.Window.{entries, length-window}
use inecontainer.Ring.Refine.{snoop_lem}
use inecontainer.Ring.Store.{store_bytes_lem}
use inecontainer.ChunkMap.{current_stored_size}
use inecontainer.Chunk.{overlay}
use inecontainer.VirtualFile.{
  ChunkStore, VirtualFile, size, size_word, report, tail_buffer_size, set_position,
}
use inecontainer.VirtualFile.Append.{
  append, append_rest, append_loop, append_fuel, write_stream_start_if_needed,
}
use inecontainer.VirtualFile.Read.{bytes_to_read, snoop_bytes, read_loop, read_tail, read}

pub length-entries : (tail : RingBuffer ℕ) → length (entries 4096 0 tail) ≡ tail.entry_count
unfolding entries
length-entries tail = length-window 4096 0 tail.buffer tail.extraction_index tail.entry_count

-- Where the bytes behind the chunks begin, and the size of the file.
abbrev pub tail_base : VirtualFile → ℕ
tail_base f = current_stored_size f.chunk_map

abbrev pub total_size : VirtualFile → ℕ
total_size f = tail_base f + f.tail_buffer.entry_count

pub size-total :
    (f : VirtualFile)
    → f.available ≡ true
    → total_size f < 18446744073709551616
    → size f ≡ some (total_size f)
unfolding size
size-total f there small = simp there (ap some (omega arith))

pub size_word-total :
    (f : VirtualFile)
    → f.available ≡ true
    → total_size f < 18446744073709551616
    → size_word f ≡ total_size f
unfolding size
size_word-total f there small = simp there (omega arith)

module _ {S : Type 0} (store : ChunkStore S) where
  pub reported :
      (f : VirtualFile) (s : S) (status : Status)
      → f.available ≡ true
      → report store f s status ≡ (f, store.set_last_status status s, status)
  reported f s status there =
      ap (λ (b : Bool). (f, (if b then store.set_last_status status s else s), status)) there
