-- ===== src/Chunk.antt =====
-- inecontainer/source/chunk.cpp: `Chunk::load`, `Chunk::save` and `Chunk::writeTail`, over the virtual
-- functions of a container. A `std::uint8_t*` that is read into is the list of its bytes.
use inecontainer.Prelude.{
  ◌≡◌, ℕ, zero, suc, ◌+◌, ◌*◌, ◌/◌, Bool, true, false, not, ◌&&◌, List, [], ◌∷◌, ◌++◌, ltb, ◌==◌,
  if◌then◌else◌, length, take, drop,
}
use inecontainer.Prelude.Words.{u8, u32, add32, add64, sub64, ◌>>>◌}
use inecontainer.Status.{Status, no_status, success, to_bool, bytes_read, bytes_written}
use inecontainer.Directory.{is_some}
use inecontainer.Header.{
  ChunkHeader, chunk_size, to_position, full_header_size_bytes, additional_header_size_bytes,
  minimum_chunk_header_size_bytes,
}
use inecontainer.Gather.{is_count, wrote_all}

-- The virtual functions of `ContainerImpl` that chunks call, over a container's state. A read or a write
-- that is a success says how many bytes it moved, as their documentation in container_container.h has
-- it: so the casts to `ReadSuccessful` and `WriteSuccessful` give no null pointer.
pub record Device (S : Type 0) : Type 0 where
  pub size : S → ℕ
  pub set_position : ℕ → S → S × Status
  pub position : S → ℕ
  pub read : ℕ → S → S × List ℕ × Status
  pub write : List ℕ → S → S × Status
  pub read_counted :
      (n : ℕ) (s : S) → success (read n s).2 ≡ true → is_some (bytes_read (read n s).2) ≡ true
  pub write_counted :
      (bytes : List ℕ) (s : S)
      → success (write bytes s).1 ≡ true
      → is_some (bytes_written (write bytes s).1) ≡ true

-- A container and the static `Chunk::randomSeed`.
pub record World (S : Type 0) : Type 0 where
  pub device : S
  pub random_seed : ℕ

pub record Chunk : Type 0 where
  pub header : ChunkHeader
  pub file_index : ℕ

abbrev pub kla : ℕ
kla = 1664525

abbrev pub klc : ℕ
klc = 1013904223

-- `fullHeader()` as bytes, and the header that an array of at least four bytes is.
abbrev pub full_header : ChunkHeader → List ℕ
full_header h = h.b0 ∷ h.b1 ∷ h.b2 ∷ h.b3 ∷ h.additional

abbrev pub of_full_header : List ℕ → ChunkHeader → ChunkHeader
of_full_header (b0 ∷ b1 ∷ b2 ∷ b3 ∷ rest) h = record {
  b0 = b0;
  b1 = b1;
  b2 = b2;
  b3 = b3;
  additional = rest;
}
of_full_header xs h = h

-- An array into whose front `bytes` were read.
abbrev pub overlay : List ℕ → List ℕ → List ℕ
overlay bytes xs = bytes ++ drop (length bytes) xs

unfoldable pub read_all : ℕ → Status → Bool
unfolding success
read_all n status = success status && is_count n (bytes_read status)

-- The words of the tail's generator, and the seed that it leaves.
unfoldable pub random_words : ℕ → ℕ → List ℕ × ℕ
random_words zero seed = ([], seed)
random_words (suc n) seed =
    let next = u32 (kla * seed + klc) in
    let (words, last) = random_words n next in (next ∷ words, last)

-- The words as the bytes of a little-endian machine.
unfoldable pub word_bytes : List ℕ → List ℕ
word_bytes [] = []
word_bytes (x ∷ xs) = u8 x ∷ u8 (x >>> 8) ∷ u8 (x >>> 16) ∷ u8 (x >>> 24) ∷ word_bytes xs

-- How many bytes `writeTail` writes when it is called without a count.
unfoldable pub tail_count : ℕ → Chunk → ℕ
tail_count current_position c =
    u32 (sub64 (add64 (to_position c.file_index) (chunk_size c.header)) current_position)

module _ {S : Type 0} (dev : Device S) where
  -- The state after a call, and its status or none if it did all that was asked.
  unfoldable pub write_bytes : List ℕ → World S → World S × Status
  unfolding wrote_all
  write_bytes bytes w =
      let (s, status) = dev.write bytes w.device in
      (record w { device = s }, if wrote_all (length bytes) status then no_status else status)

  unfoldable pub read_bytes : ℕ → World S → World S × List ℕ × Status
  unfolding read_all
  read_bytes count w =
      let (s, bytes, status) = dev.read count w.device in
      (record w { device = s }, bytes, if read_all count status then no_status else status)

  unfoldable pub seek : ℕ → World S → World S × Status
  seek offset w =
      let (s, status) = dev.set_position offset w.device in (record w { device = s }, status)

  unfoldable pub write_tail : ℕ → Chunk → World S → World S × Status
  unfolding tail_count random_words word_bytes write_bytes
  write_tail additional_bytes c w =
      let count =
        if additional_bytes == 0 then tail_count (dev.position w.device) c else additional_bytes in
      let (words, seed) = random_words (add32 count 3 / 4) w.random_seed in
      if ltb 0 count
      then write_bytes (take count (word_bytes words)) (record w { random_seed = seed })
      else (w, no_status)

  -- What is read into the array from `offset` on.
  unfoldable pub load_bytes : ℕ → ℕ → World S → World S × List ℕ × Status
  unfolding seek read_bytes
  load_bytes offset count w =
      let (w', status) = seek offset w in
      if to_bool status then (w', [], status) else read_bytes count w'

  unfoldable pub load : Bool → Chunk → World S → Chunk × World S × Status
  unfolding load_bytes to_bool
  load true c w =
      let (w', bytes, status) =
        load_bytes (to_position c.file_index) (full_header_size_bytes c.header) w in
      (
        record c { header = of_full_header (overlay bytes (full_header c.header)) c.header },
        w',
        status,
      )
  load false c w =
      let (w', bytes, status) =
        load_bytes (to_position c.file_index + minimum_chunk_header_size_bytes)
          (additional_header_size_bytes c.header) w in
      (
        record c { header = record c.header { additional = overlay bytes c.header.additional } },
        w',
        status,
      )

  -- The writing of the header; `update_crc` is the virtual `updateCrc`.
  unfoldable pub save_header :
      (ChunkHeader → ChunkHeader) → Chunk → World S → Chunk × World S × Status
  unfolding seek write_bytes to_bool
  save_header update_crc c w =
      let (w', status) = seek (to_position c.file_index) w in
      if to_bool status
      then (c, w', status)
      else let (w'', status') = write_bytes (full_header (update_crc c.header)) w' in
        (record c { header = update_crc c.header }, w'', status')

  unfoldable pub save :
      (ChunkHeader → ChunkHeader) → Bool → Chunk → World S → Chunk × World S × Status
  unfolding save_header write_tail to_bool
  save update_crc pad_to_chunk_size c w =
      let (c', w', status) = save_header update_crc c w in
      if not (to_bool status) && pad_to_chunk_size
      then (let (w'', status') = write_tail 0 c' w' in (c', w'', status'))
      else (c', w', status)
