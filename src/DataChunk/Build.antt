-- ===== src/DataChunk/Build.antt =====
-- What the constructor and `setChunkSize` of `StreamDataChunk` make of their arguments.
use inecontainer.Prelude.{
  ◌⊎◌, ◌*◌, ℕ, ◌%◌, ◌≤◌, ◌<◌, ◌≡◌, refl, ◌∙◌, ap, length, length-set, false, List, replicate, ltb,
  Bool-cases, inl, inr, arith,
}
use inecontainer.Header.{
  ChunkHeader, IsBytes, type, chunk_size, stream_data_chunk, set_type, new_chunk_header,
  set_best_fit_size, set_number_valid_bytes, write_valid_count, minimum_chunk_size,
}
use inecontainer.Header.Fields.{set_type_lem}
use inecontainer.Header.Fill.{set_best_fit_size_lem}
use inecontainer.Stream.{
  stream_identifier, chunk_offset, set_stream_identifier, set_last, set_chunk_offset,
}
use inecontainer.Stream.Fields.{set_stream_identifier_lem, set_chunk_offset_lem}
use inecontainer.DataChunk.{new_stream_header, new_data_chunk, set_chunk_size}

-- A header with the array and the fields of a data chunk.
pub record IsBuilt (stream_id offset : ℕ) (h : ChunkHeader) : Type 0 where
  pub array : length h.additional ≡ 10
  pub common : IsBytes h
  pub kind : type h ≡ stream_data_chunk
  pub stream : stream_identifier h ≡ stream_id % 2147483648
  pub offset_kept : chunk_offset h ≡ offset % 281474976710656

set_best_fit_size-additional :
    (n : ℕ) (h : ChunkHeader) → (set_best_fit_size n h).0.additional ≡ h.additional
unfolding set_best_fit_size
set_best_fit_size-additional n h = elim (Bool-cases (ltb n minimum_chunk_size)) [
  | inl small ↦ rw small refl
  | inr large ↦ rw large refl
]

-- The header before its type and its offset are set.
plain : ℕ → ChunkHeader
unfolding new_stream_header
plain stream_id = new_stream_header stream_id (replicate 10 0)

plain-IsBytes : (stream_id : ℕ) → IsBytes (plain stream_id)
unfolding plain set_stream_identifier set_last new_chunk_header set_number_valid_bytes
    write_valid_count
plain-IsBytes stream_id = record {
  byte0 = omega arith;
  byte1 = omega arith;
  byte2 = omega arith;
  byte3 = omega arith;
}

plain-stream : (stream_id : ℕ) → stream_identifier (plain stream_id) ≡ stream_id % 2147483648
unfolding plain set_number_valid_bytes write_valid_count
plain-stream stream_id =
    (set_stream_identifier_lem stream_id (set_last false (new_chunk_header (replicate 10 0)))
      (unfold set_last new_chunk_header in omega arith)
      (unfold set_last new_chunk_header in omega arith)).0

typed : ℕ → ChunkHeader
typed stream_id = set_type stream_data_chunk (plain stream_id)

typed-stream : (stream_id : ℕ) → stream_identifier (typed stream_id) ≡ stream_id % 2147483648
typed-stream stream_id =
    unfold stream_identifier typed set_type in (unfold stream_identifier in plain-stream stream_id)

typed-length : (stream_id : ℕ) → length (typed stream_id).additional ≡ 10
unfolding typed plain set_type set_stream_identifier set_last new_chunk_header
    set_number_valid_bytes write_valid_count
typed-length stream_id = refl

offset-length :
    (offset : ℕ) (h : ChunkHeader)
    → length (set_chunk_offset offset h).additional ≡ length h.additional
unfolding set_chunk_offset
offset-length offset h = simp length-set

offset-IsBytes : (offset : ℕ) (h : ChunkHeader) → IsBytes h → IsBytes (set_chunk_offset offset h)
unfolding set_chunk_offset
offset-IsBytes offset h v = record {
  byte0 = v.byte0;
  byte1 = v.byte1;
  byte2 = v.byte2;
  byte3 = v.byte3;
}

-- The identifier and the offset are read from the additional header alone.
same_stream :
    (h h' : ChunkHeader) → h.additional ≡ h'.additional → stream_identifier h ≡ stream_identifier h'
unfolding stream_identifier
same_stream h h' e = ap (λ (xs : List ℕ). stream_identifier (record h { additional = xs })) e

same_offset : (h h' : ChunkHeader) → h.additional ≡ h'.additional → chunk_offset h ≡ chunk_offset h'
unfolding chunk_offset
same_offset h h' e = ap (λ (xs : List ℕ). chunk_offset (record h { additional = xs })) e

new_data_chunk-IsBuilt :
    (file_index stream_id offset : ℕ)
    → IsBuilt stream_id offset (new_data_chunk file_index stream_id offset).chunk.header
unfolding new_data_chunk plain typed
new_data_chunk-IsBuilt file_index stream_id offset =
    let t = set_type_lem stream_data_chunk (plain stream_id) (plain-IsBytes stream_id) in
    let o = set_chunk_offset_lem offset (typed stream_id) (omega (arith, typed-length stream_id)) in
    record {
      array = offset-length offset (typed stream_id) ∙ typed-length stream_id;
      common = offset-IsBytes offset (typed stream_id) t.3;
      kind = unfold set_chunk_offset type in (unfold type in t.0);
      stream = o.1 ∙ typed-stream stream_id;
      offset_kept = o.0;
    }

-- For a space of 32 to 2^32 - 1 bytes: setChunkSize gives a new StreamDataChunk the largest chunk size
-- that the space holds, 4096 at most, and returns that size; the chunk stays a data chunk with the
-- identifier modulo 2^31 and the offset modulo 2^48 that it was made with, and keeps its file index.
pub set_chunk_size-IsBuilt :
    (space file_index stream_id offset : ℕ)
    → 32 ≤ space
    → space < 4294967296
    → let (c, size) = set_chunk_size space (new_data_chunk file_index stream_id offset) in
      IsBuilt stream_id offset c.chunk.header
      × (c.chunk.file_index ≡ file_index)
      × (chunk_size c.chunk.header ≡ size)
      × (size ≤ space)
      × ((size ≡ 4096) ⊎ (space < 2 * size))
unfolding set_chunk_size
set_chunk_size-IsBuilt space file_index stream_id offset lo hi =
    let h : ChunkHeader = (new_data_chunk file_index stream_id offset).chunk.header in
    let b = new_data_chunk-IsBuilt file_index stream_id offset in
    let f = set_best_fit_size_lem space h b.common lo hi in
    let same = set_best_fit_size-additional space h in
    (
      record {
        array = ap length same ∙ b.array;
        common = f.5;
        kind = f.3 ∙ b.kind;
        stream = same_stream _ _ same ∙ b.stream;
        offset_kept = same_offset _ _ same ∙ b.offset_kept;
      },
      unfold new_data_chunk in refl,
      f.2,
      f.0,
      f.1,
    )
