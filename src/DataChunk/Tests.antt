-- ===== src/DataChunk/Tests.antt =====
-- Runs of the data chunk of stream_data_chunk.cpp.
use inecontainer.Prelude.{◌⊎◌, ◌*◌, ◌<◌, ◌≡◌, ◌≤◌, arith}
use inecontainer.Header.{chunk_size}
use inecontainer.DataChunk.{new_data_chunk, set_chunk_size}
use inecontainer.DataChunk.Build.{IsBuilt, set_chunk_size-IsBuilt}

set_chunk_size-IsBuilt_example :
    let (c, size) = set_chunk_size 96 (new_data_chunk 7 3 40) in
    IsBuilt 3 40 c.chunk.header
    × (c.chunk.file_index ≡ 7)
    × (chunk_size c.chunk.header ≡ size)
    × (size ≤ 96)
    × ((size ≡ 4096) ⊎ (96 < 2 * size))
set_chunk_size-IsBuilt_example = set_chunk_size-IsBuilt 96 7 3 40 (omega arith) (omega arith)
