-- ===== src/Lib.antt =====
-- A verification library for inecontainer, a virtual file system inside one file or memory buffer.
--
-- The container is a sequence of chunks of 32 to 4096 bytes. A chunk has a header of four bytes (its
-- type, its size and how many of its bytes are invalid, a CRC) and an additional header by type. A
-- virtual file is one start chunk and data chunks that carry its payload with its offset; a fill chunk
-- marks free space. Positions in the container count in units of 32 bytes, the file indices. A virtual
-- file keeps a map of its chunks and a tail buffer of bytes that make no full chunk yet; to write a
-- chunk it reserves free space, saves the chunk there, and releases what it did not use. Closing the
-- container flushes the free regions as fill chunks or truncates the file.
--
-- The parts, and the files of inecontainer/source that they model:
--   Prelude     shared names, Boolean tests, lists over native numbers, machine words, laws of bits.
--   Area        container_area.cpp, free_space_data.cpp, free_space.cpp and chunk_map_data.cpp: small
--               value classes. A setter returns the new value, and a map iterator is its key.
--   Header      chunk_header.cpp, the constructor of fill_chunk.cpp, and the CRC of chunk.cpp. The
--               record ChunkHeader has header[0] to header[3] and the list of additional bytes;
--               setNumberValidBytes is set_number_valid_bytes, setBestFitSize set_best_fit_size, log2
--               its De Bruijn multiplication, calculateCrc the loop over the table.
--   Stream      stream_chunk.cpp and the offset of stream_data_chunk.cpp, over the additional bytes.
--   Gather      the scatter-gather list of stream_data_chunk.cpp and the loop of its save, over any
--               container that Gather.Sink describes; Memory is an instance.
--   Chunk       load, save and writeTail of chunk.cpp, over what a chunk uses of its container (a Device).
--   DataChunk   stream_data_chunk.cpp: the constructors, setChunkSize, the CRC, load and save.
--   StartChunk  stream_start_chunk.cpp and file_header_chunk.cpp: the texts in additional headers.
--   VirtualFile virtual_file_impl.cpp. The record VirtualFile has the members of VirtualFileImpl; the
--               handlers are Append.append, Read.read, Write.write, Flush.flush, Truncate.truncate,
--               Erase.erase and Erase.rename, and Buffer has flushChunkBuffer and loadChunkIntoBuffer.
--               They run over a ChunkStore, the calls that they make of ContainerImpl and of chunks, which
--               Container.Store fills; Tail is about the handlers where the tail buffer serves them.
--   Ring        ring_buffer.h, and the end of VirtualFileImpl::append that stores into it. A pointer
--               into the buffer is its index; a method returns the new ring with its result.
--   ChunkMap    the chunk map of virtual_file_impl.cpp: addChunkLocation, currentStoredSize,
--               lastKnownFileIndex and the lookup of read and write.
--   Tracker     free_space_tracker.cpp. The std::map is its list of entries in order, an iterator is a
--               cursor in it: newFreeSpaceArea is new_free_space_area, its loop absorb;
--               reserveFreeSpaceArea is reserve_free_space_area, releaseReservation is
--               release_reservation, flushFreeSpace is flush_free_space. Tracker.Cells gives the
--               abstract view: each unit of the file is used, free or held.
--   FlushArea   ContainerImpl::flushArea of container_impl.cpp, over what the container does when a
--               chunk is saved and when the file is cut.
--   Directory   the maps of files in container_impl.cpp: newStreamIdentifier,
--               registerFileImplementation, fileRenamed and fileErased.
--   Container   container_impl.cpp: the record Container is ContainerImpl; open_container is open,
--               Traverse.traverse_container is traverseContainer, Close has close, scanContainer,
--               directory, streamRead and newVirtualFile, and Store makes the container a ChunkStore.
--               A file is a number, its place in the list of files that were made.
--   Memory      container_memory_container_private.cpp.
--   Status      container_status_base.cpp and container_status.cpp, without the texts.
--
-- Numbers are the native ones, and every operation on a machine word has its wrap written out: add32,
-- sub32, u8, u16, u32, add64, sub64. Where a theorem needs that a sum does not wrap it says so.
-- The assertions of newStreamIdentifier, registerFileImplementation, traverseContainer and toChunkSize
-- are results `none`; the others are not part of the model, which is that of a release build. A Device
-- has the law that a read or a write that succeeds says how many bytes it moved, as the containers of
-- the repository do: the code reads that count through a cast that it does not test.
--
-- Fuel: fill_area runs on the size of the area and one more, since every fill chunk covers at least
-- one unit; free_identifier runs on the number of entries in its map and one more, since so many
-- identifiers cannot all be taken; append_loop runs on the bytes of the tail and the buffer and one
-- more, flush_loop on the bytes of the tail and one more, read_loop and write_loop on the bytes to move
-- and one more, since a turn moves at least one byte or ends the loop where the chunks hold payload and
-- what is saved without an error is not empty; traverse_loop runs on the size over 32 and two
-- more, since a chunk has at least 32 bytes. All other loops are structural recursion.
--
-- Not modelled: the file container and the command-line tool, which call the operating system; the
-- public classes, which forward to private ones, but for newVirtualFile; the constructor of a virtual
-- file over a start chunk, which nothing calls. The handlers of a virtual file take the container's maps
-- as populated, so that none scans it first. A createFile that an application overrides is the one of
-- the library, and what an application does with streamed data is a parameter.
pub mod Prelude
pub mod Area
pub mod Header
pub mod Ring
pub mod Tracker
pub mod Status
pub mod FlushArea
pub mod Memory
pub mod Stream
pub mod Chunk
pub mod ChunkMap
pub mod Container
pub mod Gather
pub mod Directory
pub mod DataChunk
pub mod StartChunk
pub mod VirtualFile
