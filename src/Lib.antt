-- ===== src/Lib.antt =====
-- surch: a search engine with an OpenSearch-compatible interface. This library models the part of
-- it that keeps documents (file framing, the write-ahead log, the segment files and the index store
-- that moves entries from the log to the segments and recovers after a restart), the data streams
-- and directories in memory beside it, the bytes of posting lists, the matching of fuzzy terms, the
-- quantised field lengths, the live documents of a segment and the collection of the best hits.
--
-- The parts and their files:
-- - Base: shared names and lemmas on numbers, bits, lists and results.
-- - Bytes: what several parts share of byte sequences: cursors with checked bounds, big-endian
--   integers, seven-bit groups, UTF-8.
-- - Codec: crates/surch-codec/src/codec_util.rs. Codec.Defs has a definition per function, with the
--   function's name; a `Vec<u8>` that is appended to is an argument and a result, `&mut position` a
--   number that goes in and comes out.
-- - Wal: crates/surch-store/src/wal.rs. Wal.Identifier has the checks of names, Wal.Record the
--   records and their bytes, Wal.Log the operations of `WriteAheadLog`; the file is an optional
--   byte sequence beside the log, and `Io` says how the calls of the file system end.
-- - Segments: crates/surch-store/src/segment_store.rs. Segments.Name has the file names,
--   Segments.Disk the directory, Segments.Store the operations of `SegmentStore`. serde_json is the
--   record `Json`: what it serialises is not empty and is read back.
-- - DataIo: crates/surch-store/src/data_io.rs. DataIo.Defs has the readers and writers of numbers and
--   strings, DataIo.Numbers and DataIo.Strings their proofs. The maps and sets of strings are left
--   out.
-- - Memory: crates/surch-store/src/directory.rs and lock.rs. Memory.Directory has the operations of
--   `MemoryDirectory`, Memory.Lock those of the lock factory, on the sets of Memory.Names.
-- - Fuzzy: crates/surch-search/src/fuzzy.rs. Fuzzy.Defs has the functions on lists of `char`s, whose
--   table of distances is a list of rows; Fuzzy.Distance has the recursive distance, Fuzzy.Budget the
--   edits and the prefix that a query asks for, Fuzzy.Ranking the order of the matches.
-- - SmallFloat: crates/surch-search/src/small_float.rs, the lengths of fields in one byte.
-- - Postings: crates/surch-codec/src/postings_block.rs. Postings.Varint has the LEB128 numbers,
--   Postings.Flat the payload of delta-coded doc ids and frequencies, Postings.Cursor the streaming
--   `DocIdDeltaCursor`, Postings.Packing the bit packing, Postings.BlockPlan, Postings.BlockEncode and
--   Postings.BlockDecode the blocks of 128 postings and their directory, Postings.Skip the two-level
--   `BlockSkipList` and its cursor, whose `&mut self` is an argument and a result, Postings.Inspect
--   the summaries of a payload by blocks. The other files of the folder are proofs.
-- - TopK: crates/surch-api/src/topn.rs and crates/surch-search/src/topk.rs. TopK.Collector has the
--   bounded collector over any comparator, TopK.Insertion the list without a bound, TopK.Competitive
--   the order of scored documents and the threshold; `f64` is the interface `FiniteScores`: finite
--   numbers, of which all are compared.
-- - LiveDocs: crates/surch-index/src/live_docs.rs, the deleted documents of a segment.
-- - IndexStore: crates/surch-store/src/index_store.rs. IndexStore.Defs composes the log and the
--   segments; `After` is the store, the files and the result of an operation.
--
-- Numbers are natural numbers. The width of an integer is written out where it can overflow: the
-- sequence number and the counter of the segments wrap at 2 ^ 64 and the amount of a shift at 64 (a
-- release build), a length is written as a 32-bit number, the checksum is a 32-bit register.
-- Indexing and slicing are checked, as in the source.
--
-- The loop that reads the log takes fuel, one round for each byte of the file and one more, since
-- a record takes at least a byte. The writers of variable-length numbers take a round for each
-- group of the word, five or ten, the count of binary digits one for each bit of the word, and the
-- bit packing one for each bit of a value, since a round moves a bit at least. The loops over the
-- blocks of a posting list take a round for each posting, since a block has at least one, and the
-- client of the streaming cursor one more than there are doc ids. The other loops recurse on their
-- input.
--
-- Not modelled: the paths, the creation of directories and the texts of the error messages; a
-- temporary file that a failed write leaves behind; the rest of the
-- crates index, search, analysis and api, which read and serve what is kept here.
pub mod Base
pub mod Bytes
pub mod Codec
pub mod Wal
pub mod Segments
pub mod IndexStore
pub mod DataIo
pub mod Memory
pub mod Fuzzy
pub mod SmallFloat
pub mod Postings
pub mod TopK
pub mod LiveDocs
