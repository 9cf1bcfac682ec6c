-- ===== src/Bytes.antt =====
-- Byte sequences and cursors, as the readers and writers of crates/surch-codec/src/codec_util.rs,
-- crates/surch-store/src/data_io.rs and crates/surch-store/src/wal.rs use them. A byte slice is a
-- list of numbers below 256; a cursor is an index into it.
pub mod Cursor
pub mod BigEndian
pub mod Groups
pub mod Utf8
unfoldable pub use Cursor.*
unfoldable pub use BigEndian.*
unfoldable pub use Groups.*
unfoldable pub use Utf8.*
