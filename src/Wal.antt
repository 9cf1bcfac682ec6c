-- ===== src/Wal.antt =====
-- crates/surch-store/src/wal.rs: the write-ahead log, its file format and its recovery.
pub mod Identifier
pub mod Record
pub mod Log
pub mod Decode
pub mod RoundTrip
pub mod Sequence
mod Runs
