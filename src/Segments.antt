-- ===== src/Segments.antt =====
-- crates/surch-store/src/segment_store.rs: the immutable segment files that the log is drained
-- into, and their merging.
pub mod Name
pub mod Disk
pub mod Store
pub mod Append
pub mod Sample
mod Runs
