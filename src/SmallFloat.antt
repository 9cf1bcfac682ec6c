-- ===== src/SmallFloat.antt =====
-- crates/surch-search/src/small_float.rs: field lengths in one byte.
pub mod Defs
pub mod Bucket
mod Runs
