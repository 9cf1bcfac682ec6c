-- ===== src/LiveDocs.antt =====
-- The live documents of a segment: crates/surch-index/src/live_docs.rs.
pub mod Defs
pub mod Counting
mod Runs
