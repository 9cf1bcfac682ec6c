-- ===== src/TopK.antt =====
-- The best documents of a search: the bounded collector of crates/surch-api/src/topn.rs, and the order
-- of scored documents with the threshold that it allows, crates/surch-search/src/topk.rs.
pub mod Collector
pub mod Insertion
pub mod Bounded
pub mod Competitive
mod Runs
