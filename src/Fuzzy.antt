-- ===== src/Fuzzy.antt =====
-- crates/surch-search/src/fuzzy.rs: edit distances between terms.
pub mod Defs
pub mod Distance
pub mod Bounds
pub mod Ranking
pub mod Budget
pub mod Expansion
mod Runs
