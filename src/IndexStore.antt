-- ===== src/IndexStore.antt =====
-- crates/surch-store/src/index_store.rs: writes go to the log, and a flush drains the log into a
-- segment; opening the store replays what the log has beyond the segments.
pub mod Defs
pub mod Recovery
pub mod Flush
mod Runs
