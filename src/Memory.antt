-- ===== src/Memory.antt =====
-- crates/surch-store/src/directory.rs and lock.rs: the directory and the locks in memory.
pub mod Names
pub mod Directory
pub mod Synced
pub mod Renaming
pub mod Lock
mod Runs
