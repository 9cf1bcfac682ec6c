-- ===== src/DataIo.antt =====
-- crates/surch-store/src/data_io.rs: the variable-length numbers and the strings of Lucene's data
-- streams.
pub mod Defs
pub mod Numbers
pub mod Strings
mod Runs
