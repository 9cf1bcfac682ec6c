-- ===== src/Codec.antt =====
-- crates/surch-codec/src/codec_util.rs: the header and the footer that frame every file of the
-- engine, and the CRC-32 that the footer carries. An `i32` is its two's complement bit pattern.
pub mod Defs
pub mod Crc
pub mod Header
pub mod Footer
mod Runs
unfoldable pub use Defs.*
