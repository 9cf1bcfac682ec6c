-- ===== src/Postings.antt =====
-- crates/surch-codec/src/postings_block.rs: how the postings of a term are written as bytes, and
-- how a reader skips through them.
pub mod Varint
pub mod Flat
pub mod FlatRoundTrip
pub mod Cursor
pub mod Skip
pub mod Inspect
pub mod SkipSearch
pub mod SkipJump
pub mod SkipAdvance
pub mod Packing
pub mod PackedBits
pub mod PackedRoundTrip
pub mod BlockPlan
pub mod BlockEncode
pub mod BlockDecode
pub mod ChannelPlan
pub mod ChannelDeltas
pub mod Exceptions
pub mod DocChannel
pub mod FreqChannel
pub mod BlockRoundTrip
pub mod BlockedBytes
pub mod BlockedRoundTrip
pub mod BlockAccess
pub mod InspectChain
pub mod EncodeOutcome
pub mod ChannelCost
mod Runs
