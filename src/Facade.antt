-- ===== src/Facade.antt =====
-- include/viper/hiom/hiom.hpp: what joins the tiers, the commit buffer and the checkpoint.
pub mod Winner
pub mod Picked
pub mod Coalesce
pub mod Order
pub mod Batch
pub mod Frontier
pub mod Drives
pub mod Retire
pub mod Recovery
pub mod Reads
pub mod Answers
pub mod Unread
pub mod Protocol
pub mod Covered
pub mod Commit
pub mod Backed
pub mod Flush
pub mod Drained
pub mod Kept
pub mod Rounds
pub mod Emptied
pub mod Writes
pub mod Written
pub mod Pinned
pub mod ReadBack
pub mod Whole
pub mod Replay
