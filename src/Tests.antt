-- ===== src/Tests.antt =====
-- Each theorem with conditions, applied at concrete values.
pub mod Fifo
pub mod Encoding
pub mod Recovery
pub mod Lanes
pub mod Chains
pub mod Slots
pub mod Ring
pub mod Batches
pub mod Clients
pub mod Store
pub mod Commits
pub mod Puts
pub mod Whole
