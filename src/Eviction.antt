-- ===== src/Eviction.antt =====
-- The choice of victims in the memory tier: cache2/src/memory/eviction.rs.
pub mod Slot
pub mod Clock
pub mod Queue
pub mod Fifo
pub mod Policy
pub mod Positions
pub mod Flags
pub mod Scan
mod Tests
