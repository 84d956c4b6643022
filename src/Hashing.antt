-- ===== src/Hashing.antt =====
-- Hashes that are already seeded: cache2/src/hashing.rs.
pub mod Map
pub mod Circle
pub mod Probe
pub mod Insert
pub mod Compact
pub mod Remove
pub mod Refine
pub mod Trace
pub mod Route
mod Tests
