-- ===== src/Index.antt =====
-- The index of records: cache2/src/region/index.
pub mod Layout
pub mod Tiling
pub mod Slot
pub mod SlotRoundtrip
pub mod Lookup
pub mod Found
pub mod Stats
mod Tests
