-- ===== src/Packed.antt =====
-- Locations of records packed into one word, and the size classes that the index keeps of a record's
-- length: cache2/src/region/index/packed.rs.
pub mod Location
pub mod SizeClass
pub mod Rounding
mod Tests
