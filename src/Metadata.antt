-- ===== src/Metadata.antt =====
-- The metadata of Regions in a CLEAN image: cache2/src/region/recovery/metadata.rs.
pub mod Data
pub mod Validate
pub mod Rebind
pub mod Accepted
pub mod Rebound
mod Tests
