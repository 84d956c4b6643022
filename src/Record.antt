-- ===== src/Record.antt =====
-- The format of records: cache2/src/codec.rs, cache2/src/region/record/mod.rs and
-- cache2/src/region/record/codec.rs.
pub mod Codec
pub mod Header
pub mod Encode
pub mod Alignment
pub mod Roundtrip
pub mod Splice
pub mod Stored
mod Tests
