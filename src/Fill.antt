-- ===== src/Fill.antt =====
-- The admission of fills and the pacing of flushes: cache2/src/io/fill_control.rs.
pub mod Credit
pub mod Threads
pub mod Budget
pub mod Pace
pub mod Rate
pub mod Pressure
pub mod Observed
pub mod ObservedKeeps
pub mod Held
pub mod Stopped
mod Tests
