-- ===== src/Manager.antt =====
-- cache2/src/region/manager.rs
pub mod State
pub mod Append
pub mod Flush
pub mod Rotation
pub mod Reclaim
pub mod Valid
pub mod Views
pub mod Update
pub mod AppendKeeps
pub mod FlushKeeps
pub mod RotationKeeps
pub mod Selection
pub mod QueueKeeps
pub mod FinishKeeps
pub mod ReclaimKeeps
pub mod Run
pub mod Sequence
pub mod Internal
pub mod Receipts
pub mod Refusals
pub mod Recover
pub mod Recovered
pub mod FromMetadata
pub mod Snapshot
pub mod Reserve
mod Tests
