-- ===== src/RequestHistory.antt =====
-- The request history of crates/edge/src/request_history.rs: a bounded record of the last requests.
pub mod Model
pub mod Invariant
pub mod Paths
pub mod Snapshots
mod Tests
