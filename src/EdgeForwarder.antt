-- ===== src/EdgeForwarder.antt =====
-- `Forwarder` of crates/edge/src/lib.rs: its construction and the admission of its connections.
pub mod Model
pub mod Bounds
pub mod Limits
pub mod Admissions
mod Tests
