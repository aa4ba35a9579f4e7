-- ===== src/PeerAdmission.antt =====
-- The connection admission of crates/edge/src/admission.rs: a bounded number of connections from
-- each source address.
pub mod Model
pub mod Permits
mod Tests
