-- ===== src/Multiplex/Session.antt =====
-- `run_edge_session` of crates/edge/src/multiplex.rs.
pub mod Model
pub mod Quiet
pub mod Turns
pub mod Ids
pub mod Capacity
pub mod Drain
pub mod Delivery
pub mod Heartbeat
mod Tests
