-- ===== src/Multiplex/Ingress.antt =====
-- `run_ingress_stream` of crates/edge/src/multiplex.rs.
pub mod Model
pub mod Accounts
pub mod Lifecycle
pub mod Transfer
pub mod Progress
pub mod Relay
pub mod Brought
pub mod Directions
mod Tests
