-- ===== src/EdgeHandshake.antt =====
-- `perform_authorized_handshake` of crates/edge/src/agent_transport.rs: HELLO, REGISTER, REGISTERED.
pub mod Model
pub mod Authorized
pub mod Outcomes
pub mod Sessions
mod Tests
