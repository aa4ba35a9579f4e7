-- ===== src/EdgeConfig.antt =====
-- The `validate` of the edge's configurations: crates/edge/src/agent_transport.rs, multiplex.rs, lib.rs.
pub mod AgentListener
pub mod Multiplexed
pub mod Relay
mod Tests
