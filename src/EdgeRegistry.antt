-- ===== src/EdgeRegistry.antt =====
-- The live sessions of the edge and the tunnels they serve: `SessionRegistry`, `TunnelRegistry` and
-- `EdgeSessionRouter` of crates/edge/src/multiplex.rs, with the policy of crates/edge/src/tls.rs.
pub mod Policy
pub mod Model
pub mod Lookups
pub mod Consistent
pub mod Revocation
pub mod System
pub mod Routing
mod Tests
