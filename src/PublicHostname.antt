-- ===== src/PublicHostname.antt =====
-- The public host names of crates/common/src/public_hostname.rs.
pub mod Model
pub mod Canonical
pub mod Names
mod Tests
