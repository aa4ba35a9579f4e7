-- ===== src/Registration.antt =====
-- The REGISTER payload of crates/protocol/src/handshake.rs, and the durable identifiers in it, of
-- crates/common/src/lib.rs.
pub mod DurableId
pub mod Payload
pub mod RoundTrip
mod Tests
