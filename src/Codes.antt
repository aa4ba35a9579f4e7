-- ===== src/Codes.antt =====
-- The codes that RESET_STREAM and ERROR frames carry, of crates/protocol/src/stream.rs and
-- crates/protocol/src/handshake.rs, and the sequence numbers of heartbeats.
pub mod StreamReset
pub mod Handshake
pub mod Heartbeat
pub mod Sequence
pub mod HelloRole
mod Tests
