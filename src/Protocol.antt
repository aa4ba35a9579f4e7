-- ===== src/Protocol.antt =====
-- Tunnel Protocol v2: crates/protocol/src. Frames, the frame codec, and the payloads of the
-- handshake, the heartbeat and the stream lifecycle.
pub mod Wire
pub mod FrameType
pub mod Errors
pub mod Frame
pub mod Encoder
pub mod Header
pub mod Decoder
pub mod Resume
pub mod RoundTrip
mod Tests
