-- ===== src/Protocol/Errors.antt =====
-- `ProtocolError` of crates/protocol/src/error.rs.
use Prim.Native.String.{String}
use tunnel_proxy.Common.{ℕ, List}
use tunnel_proxy.Protocol.FrameType.{FrameType}

-- What the operating system reports is a number without further meaning.
abbrev pub IoError : Type 0
IoError = ℕ

pub data ProtocolError : Type 0 where
  io : IoError → ProtocolError
  invalid_magic : List ℕ → ProtocolError
  unsupported_version : ℕ → ProtocolError
  unknown_frame_type : ℕ → ProtocolError
  unsupported_flags : ℕ → ProtocolError
  invalid_stream_scope : FrameType → String → ℕ → ProtocolError
  frame_too_large : ℕ → ProtocolError
  truncated_header : ℕ → ProtocolError
  truncated_payload : ℕ → ℕ → ProtocolError
  encode_frame_too_large : ℕ → ProtocolError
  encode_validation : String → ProtocolError
