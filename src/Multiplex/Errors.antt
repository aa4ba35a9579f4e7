-- ===== src/Multiplex/Errors.antt =====
-- `AgentTransportError` and `HandshakeState` of crates/edge/src/agent_transport.rs, and `RouteError`
-- and `RoutedStreamCloseReason` of crates/edge/src/multiplex.rs.
use Prim.Native.String.{String}
use tunnel_proxy.Protocol.FrameType.{FrameType, StreamId}
use tunnel_proxy.Protocol.Errors.{ProtocolError}
use tunnel_proxy.Codes.Handshake.{HandshakeErrorCode}
use tunnel_proxy.Codes.Sequence.{HeartbeatSequence, TransportSessionId}
use tunnel_proxy.Codes.StreamReset.{StreamResetCode}

pub data HandshakeState : Type 0 where
  await_hello await_register established closed : HandshakeState

-- An I/O error is its message.
pub data AgentTransportError : Type 0 where
  handshake_timeout : HandshakeState → AgentTransportError
  protocol_violation : String → AgentTransportError
  registration_rejected : HandshakeErrorCode → AgentTransportError
  protocol_decode : ProtocolError → AgentTransportError
  unexpected_eof : HandshakeState → AgentTransportError
  session_io : String → AgentTransportError
  heartbeat_timeout : HeartbeatSequence → AgentTransportError
  heartbeat_sequence_mismatch : HeartbeatSequence → HeartbeatSequence → AgentTransportError
  invalid_heartbeat_payload : FrameType → AgentTransportError
  heartbeat_sequence_exhausted stream_id_exhausted : AgentTransportError

-- A tunnel is named by a durable identifier, which is a byte string.
pub data RouteError (TunnelId : Type 0) : Type 0 where
  runtime_draining : RouteError TunnelId
  session_not_found : TransportSessionId → RouteError TunnelId
  tunnel_not_connected : TunnelId → RouteError TunnelId
  session_busy session_closing : TransportSessionId → RouteError TunnelId
  capacity_exceeded stream_id_exhausted : TransportSessionId → RouteError TunnelId
  stream_rejected : StreamResetCode → RouteError TunnelId
  open_timeout : StreamId → RouteError TunnelId

pub data RoutedStreamCloseReason : Type 0 where
  graceful : RoutedStreamCloseReason
  peer_reset : StreamResetCode → RoutedStreamCloseReason
  session_closed io_failure open_timeout idle_timeout : RoutedStreamCloseReason
  protocol_violation : RoutedStreamCloseReason
