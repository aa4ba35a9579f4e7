-- ===== src/Multiplex/Frames.antt =====
-- The frames that the tasks of a session send to its writer, and the payloads they read: the
-- helpers at the end of crates/edge/src/multiplex.rs.
use tunnel_proxy.Common.{
  ℕ, ◌*◌, Bool, true, false, not, Option, none, List, ◌∷◌, ◌==◌, if◌then◌else◌, length,
}
use tunnel_proxy.Common.Results.{Result, ok, err}
use tunnel_proxy.Protocol.FrameType.{FrameType, data_frame, reset_stream, StreamId}
use tunnel_proxy.Protocol.Errors.{ProtocolError}
use tunnel_proxy.Protocol.Frame.{Frame, control_frame, stream_frame}
use tunnel_proxy.Codes.StreamReset as StreamReset
use tunnel_proxy.Codes.StreamReset.{StreamResetCode}
use tunnel_proxy.Codes.Sequence as Sequence
use tunnel_proxy.Codes.Sequence.{HeartbeatSequence}
use tunnel_proxy.Multiplex.Errors.{AgentTransportError, protocol_decode, session_io}

abbrev pub multiplexed_data_payload_size : ℕ
multiplexed_data_payload_size = 16 * 1024

abbrev pub closed_writer : AgentTransportError
closed_writer = session_io "session writer closed"

-- `sender.send(frame)` fails if the writer has gone; a frame that is sent is the result.
unfoldable pub send_frame : Bool → Result ProtocolError Frame → Result AgentTransportError Frame
send_frame writer_open (err e) = err (protocol_decode e)
send_frame writer_open (ok frame) = if writer_open then ok frame else err closed_writer

unfoldable pub send_control : Bool → FrameType → List ℕ → Result AgentTransportError Frame
unfolding send_frame
send_control writer_open t payload = send_frame writer_open (control_frame t payload)

unfoldable pub send_stream : Bool → FrameType → StreamId → List ℕ → Result AgentTransportError Frame
unfolding send_frame
send_stream writer_open t id payload = send_frame writer_open (stream_frame id t payload)

-- The queue of DATA frames instead of that of control frames.
unfoldable pub send_data : Bool → FrameType → StreamId → List ℕ → Result AgentTransportError Frame
unfolding send_frame
send_data writer_open t id payload = send_frame writer_open (stream_frame id t payload)

unfoldable pub send_reset : Bool → StreamId → StreamResetCode → Result AgentTransportError Frame
unfolding send_stream
send_reset writer_open id code =
    send_stream writer_open reset_stream id (StreamReset.to_be_bytes code)

unfoldable pub decode_heartbeat : Frame → Option HeartbeatSequence
decode_heartbeat frame =
    if not (length frame.payload == 8) then none else Sequence.from_be_bytes frame.payload

-- `from_be_bytes([payload[0], payload[1]])`, of a payload of two bytes.
unfoldable pub reset_code_of : List ℕ → Option StreamResetCode
reset_code_of (a ∷ b ∷ _) = StreamReset.from_be_bytes a b
reset_code_of _ = none

unfoldable pub decode_reset : Frame → Option StreamResetCode
unfolding reset_code_of
decode_reset frame = if not (length frame.payload == 2) then none else reset_code_of frame.payload

abbrev pub is_data : FrameType → Bool
is_data data_frame = true
is_data _ = false

abbrev pub is_reset : FrameType → Bool
is_reset reset_stream = true
is_reset _ = false
