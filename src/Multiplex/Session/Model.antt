-- ===== src/Multiplex/Session/Model.antt =====
-- `run_edge_session`: the state of its loop, and one turn of the loop for each arm of its `select!`.
use mathlib.Core.List.{lookup}
use Prim.Native.String.{String}
use tunnel_proxy.Common.{
  ℕ, ◌+◌, ◌-◌, ◌^◌, Bool, true, false, ◌&&◌, Option, none, some, List, [], ◌∷◌, ◌++◌, ltb, leb,
  ◌==◌, if◌then◌else◌, length, ℕ_discrete,
}
use tunnel_proxy.Common.Results.{Result, ok, err}
use tunnel_proxy.Common.Dict.{insert, remove}
use tunnel_proxy.Protocol.FrameType.{
  FrameType, hello, register, registered, open_stream, data_frame, end_stream, reset_stream, ping,
  pong, error, StreamId, stream_id_new,
}
use tunnel_proxy.Protocol.Errors.{ProtocolError}
use tunnel_proxy.Protocol.Frame.{Frame}
use tunnel_proxy.Codes.Sequence as Sequence
use tunnel_proxy.Codes.Sequence.{HeartbeatSequence, TransportSessionId, checked_next}
use tunnel_proxy.Codes.StreamReset.{flow_control_exceeded, unknown_stream}
use tunnel_proxy.Multiplex.Errors.{
  AgentTransportError, protocol_violation, protocol_decode, heartbeat_timeout,
  heartbeat_sequence_mismatch, invalid_heartbeat_payload, heartbeat_sequence_exhausted, RouteError,
  runtime_draining, capacity_exceeded, stream_id_exhausted,
}
use tunnel_proxy.Multiplex.Frames.{
  multiplexed_data_payload_size, send_control, send_reset, decode_heartbeat, is_data, is_reset,
}

-- The queue of frames to a stream's task; `mpsc::channel` makes a new one for each stream.
abbrev pub Sender : Type 0
Sender = ℕ

pub record EdgeSession : Type 0 where
  pub streams : List (StreamId × Sender)
  pub next_stream_id : ℕ
  pub heartbeat_sequence : HeartbeatSequence
  pub pending_heartbeat : Option HeartbeatSequence
  pub draining : Bool

-- `open` brings the queue that `mpsc::channel` returns.
pub data SessionCommand : Type 0 where
  open_command : Sender → SessionCommand
  begin_drain revoke_authorization : SessionCommand

pub data TrySend : Type 0 where
  sent full closed : TrySend

-- What the channels of the session answer during a turn: `try_send` on the queue of a stream, and
-- whether the writer still takes frames.
pub record Channels : Type 0 where
  pub try_send : Sender → Frame → TrySend
  pub writer_open : Bool

pub data SessionEvent : Type 0 where
  decoded : Result ProtocolError (Option Frame) → SessionEvent
  command : Option SessionCommand → SessionEvent
  stream_event : Option StreamId → SessionEvent
  heartbeat_timer : SessionEvent
  writer_finished : Result AgentTransportError (Unit {0}) → SessionEvent

pub data Timer : Type 0 where
  heartbeat_interval pong_timeout : Timer

pub data Effect : Type 0 where
  to_writer : Frame → Effect
  deliver : Sender → Frame → Effect
  respond_error : RouteError ℕ → Effect
  spawn_stream : StreamId → Sender → Effect
  reset_timer : Timer → Effect
  flow_control_reset : Effect
  data_received : ℕ → Effect

-- How a turn ends: with the next turn, with `break`, or with `return`.
pub data Flow : Type 0 where
  continues breaks : EdgeSession → Flow
  returns : Result AgentTransportError (Unit {0}) → Flow

abbrev pub Turn : Type 0
Turn = List Effect × Flow

unfoldable pub new : EdgeSession
new = record {
  streams = [];
  next_stream_id = 1;
  heartbeat_sequence = Sequence.first;
  pending_heartbeat = none;
  draining = false;
}

abbrev pub remove_stream : StreamId → EdgeSession → EdgeSession
remove_stream id s = record s { streams = remove ℕ_discrete id s.streams }

unfoldable pub is_empty : List (StreamId × Sender) → Bool
is_empty [] = true
is_empty (_ ∷ _) = false

-- `?` on a frame that goes to the writer.
unfoldable pub after_send : List Effect → Result AgentTransportError Frame → EdgeSession → Turn
after_send effects (ok frame) s = (effects ++ to_writer frame ∷ [], continues s)
after_send effects (err e) s = (effects, returns (err e))

-- The PONG of a payload, against the pending heartbeat.
unfoldable pub on_pong : Option HeartbeatSequence → EdgeSession → Option HeartbeatSequence → Turn
on_pong none s pending = ([], returns (err (invalid_heartbeat_payload pong)))
on_pong (some got) s none = ([], returns (err (protocol_violation "unsolicited PONG")))
on_pong (some got) s (some expected) =
    if got == expected
    then (reset_timer heartbeat_interval ∷ [], continues (record s { pending_heartbeat = none }))
    else ([], returns (err (heartbeat_sequence_mismatch expected got)))

-- `telemetry.data_received` for DATA.
unfoldable pub received : Frame → List Effect
received frame = if is_data frame.frame_type then data_received (length frame.payload) ∷ [] else []

unfoldable pub answer_unknown : Channels → Frame → List Effect → EdgeSession → Turn
unfolding after_send
answer_unknown env frame effects s =
    if is_reset frame.frame_type
    then (effects, continues s)
    else after_send effects (send_reset env.writer_open frame.stream_id unknown_stream) s

unfoldable pub overrun : Channels → Frame → List Effect → EdgeSession → Turn
unfolding after_send
overrun env frame effects s =
    after_send (effects ++ flow_control_reset ∷ [])
      (send_reset env.writer_open frame.stream_id flow_control_exceeded)
      (remove_stream frame.stream_id s)

unfoldable pub forwarded : Channels → Frame → List Effect → EdgeSession → Sender → TrySend → Turn
unfolding answer_unknown overrun
forwarded env frame effects s sender sent = (effects ++ deliver sender frame ∷ [], continues s)
forwarded env frame effects s sender full = overrun env frame effects s
forwarded env frame effects s sender closed =
    answer_unknown env frame effects (remove_stream frame.stream_id s)

unfoldable pub route : Channels → Frame → List Effect → EdgeSession → Option Sender → Turn
unfolding forwarded answer_unknown
route env frame effects s none = answer_unknown env frame effects s
route env frame effects s (some sender) =
    forwarded env frame effects s sender (env.try_send sender frame)

abbrev pub is_oversize : Frame → Bool
is_oversize frame =
    is_data frame.frame_type && ltb multiplexed_data_payload_size (length frame.payload)

unfoldable pub on_stream_frame : Channels → Frame → EdgeSession → Turn
unfolding route overrun received
on_stream_frame env frame s =
    if is_oversize frame
    then overrun env frame [] s
    else route env frame (received frame) s (lookup ℕ_discrete frame.stream_id s.streams)

abbrev pub violation : String → Turn
violation reason = ([], returns (err (protocol_violation reason)))

-- The `match` on the type of a frame.
unfoldable pub on_frame : FrameType → Channels → Frame → EdgeSession → Turn
unfolding on_pong on_stream_frame
on_frame pong env frame s = on_pong (decode_heartbeat frame) s s.pending_heartbeat
on_frame open_stream env frame s = on_stream_frame env frame s
on_frame data_frame env frame s = on_stream_frame env frame s
on_frame end_stream env frame s = on_stream_frame env frame s
on_frame reset_stream env frame s = on_stream_frame env frame s
on_frame error env frame s = violation "Agent sent ERROR"
on_frame hello env frame s = violation "unexpected established-session frame"
on_frame register env frame s = violation "unexpected established-session frame"
on_frame registered env frame s = violation "unexpected established-session frame"
on_frame ping env frame s = violation "unexpected established-session frame"

-- `checked_add(1).unwrap_or_default()` of a `u32`
abbrev pub next_id : ℕ → ℕ
next_id n = if ltb n (2 ^ 32 - 1) then n + 1 else 0

unfoldable pub allocate : TransportSessionId → Sender → EdgeSession → Option StreamId → Turn
allocate session_id sender s none =
    (respond_error (stream_id_exhausted session_id) ∷ [], continues s)
allocate session_id sender s (some id) = (
  spawn_stream id sender ∷ [],
  continues (record s {
    next_stream_id = next_id s.next_stream_id;
    streams = insert ℕ_discrete id sender s.streams;
  }),
)

unfoldable pub on_open : ℕ → TransportSessionId → Sender → EdgeSession → Turn
unfolding allocate
on_open max_streams session_id sender s =
    if s.draining
    then (respond_error runtime_draining ∷ [], continues s)
    else if leb max_streams (length s.streams)
    then (respond_error (capacity_exceeded session_id) ∷ [], continues s)
    else allocate session_id sender s (stream_id_new s.next_stream_id)

-- The next turn, or the end of a session that drains and has no streams.
unfoldable pub unless_drained : EdgeSession → Turn
unfolding is_empty
unless_drained s = if s.draining && is_empty s.streams then ([], breaks s) else ([], continues s)

unfoldable pub on_command : ℕ → TransportSessionId → Option SessionCommand → EdgeSession → Turn
unfolding on_open unless_drained
on_command max_streams session_id none s = ([], breaks s)
on_command max_streams session_id (some (open_command sender)) s =
    on_open max_streams session_id sender s
on_command max_streams session_id (some begin_drain) s =
    unless_drained (record s { draining = true })
on_command max_streams session_id (some revoke_authorization) s = ([], breaks s)

unfoldable pub next_heartbeat : EdgeSession → Option HeartbeatSequence → List Effect → Turn
next_heartbeat s none effects = (effects, returns (err heartbeat_sequence_exhausted))
next_heartbeat s (some next) effects = (
  effects ++ reset_timer pong_timeout ∷ [],
  continues (record s { heartbeat_sequence = next; pending_heartbeat = some s.heartbeat_sequence }),
)

unfoldable pub after_ping : EdgeSession → Result AgentTransportError Frame → Turn
unfolding next_heartbeat
after_ping s (err e) = ([], returns (err e))
after_ping s (ok frame) =
    next_heartbeat s (checked_next s.heartbeat_sequence) (to_writer frame ∷ [])

unfoldable pub on_timer : Channels → EdgeSession → Option HeartbeatSequence → Turn
unfolding after_ping
on_timer env s (some sequence) = ([], returns (err (heartbeat_timeout sequence)))
on_timer env s none =
    after_ping s (send_control env.writer_open ping (Sequence.to_be_bytes s.heartbeat_sequence))

unfoldable pub step : ℕ → TransportSessionId → Channels → SessionEvent → EdgeSession → Turn
unfolding on_frame on_command unless_drained on_timer
step max_streams session_id env (decoded (err e)) s = ([], returns (err (protocol_decode e)))
step max_streams session_id env (decoded (ok none)) s = ([], breaks s)
step max_streams session_id env (decoded (ok (some frame))) s =
    on_frame frame.frame_type env frame s
step max_streams session_id env (command c) s = on_command max_streams session_id c s
step max_streams session_id env (stream_event none) s = ([], continues s)
step max_streams session_id env (stream_event (some id)) s = unless_drained (remove_stream id s)
step max_streams session_id env heartbeat_timer s = on_timer env s s.pending_heartbeat
step max_streams session_id env (writer_finished result) s = ([], returns result)

unfoldable pub prepend : List Effect → Turn → Turn
prepend effects (more, flow) = (effects ++ more, flow)

unfoldable pub then_run : Turn → (EdgeSession → Turn) → Turn
unfolding prepend
then_run (effects, continues s) k = prepend effects (k s)
then_run (effects, breaks s) k = (effects, breaks s)
then_run (effects, returns r) k = (effects, returns r)

-- The turns of the loop until it ends or the events are over.
unfoldable pub run : ℕ → TransportSessionId → List (Channels × SessionEvent) → EdgeSession → Turn
unfolding step then_run
run max_streams session_id [] s = ([], continues s)
run max_streams session_id ((env, event) ∷ events) s =
    then_run (step max_streams session_id env event s) (run max_streams session_id events)

-- After the loop: the queues are dropped, and the writer's result is that of the session.
unfoldable pub finish :
    Result AgentTransportError (Unit {0}) → Flow → Result AgentTransportError (Unit {0})
finish writer (returns r) = r
finish writer (continues s) = writer
finish writer (breaks s) = writer
