-- ===== src/Multiplex/Ingress/Model.antt =====
-- `run_ingress_stream`: the task of one stream, between the socket of a client and the frames of
-- an agent. It waits first for the agent's answer to OPEN_STREAM, then relays both ways.
use tunnel_proxy.Common.{
  ℕ, Bool, true, false, not, ◌&&◌, Option, none, some, List, [], ◌∷◌, ◌++◌, if◌then◌else◌,
}
use tunnel_proxy.Common.Results.{Result, ok, err}
use tunnel_proxy.Protocol.FrameType.{
  FrameType, hello, register, registered, open_stream, data_frame, end_stream, reset_stream, ping,
  pong, error, StreamId,
}
use tunnel_proxy.Protocol.Frame.{Frame}
use tunnel_proxy.Codes.Sequence.{TransportSessionId}
use tunnel_proxy.Codes.StreamReset as StreamReset
use tunnel_proxy.Codes.StreamReset.{StreamResetCode}
use tunnel_proxy.Multiplex.Errors.{AgentTransportError, RouteError, RoutedStreamCloseReason}
use tunnel_proxy.Multiplex.Errors as Errors
use tunnel_proxy.Multiplex.Frames.{send_stream, send_data, send_reset, decode_reset}

pub data Phase : Type 0 where
  opening relaying finished : Phase

pub record IngressStream : Type 0 where
  pub phase : Phase
  pub ingress_ended : Bool
  pub agent_ended : Bool

-- What the channels and the socket answer: whether the writer takes control frames and DATA, and
-- whether `write_all` or `shutdown` on the socket succeeds.
pub record Answers : Type 0 where
  pub writer_open : Bool
  pub data_open : Bool
  pub ingress_works : Bool

-- A read of no bytes is the end of what the client sends. The timer is the one for opening, then
-- the idle timer.
pub data StreamEvent : Type 0 where
  inbound : Option Frame → StreamEvent
  read_bytes : List ℕ → StreamEvent
  read_failed : StreamEvent
  timer : StreamEvent

pub data Effect : Type 0 where
  to_control to_data : Frame → Effect
  respond : Result (RouteError ℕ) StreamId → Effect
  complete : RoutedStreamCloseReason → Effect
  closed_event : StreamId → Effect
  write_all : List ℕ → Effect
  shutdown : Effect
  reset_idle : Effect

abbrev pub Turn : Type 0
Turn = List Effect × IngressStream

abbrev pub finish_stream : IngressStream → IngressStream
finish_stream s = record s { phase = finished }

-- `let _ = send_reset(…)`: nothing if it fails.
unfoldable pub sent_reset : Result AgentTransportError Frame → List Effect
sent_reset (ok frame) = to_control frame ∷ []
sent_reset (err e) = []

-- The last two lines of the task.
abbrev pub closing : StreamId → RoutedStreamCloseReason → List Effect
closing id reason = complete reason ∷ closed_event id ∷ []

unfoldable pub opened : Result AgentTransportError Frame → TransportSessionId → StreamId → Turn
opened (err e) session_id id = (
  respond (err (Errors.RouteError.session_closing session_id))
      ∷ closing id Errors.RoutedStreamCloseReason.session_closed,
  record { phase = finished; ingress_ended = false; agent_ended = false },
)
opened (ok frame) session_id id =
    (to_control frame ∷ [], record { phase = opening; ingress_ended = false; agent_ended = false })

unfoldable pub start : Answers → TransportSessionId → StreamId → Turn
unfolding opened
start env session_id id = opened (send_stream env.writer_open open_stream id []) session_id id

unfoldable pub is_empty : List ℕ → Bool
is_empty [] = true
is_empty (_ ∷ _) = false

unfoldable pub unwrap_or_violation : Option StreamResetCode → StreamResetCode
unwrap_or_violation none = StreamReset.protocol_violation
unwrap_or_violation (some code) = code

unfoldable pub reject_open : Answers → StreamId → IngressStream → Turn
unfolding sent_reset
reject_open env id s = (
  respond (err (Errors.RouteError.stream_rejected StreamReset.protocol_violation))
        ∷ sent_reset (send_reset env.writer_open id StreamReset.protocol_violation)
      ++ closing id Errors.RoutedStreamCloseReason.protocol_violation,
  finish_stream s,
)

-- The guards on the first frame, by its type.
unfoldable pub on_answer :
    FrameType → Answers → TransportSessionId → StreamId → Frame → IngressStream → Turn
unfolding is_empty unwrap_or_violation reject_open
on_answer open_stream env session_id id frame s =
    if is_empty frame.payload
    then (respond (ok id) ∷ [], record s { phase = relaying })
    else reject_open env id s
on_answer reset_stream env session_id id frame s = (
  respond (err (Errors.RouteError.stream_rejected (unwrap_or_violation (decode_reset frame))))
      ∷ closing id
          (Errors.RoutedStreamCloseReason.peer_reset (unwrap_or_violation (decode_reset frame))),
  finish_stream s,
)
on_answer hello env session_id id frame s = reject_open env id s
on_answer register env session_id id frame s = reject_open env id s
on_answer registered env session_id id frame s = reject_open env id s
on_answer data_frame env session_id id frame s = reject_open env id s
on_answer end_stream env session_id id frame s = reject_open env id s
on_answer ping env session_id id frame s = reject_open env id s
on_answer pong env session_id id frame s = reject_open env id s
on_answer error env session_id id frame s = reject_open env id s

-- The `match` on `timeout(…, inbound.recv())`; the socket is not read yet.
unfoldable pub step_opening :
    Answers → TransportSessionId → StreamId → StreamEvent → IngressStream → Turn
unfolding on_answer sent_reset
step_opening env session_id id (inbound (some frame)) s =
    on_answer frame.frame_type env session_id id frame s
step_opening env session_id id (inbound none) s = (
  respond (err (Errors.RouteError.session_closing session_id))
      ∷ closing id Errors.RoutedStreamCloseReason.session_closed,
  finish_stream s,
)
step_opening env session_id id timer s = (
  respond (err (Errors.RouteError.open_timeout id))
        ∷ sent_reset (send_reset env.writer_open id StreamReset.open_timeout)
      ++ closing id Errors.RoutedStreamCloseReason.open_timeout,
  finish_stream s,
)
step_opening env session_id id (read_bytes bytes) s = ([], s)
step_opening env session_id id read_failed s = ([], s)

-- `break` with a reason, after a RESET_STREAM.
unfoldable pub break_with :
    Answers → StreamId → StreamResetCode → RoutedStreamCloseReason → IngressStream → Turn
unfolding sent_reset
break_with env id code reason s =
    (sent_reset (send_reset env.writer_open id code) ++ closing id reason, finish_stream s)

-- The test at the head of the loop.
unfoldable pub loop_head : StreamId → IngressStream → Turn
loop_head id s =
    if s.ingress_ended && s.agent_ended
    then (closing id Errors.RoutedStreamCloseReason.graceful, finish_stream s)
    else ([], s)

unfoldable pub after : List Effect → Turn → Turn
after effects (more, s) = (effects ++ more, s)

abbrev pub io_failure : Answers → StreamId → IngressStream → Turn
io_failure env id s =
    break_with env id StreamReset.io_failure Errors.RoutedStreamCloseReason.io_failure s

abbrev pub violation : Answers → StreamId → IngressStream → Turn
violation env id s =
    break_with env id StreamReset.protocol_violation
      Errors.RoutedStreamCloseReason.protocol_violation s

unfoldable pub on_reset : Answers → StreamId → Option StreamResetCode → IngressStream → Turn
unfolding break_with
on_reset env id (some code) s =
    (closing id (Errors.RoutedStreamCloseReason.peer_reset code), finish_stream s)
on_reset env id none s = violation env id s

-- The guards on a frame while relaying, by its type.
unfoldable pub on_relayed : FrameType → Answers → StreamId → Frame → IngressStream → Turn
unfolding break_with loop_head after is_empty on_reset
on_relayed data_frame env id frame s =
    if not s.agent_ended
    then if env.ingress_works
      then after (write_all frame.payload ∷ []) (loop_head id s)
      else io_failure env id s
    else violation env id s
on_relayed end_stream env id frame s =
    if is_empty frame.payload && not s.agent_ended
    then if env.ingress_works
      then after (shutdown ∷ []) (loop_head id (record s { agent_ended = true }))
      else io_failure env id (record s { agent_ended = true })
    else violation env id s
on_relayed reset_stream env id frame s = on_reset env id (decode_reset frame) s
on_relayed open_stream env id frame s = violation env id s
on_relayed hello env id frame s = violation env id s
on_relayed register env id frame s = violation env id s
on_relayed registered env id frame s = violation env id s
on_relayed ping env id frame s = violation env id s
on_relayed pong env id frame s = violation env id s
on_relayed error env id frame s = violation env id s

-- `send_data(…)`, or the end of the stream if the writer is gone.
unfoldable pub sent_data : Result AgentTransportError Frame → StreamId → IngressStream → Turn
unfolding loop_head after
sent_data (ok frame) id s = after (to_data frame ∷ []) (loop_head id s)
sent_data (err e) id s = (closing id Errors.RoutedStreamCloseReason.session_closed, finish_stream s)

unfoldable pub on_read : Answers → StreamId → List ℕ → IngressStream → Turn
unfolding sent_data after
on_read env id [] s =
    sent_data (send_data env.data_open end_stream id []) id (record s { ingress_ended = true })
on_read env id (byte ∷ bytes) s =
    after (reset_idle ∷ []) (sent_data (send_data env.data_open data_frame id (byte ∷ bytes)) id s)

-- The arms of `select!`; the socket is not read after its end.
unfoldable pub step_relaying : Answers → StreamId → StreamEvent → IngressStream → Turn
unfolding on_relayed on_read after break_with
step_relaying env id (inbound none) s =
    (closing id Errors.RoutedStreamCloseReason.session_closed, finish_stream s)
step_relaying env id (inbound (some frame)) s =
    after (reset_idle ∷ []) (on_relayed frame.frame_type env id frame s)
step_relaying env id (read_bytes bytes) s =
    if s.ingress_ended then ([], s) else on_read env id bytes s
step_relaying env id read_failed s = if s.ingress_ended then ([], s) else io_failure env id s
step_relaying env id timer s =
    break_with env id StreamReset.idle_timeout Errors.RoutedStreamCloseReason.idle_timeout s

unfoldable pub step_in :
    Phase → Answers → TransportSessionId → StreamId → StreamEvent → IngressStream → Turn
unfolding step_opening step_relaying
step_in opening env session_id id event s = step_opening env session_id id event s
step_in relaying env session_id id event s = step_relaying env id event s
step_in finished env session_id id event s = ([], s)

unfoldable pub step : TransportSessionId → StreamId → Answers → StreamEvent → IngressStream → Turn
unfolding step_in
step session_id id env event s = step_in s.phase env session_id id event s

unfoldable pub run_from :
    TransportSessionId → StreamId → List (Answers × StreamEvent) → IngressStream → Turn
unfolding step after
run_from session_id id [] s = ([], s)
run_from session_id id ((env, event) ∷ events) s =
    let turn = step session_id id env event s in after turn.0 (run_from session_id id events turn.1)

unfoldable pub run : TransportSessionId → StreamId → Answers → List (Answers × StreamEvent) → Turn
unfolding start run_from after
run session_id id env events =
    let turn = start env session_id id in after turn.0 (run_from session_id id events turn.1)
