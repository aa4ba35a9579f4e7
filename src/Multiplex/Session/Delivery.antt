-- ===== src/Multiplex/Session/Delivery.antt =====
-- Where a frame of a stream goes: the middle arm of the `match` on the type of a decoded frame.
use mathlib.Core.List.{lookup}
use tunnel_proxy.Common.{
  ℕ, ◌<◌, ◌≤◌, ◌≡◌, refl, ap, sym, subst, ◌⊎◌, inl, inr, Bool, true, false, none, some, List, [],
  ◌∷◌, ◌++◌, arith, length, ℕ_discrete, Bool-cases, Option-cases,
}
use tunnel_proxy.Common.Results.{ok}
use tunnel_proxy.Common.Dict.{remove_absent}
use tunnel_proxy.Protocol.Wire.{max_frame_payload}
use tunnel_proxy.Protocol.FrameType.{
  FrameType, hello, register, registered, open_stream, data_frame, end_stream, reset_stream, ping,
  pong, error, stream, scope, StreamId,
}
use tunnel_proxy.Protocol.Frame as Frames
use tunnel_proxy.Protocol.Frame.{Frame, new-ok, stream_frame}
use tunnel_proxy.Codes.Sequence.{TransportSessionId}
use tunnel_proxy.Codes.StreamReset.{
  StreamResetCode, flow_control_exceeded, unknown_stream, to_be_bytes,
}
use tunnel_proxy.Multiplex.Frames.{is_reset, is_data, send_frame, send_stream, send_reset}
use tunnel_proxy.Multiplex.Session.Model.{
  Sender, EdgeSession, TrySend, sent, full, closed, Channels, decoded, Effect, to_writer, deliver,
  respond_error, spawn_stream, reset_timer, flow_control_reset, data_received, continues, Turn,
  remove_stream, after_send, received, answer_unknown, overrun, forwarded, route, is_oversize,
  on_stream_frame, on_frame, step,
}

abbrev pub reset_frame : StreamId → StreamResetCode → Frame
reset_frame id code = record {
  frame_type = reset_stream;
  flags = 0;
  stream_id = id;
  payload = to_be_bytes code;
}

-- What reaches a stream's task or the writer.
unfoldable pub is_traffic : Effect → Bool
is_traffic (to_writer frame) = true
is_traffic (deliver sender frame) = true
is_traffic (respond_error e) = false
is_traffic (spawn_stream id sender) = false
is_traffic (reset_timer t) = false
is_traffic flow_control_reset = false
is_traffic (data_received n) = false

unfoldable pub IsCounting : List Effect → Type 0
unfolding is_traffic
IsCounting [] = Unit {0}
IsCounting (e ∷ es) = (is_traffic e ≡ false) × IsCounting es

abbrev pub Answers : Channels → EdgeSession → Frame → TrySend → Type 0
Answers env s frame answer =
    (sender : Sender) × (lookup ℕ_discrete frame.stream_id s.streams ≡ some sender)
    × (env.try_send sender frame ≡ answer)

-- Too much DATA in one frame, or more frames than the stream's queue holds.
abbrev pub IsOverrun : Channels → EdgeSession → Frame → Type 0
IsOverrun env s frame = (is_oversize frame ≡ true) ⊎ Answers env s frame full

-- There is no such stream, or its task has ended.
abbrev pub IsUnknown : Channels → EdgeSession → Frame → Type 0
IsUnknown env s frame =
    (lookup ℕ_discrete frame.stream_id s.streams ≡ none) ⊎ Answers env s frame closed

pub data Handled (env : Channels) (s : EdgeSession) (frame : Frame) (t : Turn) : Type 0 where
  passed_on :
      (effects : List Effect) (sender : Sender)
      → is_oversize frame ≡ false
      → lookup ℕ_discrete frame.stream_id s.streams ≡ some sender
      → env.try_send sender frame ≡ sent
      → IsCounting effects
      → t ≡ (effects ++ deliver sender frame ∷ [], continues s)
      → Handled env s frame t
  overran :
      (effects : List Effect)
      → IsOverrun env s frame
      → IsCounting effects
      → t ≡ (
        effects ++ to_writer (reset_frame frame.stream_id flow_control_exceeded) ∷ [],
        continues (remove_stream frame.stream_id s),
      )
      → Handled env s frame t
  unknown :
      (effects : List Effect)
      → IsUnknown env s frame
      → is_reset frame.frame_type ≡ false
      → IsCounting effects
      → t ≡ (
        effects ++ to_writer (reset_frame frame.stream_id unknown_stream) ∷ [],
        continues (remove_stream frame.stream_id s),
      )
      → Handled env s frame t
  ignored :
      (effects : List Effect)
      → IsUnknown env s frame
      → is_reset frame.frame_type ≡ true
      → IsCounting effects
      → t ≡ (effects, continues (remove_stream frame.stream_id s))
      → Handled env s frame t

length-to_be_bytes : (code : StreamResetCode) → length (to_be_bytes code) ≤ max_frame_payload
unfolding to_be_bytes
length-to_be_bytes code = omega arith

send_reset-ok :
    (id : StreamId) (code : StreamResetCode)
    → 0 < id
    → send_reset true id code ≡ ok (reset_frame id code)
unfolding send_reset send_stream stream_frame scope
send_reset-ok id code pos =
    rw
      (new-ok reset_stream 0 id (to_be_bytes code)
        (record { no_flags = refl; bounded = length-to_be_bytes code; in_scope = pos }))
      (unfold send_frame in refl)

received-IsCounting : (frame : Frame) → IsCounting (received frame)
unfolding received IsCounting is_traffic
received-IsCounting frame = elim (Bool-cases (is_data frame.frame_type)) [
  | inl e ↦ rw e (refl, tt)
  | inr e ↦ rw e tt
]

append-IsCounting : (es fs : List Effect) → IsCounting es → IsCounting fs → IsCounting (es ++ fs)
unfolding IsCounting
append-IsCounting [] fs c d = d
append-IsCounting (e ∷ es) fs c d = (c.0, append-IsCounting es fs c.1 d)

reset_is_traffic_free : IsCounting (flow_control_reset ∷ [])
unfolding IsCounting is_traffic
reset_is_traffic_free = (refl, tt)

overrun-Handled :
    (env : Channels) (s : EdgeSession) (frame : Frame) (effects : List Effect)
    → 0 < frame.stream_id
    → env.writer_open ≡ true
    → IsCounting effects
    → IsOverrun env s frame
    → Handled env s frame (overrun env frame effects s)
unfolding overrun after_send
overrun-Handled env s frame effects pos opened c why =
    simp (opened, send_reset-ok frame.stream_id flow_control_exceeded pos)
      (overran (effects ++ flow_control_reset ∷ []) why
        (append-IsCounting effects (flow_control_reset ∷ []) c reset_is_traffic_free) refl)

unknown-Handled :
    (env : Channels) (s : EdgeSession) (frame : Frame) (effects : List Effect)
    → 0 < frame.stream_id
    → env.writer_open ≡ true
    → IsCounting effects
    → IsUnknown env s frame
    → Handled env s frame (answer_unknown env frame effects (remove_stream frame.stream_id s))
unfolding answer_unknown after_send
unknown-Handled env s frame effects pos opened c why =
    elim (Bool-cases (is_reset frame.frame_type)) [
      | inl r ↦ simp r (ignored effects why r c refl)
      | inr r ↦
          simp (r, opened, send_reset-ok frame.stream_id unknown_stream pos)
            (unknown effects why r c refl)
    ]

forwarded-Handled :
    (env : Channels) (s : EdgeSession) (frame : Frame) (effects : List Effect) (sender : Sender)
    (answer : TrySend)
    → 0 < frame.stream_id
    → env.writer_open ≡ true
    → IsCounting effects
    → is_oversize frame ≡ false
    → lookup ℕ_discrete frame.stream_id s.streams ≡ some sender
    → env.try_send sender frame ≡ answer
    → Handled env s frame (forwarded env frame effects s sender answer)
unfolding forwarded
forwarded-Handled env s frame effects sender sent pos opened c fits found e =
    passed_on effects sender fits found e c refl
forwarded-Handled env s frame effects sender full pos opened c fits found e =
    overrun-Handled env s frame effects pos opened c (inr (sender, found, e))
forwarded-Handled env s frame effects sender closed pos opened c fits found e =
    unknown-Handled env s frame effects pos opened c (inr (sender, found, e))

remove_stream_absent :
    (id : StreamId) (s : EdgeSession)
    → lookup ℕ_discrete id s.streams ≡ none
    → s ≡ remove_stream id s
remove_stream_absent id s e =
    ap (λ (m : List (StreamId × Sender)). record s { streams = m })
      (sym (remove_absent ℕ_discrete id s.streams e))

route-Handled :
    (env : Channels) (s : EdgeSession) (frame : Frame)
    → 0 < frame.stream_id
    → env.writer_open ≡ true
    → is_oversize frame ≡ false
    → Handled env s frame
        (route env frame (received frame) s (lookup ℕ_discrete frame.stream_id s.streams))
unfolding route
route-Handled env s frame pos opened fits =
    elim (Option-cases (lookup ℕ_discrete frame.stream_id s.streams)) [
      | inl e ↦
          let t =
            unknown-Handled env s frame (received frame) pos opened (received-IsCounting frame)
              (inl e) in
          let same = remove_stream_absent frame.stream_id s e in
          rw e (
            subst (λ s'. Handled env s frame (answer_unknown env frame (received frame) s'))
              (sym same) t)
      | inr (sender, e) ↦ simp e (
          forwarded-Handled env s frame (received frame) sender (env.try_send sender frame) pos
            opened (received-IsCounting frame) fits e refl)
    ]

on_stream_frame-Handled :
    (env : Channels) (s : EdgeSession) (frame : Frame)
    → 0 < frame.stream_id
    → env.writer_open ≡ true
    → Handled env s frame (on_stream_frame env frame s)
unfolding on_stream_frame IsCounting
on_stream_frame-Handled env s frame pos opened = elim (Bool-cases (is_oversize frame)) [
  | inl big ↦ rw big (overrun-Handled env s frame [] pos opened tt (inl big))
  | inr fits ↦ rw fits (route-Handled env s frame pos opened fits)
]

on_frame-stream :
    (t : FrameType) (env : Channels) (frame : Frame) (s : EdgeSession)
    → scope t ≡ stream
    → on_frame t env frame s ≡ on_stream_frame env frame s
unfolding on_frame scope
on_frame-stream open_stream env frame s e = refl
on_frame-stream data_frame env frame s e = refl
on_frame-stream end_stream env frame s e = refl
on_frame-stream reset_stream env frame s e = refl
on_frame-stream hello env frame s e = cc
on_frame-stream register env frame s e = cc
on_frame-stream registered env frame s e = cc
on_frame-stream ping env frame s e = cc
on_frame-stream pong env frame s e = cc
on_frame-stream error env frame s e = cc

-- A frame of a stream is never lost in silence, if the writer still takes frames. It goes, as it
-- came, to the stream of its identifier, and the session stays as it was, if that stream is open,
-- has room, and the frame is no DATA of more than 16 KiB. Otherwise the stream is closed and its
-- peer gets one RESET_STREAM: for too much data FLOW_CONTROL_EXCEEDED, for a stream that is not
-- open or whose task has ended UNKNOWN_STREAM, unless the frame is itself a RESET_STREAM, which is
-- not answered. No other frame is sent.
pub step-Handled :
    (max_streams : ℕ) (session_id : TransportSessionId) (env : Channels) (s : EdgeSession)
    (frame : Frame)
    → Frames.IsValid frame
    → scope frame.frame_type ≡ stream
    → env.writer_open ≡ true
    → Handled env s frame (step max_streams session_id env (decoded (ok (some frame))) s)
unfolding step
step-Handled m session_id env s frame v e opened =
    let fits : Frames.FitsScope stream frame.stream_id = rw e at v.in_scope in
    rw (on_frame-stream frame.frame_type env frame s e)
      (on_stream_frame-Handled env s frame fits opened)
