-- ===== src/Multiplex/Session/Quiet.antt =====
-- What most turns leave alone: they open no stream, keep the next identifier, and at most remove
-- one stream.
use tunnel_proxy.Common.{
  ◌≡◌, refl, ◌⊎◌, inl, inr, true, Option, none, some, List, [], ◌∷◌, ◌++◌, arith, ◌==◌, ◌&&◌,
  ℕ_discrete, Bool-cases,
}
use tunnel_proxy.Common.Results.{Result, ok, err}
use tunnel_proxy.Common.Dict.{remove}
use tunnel_proxy.Protocol.FrameType.{
  FrameType, hello, register, registered, open_stream, data_frame, end_stream, reset_stream, ping,
  pong, error, StreamId,
}
use tunnel_proxy.Protocol.Frame.{Frame}
use tunnel_proxy.Codes.Sequence.{HeartbeatSequence}
use tunnel_proxy.Multiplex.Errors.{AgentTransportError}
use tunnel_proxy.Multiplex.Frames.{decode_heartbeat, is_reset}
use tunnel_proxy.Multiplex.Session.Model.{
  Sender, EdgeSession, TrySend, sent, full, closed, Channels, Effect, to_writer, deliver,
  respond_error, spawn_stream, reset_timer, flow_control_reset, data_received, Flow, continues,
  breaks, returns, Turn, remove_stream, is_empty, after_send, on_pong, received, answer_unknown,
  overrun, forwarded, route, is_oversize, on_stream_frame, on_frame, unless_drained, next_heartbeat,
  after_ping, on_timer,
}

-- The state that a turn ends in, if the session does not end with an error.
abbrev pub Ends : (EdgeSession → Type 0) → Flow → Type 0
Ends P (continues s) = P s
Ends P (breaks s) = P s
Ends P (returns r) = Unit {0}

pub Ends-map :
    (P : EdgeSession → Type 0) {Q : EdgeSession → Type 0}
    → ((s : EdgeSession) → P s → Q s)
    → (f : Flow) → Ends P f
    → Ends Q f
Ends-map P h (continues s) e = h s e
Ends-map P h (breaks s) e = h s e
Ends-map P h (returns r) e = tt

unfoldable pub spawned_by : Effect → List StreamId
spawned_by (spawn_stream id sender) = id ∷ []
spawned_by (to_writer frame) = []
spawned_by (deliver sender frame) = []
spawned_by (respond_error e) = []
spawned_by (reset_timer t) = []
spawned_by flow_control_reset = []
spawned_by (data_received n) = []

-- The identifiers of the streams that are opened, in order.
unfoldable pub spawned : List Effect → List StreamId
unfolding spawned_by
spawned [] = []
spawned (e ∷ es) = spawned_by e ++ spawned es

pub record Shrinks (s s' : EdgeSession) : Type 0 where
  pub next_same : s'.next_stream_id ≡ s.next_stream_id
  pub fewer :
      (s'.streams ≡ s.streams) ⊎ ((id : StreamId) × (s'.streams ≡ remove ℕ_discrete id s.streams))
  pub still_draining : s.draining ≡ true → s'.draining ≡ true

pub record IsQuiet (s : EdgeSession) (t : Turn) : Type 0 where
  pub none_spawned : spawned t.0 ≡ []
  pub shrinks : Ends (Shrinks s) t.1

pub unchanged : (s : EdgeSession) → Shrinks s s
unchanged s = record { next_same = refl; fewer = inl refl; still_draining = λ d. d }

pub removed : (id : StreamId) (s : EdgeSession) → Shrinks s (remove_stream id s)
removed id s = record { next_same = refl; fewer = inr (id, refl); still_draining = λ d. d }

pub spawned-append : (es fs : List Effect) → spawned (es ++ fs) ≡ spawned es ++ spawned fs
unfolding spawned spawned_by
spawned-append [] fs = refl
spawned-append (spawn_stream id sender ∷ es) fs = rw (spawned-append es fs) refl
spawned-append (to_writer frame ∷ es) fs = spawned-append es fs
spawned-append (deliver sender frame ∷ es) fs = spawned-append es fs
spawned-append (respond_error e ∷ es) fs = spawned-append es fs
spawned-append (reset_timer t ∷ es) fs = spawned-append es fs
spawned-append (flow_control_reset ∷ es) fs = spawned-append es fs
spawned-append (data_received n ∷ es) fs = spawned-append es fs

after_send-IsQuiet :
    (s s' : EdgeSession) (effects : List Effect) (r : Result AgentTransportError Frame)
    → spawned effects ≡ []
    → Shrinks s s'
    → IsQuiet s (after_send effects r s')
unfolding after_send
after_send-IsQuiet s s' effects (err e) none_there sh = record {
  none_spawned = none_there;
  shrinks = tt;
}
after_send-IsQuiet s s' effects (ok frame) none_there sh = record {
  none_spawned = rw (spawned-append effects (to_writer frame ∷ []), none_there) spawned_to_writer;
  shrinks = sh;
}
  where
    spawned_to_writer : spawned (to_writer frame ∷ []) ≡ []
    spawned_to_writer = unfold spawned spawned_by in refl

received-spawned : (frame : Frame) → spawned (received frame) ≡ []
unfolding received spawned spawned_by
received-spawned frame = ground arith

answer_unknown-IsQuiet :
    (env : Channels) (frame : Frame) (effects : List Effect) (s s' : EdgeSession)
    → spawned effects ≡ []
    → Shrinks s s'
    → IsQuiet s (answer_unknown env frame effects s')
unfolding answer_unknown
answer_unknown-IsQuiet env frame effects s s' none_there sh =
    elim (Bool-cases (is_reset frame.frame_type)) [
      | inl reset ↦ rw reset (record { none_spawned = none_there; shrinks = sh })
      | inr other ↦ rw other (after_send-IsQuiet s s' effects _ none_there sh)
    ]

overrun-IsQuiet :
    (env : Channels) (frame : Frame) (effects : List Effect) (s : EdgeSession)
    → spawned effects ≡ []
    → IsQuiet s (overrun env frame effects s)
unfolding overrun spawned spawned_by
overrun-IsQuiet env frame effects s none_there =
    after_send-IsQuiet s _ (effects ++ flow_control_reset ∷ []) _
      (rw (spawned-append effects (flow_control_reset ∷ []), none_there) refl)
      (removed frame.stream_id s)

forwarded-IsQuiet :
    (env : Channels) (frame : Frame) (effects : List Effect) (s : EdgeSession) (sender : Sender)
    (answer : TrySend)
    → spawned effects ≡ []
    → IsQuiet s (forwarded env frame effects s sender answer)
unfolding forwarded spawned spawned_by
forwarded-IsQuiet env frame effects s sender sent none_there = record {
  none_spawned = rw (spawned-append effects (deliver sender frame ∷ []), none_there) refl;
  shrinks = unchanged s;
}
forwarded-IsQuiet env frame effects s sender full none_there =
    overrun-IsQuiet env frame effects s none_there
forwarded-IsQuiet env frame effects s sender closed none_there =
    answer_unknown-IsQuiet env frame effects s _ none_there (removed frame.stream_id s)

route-IsQuiet :
    (env : Channels) (frame : Frame) (effects : List Effect) (s : EdgeSession)
    (found : Option Sender)
    → spawned effects ≡ []
    → IsQuiet s (route env frame effects s found)
unfolding route
route-IsQuiet env frame effects s none none_there =
    answer_unknown-IsQuiet env frame effects s s none_there (unchanged s)
route-IsQuiet env frame effects s (some sender) none_there =
    forwarded-IsQuiet env frame effects s sender (env.try_send sender frame) none_there

on_stream_frame-IsQuiet :
    (env : Channels) (frame : Frame) (s : EdgeSession) → IsQuiet s (on_stream_frame env frame s)
unfolding on_stream_frame spawned
on_stream_frame-IsQuiet env frame s = elim (Bool-cases (is_oversize frame)) [
  | inl big ↦ rw big (overrun-IsQuiet env frame [] s refl)
  | inr fits ↦ rw fits (route-IsQuiet env frame _ s _ (received-spawned frame))
]

pub error-IsQuiet : (s : EdgeSession) (e : AgentTransportError) → IsQuiet s ([], returns (err e))
unfolding spawned
error-IsQuiet s e = record { none_spawned = refl; shrinks = tt }

pub on_pong-IsQuiet :
    (got : Option HeartbeatSequence) (s : EdgeSession) (pending : Option HeartbeatSequence)
    → IsQuiet s (on_pong got s pending)
unfolding on_pong spawned spawned_by
on_pong-IsQuiet none s pending = error-IsQuiet s _
on_pong-IsQuiet (some got) s none = error-IsQuiet s _
on_pong-IsQuiet (some got) s (some expected) = elim (Bool-cases (got == expected)) [
  | inl same ↦ rw same (record {
    none_spawned = refl;
    shrinks = record { next_same = refl; fewer = inl refl; still_draining = λ d. d };
  })
  | inr other ↦ rw other (error-IsQuiet s _)
]

pub on_frame-IsQuiet :
    (t : FrameType) (env : Channels) (frame : Frame) (s : EdgeSession)
    → IsQuiet s (on_frame t env frame s)
unfolding on_frame
on_frame-IsQuiet pong env frame s = on_pong-IsQuiet (decode_heartbeat frame) s s.pending_heartbeat
on_frame-IsQuiet open_stream env frame s = on_stream_frame-IsQuiet env frame s
on_frame-IsQuiet data_frame env frame s = on_stream_frame-IsQuiet env frame s
on_frame-IsQuiet end_stream env frame s = on_stream_frame-IsQuiet env frame s
on_frame-IsQuiet reset_stream env frame s = on_stream_frame-IsQuiet env frame s
on_frame-IsQuiet error env frame s = error-IsQuiet s _
on_frame-IsQuiet hello env frame s = error-IsQuiet s _
on_frame-IsQuiet register env frame s = error-IsQuiet s _
on_frame-IsQuiet registered env frame s = error-IsQuiet s _
on_frame-IsQuiet ping env frame s = error-IsQuiet s _

pub on_timer-IsQuiet :
    (env : Channels) (s : EdgeSession) (pending : Option HeartbeatSequence)
    → IsQuiet s (on_timer env s pending)
unfolding on_timer
on_timer-IsQuiet env s (some sequence) = error-IsQuiet s _
on_timer-IsQuiet env s none = pinged _
  where
    beaten :
        (frame : Frame) (next : Option HeartbeatSequence)
        → IsQuiet s (next_heartbeat s next (to_writer frame ∷ []))
    beaten frame none =
        unfold next_heartbeat spawned spawned_by in record { none_spawned = refl; shrinks = tt }
    beaten frame (some next) =
        unfold next_heartbeat spawned spawned_by in
        record {
          none_spawned = refl;
          shrinks = record { next_same = refl; fewer = inl refl; still_draining = λ d. d };
        }

    pinged : (r : Result AgentTransportError Frame) → IsQuiet s (after_ping s r)
    pinged (err e) = unfold after_ping in error-IsQuiet s e
    pinged (ok frame) = unfold after_ping in beaten frame _

pub unless_drained-IsQuiet : (s s' : EdgeSession) → Shrinks s s' → IsQuiet s (unless_drained s')
unfolding unless_drained spawned
unless_drained-IsQuiet s s' sh = elim (Bool-cases (s'.draining && is_empty s'.streams)) [
  | inl over ↦ rw over (record { none_spawned = refl; shrinks = sh })
  | inr more ↦ rw more (record { none_spawned = refl; shrinks = sh })
]
