-- ===== src/Multiplex/Session/Tests.antt =====
-- A session with two streams, and the theorems at concrete sessions.
use mathlib.Core.List.{lookup}
use tunnel_proxy.Common.{
  ℕ, ◌-◌, ◌^◌, ◌≤◌, ◌≡◌, ◌≢◌, ◌↔◌, refl, inl, true, false, none, some, List, [], ◌∷◌, arith, length,
  ℕ_discrete,
}
use tunnel_proxy.Common.Results.{ok}
use tunnel_proxy.Common.Dict.{insert, remove}
use tunnel_proxy.Protocol.FrameType.{data_frame, pong, scope, stream_id_new}
use tunnel_proxy.Protocol.Frame.{Frame}
use tunnel_proxy.Codes.Sequence.{HeartbeatSequence}
use tunnel_proxy.Multiplex.Frames.{decode_heartbeat}
use tunnel_proxy.Multiplex.Session.Model.{
  EdgeSession, open_command, begin_drain, sent, Channels, SessionEvent, decoded, command,
  stream_event, continues, breaks, new, is_empty, on_open, allocate, unless_drained, on_command,
  step, prepend, then_run, run,
}
use tunnel_proxy.Multiplex.Session.Quiet.{Ends, spawned}
use tunnel_proxy.Multiplex.Session.Ids.{count_up, run-count_up}
use tunnel_proxy.Multiplex.Session.Capacity.{IsValid, run-IsValid}
use tunnel_proxy.Multiplex.Session.Drain.{Closes, IsOpen, drain-ends}
use tunnel_proxy.Multiplex.Session.Delivery.{Handled, step-Handled}
use tunnel_proxy.Multiplex.Session.Heartbeat.{heartbeat_frame, unanswered, pong_iff}

program : Unit {0}
unfolding ℕ_discrete lookup insert remove scope stream_id_new new is_empty on_open allocate
    unless_drained on_command step prepend then_run run
program = tt

abbrev calm : Channels
calm = record { try_send = λ sender frame. sent; writer_open = true }

-- Two streams are asked for where one is allowed, the first ends, and another is asked for.
abbrev busy : List (Channels × SessionEvent)
busy =
    (calm, command (some (open_command 70)))
    ∷ (calm, command (some (open_command 71)))
    ∷ (calm, stream_event (some 1))
    ∷ (calm, command (some (open_command 72)))
    ∷ []

abbrev after_busy : EdgeSession
after_busy = record {
  streams = (2, 72) ∷ [];
  next_stream_id = 3;
  heartbeat_sequence = 1;
  pending_heartbeat = none;
  draining = false;
}

busy_end : (run 1 9 busy new).1 ≡ continues after_busy
unfolding program
busy_end = refl

drained_end :
    (run 1 9 ((calm, command (some begin_drain)) ∷ (calm, stream_event (some 2)) ∷ []) after_busy).1
    ≡ breaks (record after_busy { streams = []; draining = true })
unfolding program
drained_end = refl

run-count_up_example :
    (spawned (run 1 9 busy new).0 ≡ count_up 1 (length (spawned (run 1 9 busy new).0)))
    × (length (spawned (run 1 9 busy new).0) ≤ 2 ^ 32 - 1)
run-count_up_example = run-count_up 1 9 busy

run-IsValid_example : Ends (IsValid 1) (run 1 9 busy new).1
run-IsValid_example = run-IsValid 1 9 busy

two-Closes : (id : ℕ) → IsOpen id after_busy → Closes id ((calm, stream_event (some 2)) ∷ [])
unfolding program
two-Closes id live = elim (ℕ_discrete id 2) [
  | yes same ↦ inl (rw same refl)
  | no other ↦ absurd (live (ground arith))
]

drain-ends_example :
    (run 1 9 ((calm, command (some begin_drain)) ∷ (calm, stream_event (some 2)) ∷ []) after_busy).1
    ≢ continues after_busy
drain-ends_example =
    drain-ends 1 9 calm ((calm, stream_event (some 2)) ∷ []) after_busy after_busy two-Closes

abbrev payload_frame : Frame
payload_frame = record {
  frame_type = data_frame;
  flags = 0;
  stream_id = 2;
  payload = 104 ∷ 105 ∷ [];
}

step-Handled_example :
    Handled calm after_busy payload_frame
      (step 1 9 calm (decoded (ok (some payload_frame))) after_busy)
unfolding program
step-Handled_example =
    step-Handled 1 9 calm after_busy payload_frame
      (record { no_flags = refl; bounded = omega arith; in_scope = omega arith }) refl refl

abbrev waiting : EdgeSession
waiting = record after_busy { heartbeat_sequence = 6; pending_heartbeat = some 5 }

pong_iff_example :
    ((step 1 9 calm (decoded (ok (some (heartbeat_frame pong 5)))) waiting).1
      ≡ continues (unanswered waiting))
    ↔ ((sequence : HeartbeatSequence) × (decode_heartbeat (heartbeat_frame pong 5) ≡ some sequence)
        × (waiting.pending_heartbeat ≡ some sequence)
        × (unanswered waiting ≡ unanswered waiting))
pong_iff_example = pong_iff 1 9 calm (heartbeat_frame pong 5) waiting (unanswered waiting) refl
