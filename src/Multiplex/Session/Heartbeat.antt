-- ===== src/Multiplex/Session/Heartbeat.antt =====
-- PING and PONG of `run_edge_session`.
use tunnel_proxy.Common.{
  ℕ, ◌+◌, ◌-◌, ◌^◌, ◌<◌, ◌≡◌, ◌↔◌, ◌==◌, refl, ap, inl, inr, true, Option, none, some, [], ◌∷◌,
  arith, length, Bool-cases,
}
use tunnel_proxy.Common.Bytes.{IsU64}
use tunnel_proxy.Common.Results.{ok}
use tunnel_proxy.Protocol.FrameType.{FrameType, ping, pong, scope}
use tunnel_proxy.Protocol.Frame.{Frame, new-ok, control_frame}
use tunnel_proxy.Codes.Sequence.{
  HeartbeatSequence, TransportSessionId, to_be_bytes, from_be_bytes-to_be_bytes, checked_next,
  checked_next_iff,
}
use tunnel_proxy.Multiplex.Frames.{send_frame, send_control, decode_heartbeat}
use tunnel_proxy.Multiplex.Session.Model.{
  EdgeSession, Channels, decoded, heartbeat_timer, to_writer, reset_timer, heartbeat_interval,
  pong_timeout, continues, on_pong, on_frame, next_heartbeat, after_ping, on_timer, step, prepend,
  then_run, run,
}

abbrev pub heartbeat_frame : FrameType → HeartbeatSequence → Frame
heartbeat_frame t sequence = record {
  frame_type = t;
  flags = 0;
  stream_id = 0;
  payload = to_be_bytes sequence;
}

abbrev pub unanswered : EdgeSession → EdgeSession
unanswered s = record s { pending_heartbeat = none }

on_pong-accepts :
    (s s' : EdgeSession) (got pending : Option HeartbeatSequence)
    → ((on_pong got s pending).1 ≡ continues s') ↔ (
        (sequence : HeartbeatSequence) × (got ≡ some sequence)
        × (pending ≡ some sequence)
        × (s' ≡ unanswered s))
unfolding on_pong
on_pong-accepts s s' none pending = (λ e. absurd (cc e), λ (q, e, _, _). absurd (cc e))
on_pong-accepts s s' (some got) none = (λ e. absurd (cc e), λ (q, _, e, _). absurd (cc e))
on_pong-accepts s s' (some got) (some expected) = elim (Bool-cases (got == expected)) [
  | inl same ↦
      let eq : got ≡ expected = ground arith in
      (
        λ e. let e' = rw same at e in (expected, ap some eq, refl, cc e'),
        λ (q, _, _, e). rw (same, e) refl,
      )
  | inr other ↦ (
    λ e. let e' = rw other at e in absurd (cc e'),
    λ (q, e, f, _). absurd (let eq : got ≡ expected = cc (e, f) in ground arith),
  )
]

-- A PONG keeps the session going exactly if it carries the sequence number of the PING that waits
-- for it; nothing then waits any more. An unsolicited PONG, one with another number and one with
-- an ill-formed payload end the session.
pub pong_iff :
    (max_streams : ℕ) (session_id : TransportSessionId) (env : Channels) (frame : Frame)
    (s s' : EdgeSession)
    → frame.frame_type ≡ pong
    → ((step max_streams session_id env (decoded (ok (some frame))) s).1 ≡ continues s') ↔ (
        (sequence : HeartbeatSequence) × (decode_heartbeat frame ≡ some sequence)
        × (s.pending_heartbeat ≡ some sequence)
        × (s' ≡ unanswered s))
unfolding step on_frame decode_heartbeat
pong_iff m session_id env frame s s' e =
    rw e (on_pong-accepts s s' (decode_heartbeat frame) s.pending_heartbeat)

length-to_be_bytes : (n : HeartbeatSequence) → length (to_be_bytes n) ≡ 8
unfolding to_be_bytes
length-to_be_bytes n = refl

send_ping-ok :
    (n : HeartbeatSequence) → send_control true ping (to_be_bytes n) ≡ ok (heartbeat_frame ping n)
unfolding send_control control_frame scope
send_ping-ok n =
    rw
      (new-ok ping 0 0 (to_be_bytes n) (record {
        no_flags = refl;
        bounded = rw (length-to_be_bytes n) (omega arith);
        in_scope = refl;
      }))
      (unfold send_frame in refl)

decode_echo :
    (n : HeartbeatSequence) → IsU64 n → 0 < n → decode_heartbeat (heartbeat_frame pong n) ≡ some n
unfolding decode_heartbeat
decode_echo n small pos = rw (length-to_be_bytes n) (from_be_bytes-to_be_bytes n small pos)

==_refl : (n : ℕ) → (n == n) ≡ true
==_refl n = ground arith

next_sequence : (n : HeartbeatSequence) → n < 2 ^ 64 - 1 → checked_next n ≡ some (n + 1)
next_sequence n small = (checked_next_iff n (n + 1) (omega arith)).1 (refl, omega arith)

-- When the timer fires and nothing waits for an answer, a PING with the current sequence number is
-- sent, the number goes up by one, and the PONG that echoes the payload of that PING is accepted:
-- the session goes on with nothing waiting and the next number.
pub run-echo :
    (max_streams : ℕ) (session_id : TransportSessionId) (env env' : Channels) (s : EdgeSession)
    → env.writer_open ≡ true
    → s.pending_heartbeat ≡ none
    → 0 < s.heartbeat_sequence
    → s.heartbeat_sequence < 2 ^ 64 - 1
    → run max_streams session_id
        ((env, heartbeat_timer)
          ∷ (env', decoded (ok (some (heartbeat_frame pong s.heartbeat_sequence))))
          ∷ [])
        s
      ≡ (
        to_writer (heartbeat_frame ping s.heartbeat_sequence)
            ∷ reset_timer pong_timeout
            ∷ reset_timer heartbeat_interval
            ∷ [],
        continues
            (record s { heartbeat_sequence = s.heartbeat_sequence + 1; pending_heartbeat = none }),
      )
unfolding run step then_run prepend on_timer after_ping next_heartbeat on_frame on_pong
run-echo m session_id env env' s opened waiting pos small =
    simp
      (
        opened,
        waiting,
        send_ping-ok s.heartbeat_sequence,
        next_sequence s.heartbeat_sequence small,
        decode_echo s.heartbeat_sequence (omega arith) pos,
        ==_refl s.heartbeat_sequence,
      )
      refl
