-- ===== src/Multiplex/Ingress/Lifecycle.antt =====
-- How often the task of a stream answers its caller and reports its end.
use tunnel_proxy.Multiplex.Ingress.Accounts.{
  is_response, is_completion, is_closed, count, answered, reported, Accounts, count-append,
  after-Accounts, stays, closing-Accounts, refused-Accounts, break_with-Accounts,
  loop_head-Accounts, nothing_said-IsSilent, one-IsSilent, on_reset-Accounts, sent_reset-IsSilent,
}
use tunnel_proxy.Common.{
  ℕ, ◌≡◌, refl, subst, Bool, true, false, not, ◌&&◌, none, some, List, [], ◌∷◌, if◌then◌else◌,
  arith, Bool-cases, inl, inr,
}
use tunnel_proxy.Common.Results.{Result, ok, err}
use tunnel_proxy.Protocol.FrameType.{
  FrameType, hello, register, registered, open_stream, data_frame, end_stream, reset_stream, ping,
  pong, error, StreamId,
}
use tunnel_proxy.Protocol.Frame.{Frame}
use tunnel_proxy.Codes.Sequence.{TransportSessionId}
use tunnel_proxy.Multiplex.Errors.{AgentTransportError, RoutedStreamCloseReason}
use tunnel_proxy.Multiplex.Frames.{send_stream, decode_reset}
use tunnel_proxy.Multiplex.Ingress.Model.{
  Phase, opening, relaying, finished, IngressStream, Answers, StreamEvent, inbound, read_bytes,
  read_failed, timer, to_data, write_all, shutdown, reset_idle, Turn, opened, start, is_empty,
  reject_open, on_answer, step_opening, after, on_relayed, sent_data, on_read, step_relaying,
  step_in, step, run_from, run,
}

on_relayed-Accounts :
    (t : FrameType) (env : Answers) (id : StreamId) (frame : Frame) (s : IngressStream)
    → s.phase ≡ relaying
    → Accounts relaying (on_relayed t env id frame s)
unfolding on_relayed
on_relayed-Accounts data_frame env id frame s here = elim (Bool-cases (not s.agent_ended)) [
  | inl fits ↦ elim (Bool-cases env.ingress_works) [
    | inl works ↦
        simp (fits, works)
          (after-Accounts relaying (write_all frame.payload ∷ []) _ (one-IsSilent _ refl refl refl)
            (loop_head-Accounts id s here))
    | inr broken ↦ simp (fits, broken) (break_with-Accounts env id _ _ s)
  ]
  | inr over ↦ simp over (break_with-Accounts env id _ _ s)
]
on_relayed-Accounts end_stream env id frame s here =
    elim (Bool-cases (is_empty frame.payload && not s.agent_ended)) [
      | inl fits ↦ elim (Bool-cases env.ingress_works) [
        | inl works ↦
            simp (fits, works)
              (after-Accounts relaying (shutdown ∷ []) _ (one-IsSilent _ refl refl refl)
                (loop_head-Accounts id (record s { agent_ended = true }) here))
        | inr broken ↦
            simp (fits, broken) (break_with-Accounts env id _ _ (record s { agent_ended = true }))
      ]
      | inr over ↦ simp over (break_with-Accounts env id _ _ s)
    ]
on_relayed-Accounts reset_stream env id frame s here =
    on_reset-Accounts env id (decode_reset frame) s
on_relayed-Accounts open_stream env id frame s here = break_with-Accounts env id _ _ s
on_relayed-Accounts hello env id frame s here = break_with-Accounts env id _ _ s
on_relayed-Accounts register env id frame s here = break_with-Accounts env id _ _ s
on_relayed-Accounts registered env id frame s here = break_with-Accounts env id _ _ s
on_relayed-Accounts ping env id frame s here = break_with-Accounts env id _ _ s
on_relayed-Accounts pong env id frame s here = break_with-Accounts env id _ _ s
on_relayed-Accounts error env id frame s here = break_with-Accounts env id _ _ s

sent_data-Accounts :
    (r : Result AgentTransportError Frame) (id : StreamId) (s : IngressStream)
    → s.phase ≡ relaying
    → Accounts relaying (sent_data r id s)
unfolding sent_data
sent_data-Accounts (ok frame) id s here =
    after-Accounts relaying (to_data frame ∷ []) _ (one-IsSilent _ refl refl refl)
      (loop_head-Accounts id s here)
sent_data-Accounts (err e) id s here = closing-Accounts id RoutedStreamCloseReason.session_closed s

on_read-Accounts :
    (env : Answers) (id : StreamId) (bytes : List ℕ) (s : IngressStream)
    → s.phase ≡ relaying
    → Accounts relaying (on_read env id bytes s)
unfolding on_read
on_read-Accounts env id [] s here = sent_data-Accounts _ id (record s { ingress_ended = true }) here
on_read-Accounts env id (byte ∷ bytes) s here =
    after-Accounts relaying (reset_idle ∷ []) _ (one-IsSilent _ refl refl refl)
      (sent_data-Accounts _ id s here)

if-Accounts :
    (from : Phase) (b : Bool) (t u : Turn)
    → Accounts from t
    → Accounts from u
    → Accounts from (if b then t else u)
if-Accounts from true t u a c = a
if-Accounts from false t u a c = c

step_relaying-Accounts :
    (env : Answers) (id : StreamId) (event : StreamEvent) (s : IngressStream)
    → s.phase ≡ relaying
    → Accounts relaying (step_relaying env id event s)
unfolding step_relaying
step_relaying-Accounts env id (inbound none) s here =
    closing-Accounts id RoutedStreamCloseReason.session_closed s
step_relaying-Accounts env id (inbound (some frame)) s here =
    after-Accounts relaying (reset_idle ∷ []) _ (one-IsSilent _ refl refl refl)
      (on_relayed-Accounts frame.frame_type env id frame s here)
step_relaying-Accounts env id (read_bytes bytes) s here =
    if-Accounts relaying s.ingress_ended _ _ (subst (λ p. Accounts p ([], s)) here (stays s))
      (on_read-Accounts env id bytes s here)
step_relaying-Accounts env id read_failed s here =
    if-Accounts relaying s.ingress_ended _ _ (subst (λ p. Accounts p ([], s)) here (stays s))
      (break_with-Accounts env id _ _ s)
step_relaying-Accounts env id timer s here = break_with-Accounts env id _ _ s

reject_open-Accounts :
    (env : Answers) (id : StreamId) (s : IngressStream) → Accounts opening (reject_open env id s)
unfolding reject_open
reject_open-Accounts env id s = refused-Accounts _ id _ _ s (sent_reset-IsSilent _)

on_answer-Accounts :
    (t : FrameType) (env : Answers) (session_id : TransportSessionId) (id : StreamId)
    (frame : Frame) (s : IngressStream)
    → Accounts opening (on_answer t env session_id id frame s)
unfolding on_answer count answered reported
on_answer-Accounts open_stream env session_id id frame s =
    elim (Bool-cases (is_empty frame.payload)) [
      | inl fits ↦ rw fits (record { responses = refl; completions = refl; events = refl })
      | inr more ↦ rw more (reject_open-Accounts env id s)
    ]
on_answer-Accounts reset_stream env session_id id frame s =
    refused-Accounts _ id _ [] s nothing_said-IsSilent
on_answer-Accounts hello env session_id id frame s = reject_open-Accounts env id s
on_answer-Accounts register env session_id id frame s = reject_open-Accounts env id s
on_answer-Accounts registered env session_id id frame s = reject_open-Accounts env id s
on_answer-Accounts data_frame env session_id id frame s = reject_open-Accounts env id s
on_answer-Accounts end_stream env session_id id frame s = reject_open-Accounts env id s
on_answer-Accounts ping env session_id id frame s = reject_open-Accounts env id s
on_answer-Accounts pong env session_id id frame s = reject_open-Accounts env id s
on_answer-Accounts error env session_id id frame s = reject_open-Accounts env id s

step_opening-Accounts :
    (env : Answers) (session_id : TransportSessionId) (id : StreamId) (event : StreamEvent)
    (s : IngressStream)
    → s.phase ≡ opening
    → Accounts opening (step_opening env session_id id event s)
unfolding step_opening
step_opening-Accounts env session_id id (inbound (some frame)) s here =
    on_answer-Accounts frame.frame_type env session_id id frame s
step_opening-Accounts env session_id id (inbound none) s here =
    refused-Accounts _ id _ [] s nothing_said-IsSilent
step_opening-Accounts env session_id id timer s here =
    refused-Accounts _ id _ _ s (sent_reset-IsSilent _)
step_opening-Accounts env session_id id (read_bytes bytes) s here =
    subst (λ p. Accounts p ([], s)) here (stays s)
step_opening-Accounts env session_id id read_failed s here =
    subst (λ p. Accounts p ([], s)) here (stays s)

step_in-Accounts :
    (p : Phase) (env : Answers) (session_id : TransportSessionId) (id : StreamId)
    (event : StreamEvent) (s : IngressStream)
    → s.phase ≡ p
    → Accounts p (step_in p env session_id id event s)
unfolding step_in
step_in-Accounts opening env session_id id event s here =
    step_opening-Accounts env session_id id event s here
step_in-Accounts relaying env session_id id event s here =
    step_relaying-Accounts env id event s here
step_in-Accounts finished env session_id id event s here =
    subst (λ p. Accounts p ([], s)) here (stays s)

-- One turn after another.
then-Accounts :
    (from : Phase) (t later : Turn)
    → Accounts from t
    → Accounts t.1.phase later
    → Accounts from (after t.0 later)
unfolding after
then-Accounts from (es, s) (more, s') a b = record {
  responses = omega (arith, count-append is_response es more, a.responses, b.responses);
  completions = omega (arith, count-append is_completion es more, a.completions, b.completions);
  events = omega (arith, count-append is_closed es more, a.events, b.events);
}

run_from-Accounts :
    (session_id : TransportSessionId) (id : StreamId) (events : List (Answers × StreamEvent))
    (s : IngressStream)
    → Accounts s.phase (run_from session_id id events s)
unfolding run_from step
run_from-Accounts session_id id [] s = stays s
run_from-Accounts session_id id ((env, event) ∷ events) s =
    then-Accounts s.phase (step_in s.phase env session_id id event s) _
      (step_in-Accounts s.phase env session_id id event s refl)
      (run_from-Accounts session_id id events (step_in s.phase env session_id id event s).1)

opened-Accounts :
    (r : Result AgentTransportError Frame) (session_id : TransportSessionId) (id : StreamId)
    → Accounts opening (opened r session_id id)
unfolding opened count answered reported
opened-Accounts (ok frame) session_id id = record {
  responses = refl;
  completions = refl;
  events = refl;
}
opened-Accounts (err e) session_id id = record {
  responses = refl;
  completions = refl;
  events = refl;
}

-- Over the life of a stream the caller is answered once, when the agent has accepted the stream
-- or it is given up; the reason for its end is reported once and the session is told once that it
-- is closed, both when the task ends and not before.
pub run-Accounts :
    (session_id : TransportSessionId) (id : StreamId) (env : Answers)
    (events : List (Answers × StreamEvent))
    → let turn = run session_id id env events in
      (count is_response turn.0 ≡ answered turn.1.phase)
      × (count is_completion turn.0 ≡ reported turn.1.phase)
      × (count is_closed turn.0 ≡ reported turn.1.phase)
unfolding run start answered reported
run-Accounts session_id id env events =
    let a =
      then-Accounts opening (start env session_id id) _
        (opened-Accounts (send_stream env.writer_open open_stream id []) session_id id)
        (run_from-Accounts session_id id events (start env session_id id).1) in
    (omega (arith, a.responses), omega (arith, a.completions), omega (arith, a.events))
