-- ===== src/Multiplex/Ingress/Progress.antt =====
-- One turn of the relay hands on the next chunk, or ends the task.
use mathlib.Core.List.{append-nil, append_assoc}
use tunnel_proxy.Common.{◌≡◌, refl, sym, ◌∙◌, inl, inr, true, ◌&&◌, List, [], ◌∷◌, ◌++◌, Bool-cases}
use tunnel_proxy.Common.Results.{Result, ok, err}
use tunnel_proxy.Protocol.FrameType.{StreamId}
use tunnel_proxy.Protocol.Frame.{Frame}
use tunnel_proxy.Codes.Sequence.{TransportSessionId}
use tunnel_proxy.Codes.StreamReset.{StreamResetCode}
use tunnel_proxy.Multiplex.Errors.{AgentTransportError, RoutedStreamCloseReason, graceful}
use tunnel_proxy.Multiplex.Frames.{send_reset}
use tunnel_proxy.Multiplex.Ingress.Model.{
  relaying, finished, IngressStream, Answers, StreamEvent, Effect, to_control, complete,
  closed_event, reset_idle, Turn, finish_stream, sent_reset, closing, break_with, loop_head, after,
  step_in, step, run_from,
}
use tunnel_proxy.Multiplex.Ingress.Transfer.{
  Chunk, moved, IsClean, Transfers, moved-append, IsClean-right,
}

-- A direction: what an effect hands on, and what is still to come in a state, before some events.
pub record IsDirection (p : Effect → List Chunk)
    (expected : IngressStream → List (Answers × StreamEvent) → List Chunk) : Type 0 where
  pub no_report : (reason : RoutedStreamCloseReason) → p (complete reason) ≡ []
  pub no_closed : (id : StreamId) → p (closed_event id) ≡ []
  pub no_control : (frame : Frame) → p (to_control frame) ≡ []
  pub no_timer : p reset_idle ≡ []
  pub ended :
      (s : IngressStream) (events : List (Answers × StreamEvent))
      → (s.ingress_ended && s.agent_ended) ≡ true
      → expected s events ≡ []

module _ {p : Effect → List Chunk}
    {expected : IngressStream → List (Answers × StreamEvent) → List Chunk}
    (d : IsDirection p expected) where
  pub data Progress (events : List (Answers × StreamEvent)) (now : List Chunk) (t : Turn)
      : Type 0 where
    goes_on :
        t.1.phase ≡ relaying → moved p t.0 ++ expected t.1 events ≡ now → Progress events now t
    ends : t.1.phase ≡ finished → Transfers p now t.0 → Progress events now t

  closing-moved :
      (id : StreamId) (reason : RoutedStreamCloseReason) → moved p (closing id reason) ≡ []
  unfolding moved
  closing-moved id reason = simp (d.no_report reason, d.no_closed id) refl

  pub loop_head-Progress :
      (id : StreamId) (s : IngressStream) (events : List (Answers × StreamEvent))
      → s.phase ≡ relaying
      → Progress events (expected s events) (loop_head id s)
  unfolding loop_head moved
  loop_head-Progress id s events here = elim (Bool-cases (s.ingress_ended && s.agent_ended)) [
    | inl over ↦
        simp (over, d.ended s events over)
          (ends refl (record {
            in_order = ([], append-nil _ ∙ closing-moved id graceful);
            whole = λ c. closing-moved id graceful;
          }))
    | inr more ↦ simp more (goes_on here refl)
  ]

  -- An end of the task that is not graceful.
  pub closing-Progress :
      (id : StreamId) (reason : RoutedStreamCloseReason) (s : IngressStream)
      (events : List (Answers × StreamEvent)) (now : List Chunk)
      → ¬ (reason ≡ graceful)
      → Progress events now (closing id reason, finish_stream s)
  unfolding IsClean
  closing-Progress id reason s events now bad = ends refl (record {
    in_order = (now, rw (closing-moved id reason) refl);
    whole = λ c. absurd (bad c.0);
  })

  pub after-Progress :
      (es : List Effect) (t : Turn) (events : List (Answers × StreamEvent)) (now now' : List Chunk)
      → moved p es ++ now ≡ now'
      → Progress events now t
      → Progress events now' (after es t)
  unfolding after
  after-Progress es (more, s) events now now' e (goes_on here f) = goes_on here (
      rw (moved-append p es more, append_assoc (moved p es) (moved p more) (expected s events), f)
        e)
  after-Progress es (more, s) events now now' e (ends over tr) = ends over (record {
    in_order = (
      tr.in_order.0,
      rw
          (
            moved-append p es more,
            append_assoc (moved p es) (moved p more) tr.in_order.0,
            tr.in_order.1,
          )
          e,
    );
    whole = λ c. rw (moved-append p es more, tr.whole (IsClean-right es more c)) e;
  })

  sent_reset-moved : (r : Result AgentTransportError Frame) → moved p (sent_reset r) ≡ []
  unfolding sent_reset moved
  sent_reset-moved (ok frame) = simp (d.no_control frame) refl
  sent_reset-moved (err e) = refl

  pub break_with-Progress :
      (env : Answers) (id : StreamId) (code : StreamResetCode) (reason : RoutedStreamCloseReason)
      (s : IngressStream) (events : List (Answers × StreamEvent)) (now : List Chunk)
      → ¬ (reason ≡ graceful)
      → Progress events now (break_with env id code reason s)
  unfolding break_with after
  break_with-Progress env id code reason s events now bad =
      let r = send_reset env.writer_open id code in
      after-Progress (sent_reset r) (closing id reason, finish_stream s) events now now
        (rw (sent_reset-moved r) refl) (closing-Progress id reason s events now bad)

  pub reset_idle-Progress :
      (t : Turn) (events : List (Answers × StreamEvent)) (now : List Chunk)
      → Progress events now t
      → Progress events now (after (reset_idle ∷ []) t)
  unfolding moved
  reset_idle-Progress t events now pr =
      after-Progress (reset_idle ∷ []) t events now now (rw (d.no_timer) refl) pr

  run_from_finished :
      (session_id : TransportSessionId) (id : StreamId) (events : List (Answers × StreamEvent))
      (s : IngressStream)
      → s.phase ≡ finished
      → run_from session_id id events s ≡ ([], s)
  unfolding run_from step step_in after
  run_from_finished session_id id [] s over = refl
  run_from_finished session_id id ((env, event) ∷ events) s over =
      simp (over, run_from_finished session_id id events s over) refl

  -- A relay whose every turn makes progress hands on everything in order.
  pub run_from-Transfers :
      (session_id : TransportSessionId) (id : StreamId)
      → ((env : Answers) (event : StreamEvent) (events : List (Answers × StreamEvent))
            (s : IngressStream)
          → s.phase ≡ relaying
          → Progress events (expected s ((env, event) ∷ events)) (step session_id id env event s))
      → ((s : IngressStream) → expected s [] ≡ [])
      → (events : List (Answers × StreamEvent)) (s : IngressStream) → s.phase ≡ relaying
      → Transfers p (expected s events) (run_from session_id id events s).0
  unfolding run_from moved
  run_from-Transfers session_id id turns none_left [] s here = record {
    in_order = ([], sym (none_left s));
    whole = λ c. sym (none_left s);
  }
  run_from-Transfers session_id id turns none_left ((env, event) ∷ events) s here =
      whole_run (step session_id id env event s) (turns env event events s here)
        (run_from-Transfers session_id id turns none_left events)
    where
      whole_run :
          (t : Turn)
          → Progress events (expected s ((env, event) ∷ events)) t
          → ((s' : IngressStream)
              → s'.phase ≡ relaying
              → Transfers p (expected s' events) (run_from session_id id events s').0)
          → Transfers p
              (expected s ((env, event) ∷ events))
              (after t.0 (run_from session_id id events t.1)).0
      whole_run (es, s') (goes_on here' e) later =
          let tr = later s' here' in
          let more = (run_from session_id id events s').0 in
          unfold after in
          record {
            in_order = (
              tr.in_order.0,
              rw
                  (
                    moved-append p es more,
                    append_assoc (moved p es) (moved p more) tr.in_order.0,
                    tr.in_order.1,
                  )
                  e,
            );
            whole = λ c. rw (moved-append p es more, tr.whole (IsClean-right es more c)) e;
          }
      whole_run (es, s') (ends over tr) later =
          unfold after in rw (run_from_finished session_id id events s' over, append-nil es) tr
