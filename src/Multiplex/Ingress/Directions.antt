-- ===== src/Multiplex/Ingress/Directions.antt =====
-- The bytes of a stream in either direction, over the relay of `run_ingress_stream`.
use tunnel_proxy.Common.{
  ◌≡◌, refl, ap, sym, subst, inl, inr, Bool, true, false, none, some, List, [], ◌∷◌, arith,
}
use tunnel_proxy.Protocol.FrameType.{FrameType, StreamId}
use tunnel_proxy.Protocol.Frame.{Frame}
use tunnel_proxy.Codes.Sequence.{TransportSessionId}
use tunnel_proxy.Multiplex.Errors.{RoutedStreamCloseReason}
use tunnel_proxy.Multiplex.Ingress.Model.{
  relaying, IngressStream, Answers, StreamEvent, inbound, read_bytes, read_failed, timer,
  on_relayed, step_relaying, step_in, step, run_from,
}
use tunnel_proxy.Multiplex.Ingress.Transfer.{
  Chunk, chunks_of, to_agent, to_client, moved, sent_by_client, sent_by_agent, Transfers,
}
use tunnel_proxy.Multiplex.Ingress.Progress.{
  IsDirection, Progress, goes_on, closing-Progress, break_with-Progress, reset_idle-Progress,
  run_from-Transfers,
}
use tunnel_proxy.Multiplex.Ingress.Relay.{
  if-Progress, failure-Progress, on_data-Progress, on_end-Progress, on_other-Progress,
  on_read-Progress,
}
use tunnel_proxy.Multiplex.Ingress.Brought.{
  skip_client, skip_agent, agent_data, agent_end, client_end, client_data, client_over, type-cases,
}

abbrev from_client : IngressStream → List (Answers × StreamEvent) → List Chunk
from_client s events = sent_by_client s.ingress_ended events

abbrev from_agent : IngressStream → List (Answers × StreamEvent) → List Chunk
from_agent s events = sent_by_agent s.agent_ended events

client_direction : IsDirection to_agent from_client
unfolding to_agent sent_by_client
client_direction = record {
  no_report = λ reason. refl;
  no_closed = λ id. refl;
  no_control = λ frame. refl;
  no_timer = refl;
  ended = λ s events over. let e : s.ingress_ended ≡ true = ground arith in simp e refl;
}

agent_direction : IsDirection to_client from_agent
unfolding to_client sent_by_agent
agent_direction = record {
  no_report = λ reason. refl;
  no_closed = λ id. refl;
  no_control = λ frame. refl;
  no_timer = refl;
  ended = λ s events over. let e : s.agent_ended ≡ true = ground arith in simp e refl;
}

step_relaying-eq :
    (session_id : TransportSessionId) (id : StreamId) (env : Answers) (event : StreamEvent)
    (s : IngressStream)
    → s.phase ≡ relaying
    → step_relaying env id event s ≡ step session_id id env event s
unfolding step step_in
step_relaying-eq session_id id env event s here =
    sym (ap (λ p. step_in p env session_id id event s) here)

module _ (env : Answers) (id : StreamId) (events : List (Answers × StreamEvent)) (s : IngressStream)
    (here : s.phase ≡ relaying) where
  -- A frame of the agent hands nothing to the agent.
  frame_from_client :
      (frame : Frame)
      → Progress client_direction events
          (from_client s events)
          (on_relayed frame.frame_type env id frame s)
  unfolding moved to_agent
  frame_from_client frame =
      let P = λ (t : FrameType).
        Progress client_direction events (from_client s events) (on_relayed t env id frame s) in
      elim (type-cases frame.frame_type) [
        | inl e ↦
            subst P (sym e)
              (on_data-Progress client_direction events env id frame s _ here (λ fits. refl))
        | inr (inl e) ↦
            subst P (sym e)
              (on_end-Progress client_direction events env id frame s _ here (λ fits. refl))
        | inr (inr (h, k)) ↦ on_other-Progress client_direction events _ env id frame s _ h k
      ]

  frame_from_agent :
      (frame : Frame)
      → Progress agent_direction events
          (from_agent s ((env, inbound (some frame)) ∷ events))
          (on_relayed frame.frame_type env id frame s)
  unfolding moved to_client sent_by_agent
  frame_from_agent frame =
      let P = λ (t : FrameType).
        Progress agent_direction events (from_agent s ((env, inbound (some frame)) ∷ events))
          (on_relayed t env id frame s) in
      elim (type-cases frame.frame_type) [
        | inl e ↦ subst P (sym e) (
            on_data-Progress agent_direction events env id frame s _ here
              (λ fits. agent_data s.agent_ended env frame events fits e))
        | inr (inl e) ↦ subst P (sym e) (
            on_end-Progress agent_direction events env id frame s _ here
              (λ fits. agent_end s.agent_ended env frame events fits e))
        | inr (inr (h, k)) ↦ on_other-Progress agent_direction events _ env id frame s _ h k
      ]

  turn_from_client :
      (event : StreamEvent)
      → Progress client_direction events
          (from_client s ((env, event) ∷ events))
          (step_relaying env id event s)
  unfolding step_relaying moved to_agent chunks_of sent_by_client
  turn_from_client (inbound none) =
      closing-Progress client_direction id RoutedStreamCloseReason.session_closed s events _
        (λ e. cc e)
  turn_from_client (inbound (some frame)) = reset_idle-Progress client_direction _ events _ (
      rw (← skip_client s.ingress_ended env (inbound (some frame)) events (λ bytes e. cc e))
        (frame_from_client frame))
  turn_from_client (read_bytes bytes) =
      if-Progress client_direction events s.ingress_ended _ _ _
        (λ over. goes_on here (client_over s.ingress_ended env bytes events over))
        (λ fits.
          on_read-Progress client_direction events env id bytes s _ here
            (λ frame t e. rw t (client_end s.ingress_ended env bytes events fits e))
            (λ frame t f e. rw (t, f) (client_data s.ingress_ended env bytes events fits e)))
  turn_from_client read_failed =
      if-Progress client_direction events s.ingress_ended _ _ _
        (λ over.
          goes_on here (skip_client s.ingress_ended env read_failed events (λ bytes e. cc e)))
        (λ fits. failure-Progress client_direction events env id s _)
  turn_from_client timer =
      break_with-Progress client_direction env id _ RoutedStreamCloseReason.idle_timeout s events _
        (λ e. cc e)

  turn_from_agent :
      (event : StreamEvent)
      → Progress agent_direction events
          (from_agent s ((env, event) ∷ events))
          (step_relaying env id event s)
  unfolding step_relaying moved to_client
  turn_from_agent (inbound none) =
      closing-Progress agent_direction id RoutedStreamCloseReason.session_closed s events _
        (λ e. cc e)
  turn_from_agent (inbound (some frame)) =
      reset_idle-Progress agent_direction _ events _ (frame_from_agent frame)
  turn_from_agent (read_bytes bytes) =
      let same = skip_agent s.agent_ended env (read_bytes bytes) events (λ frame e. cc e) in
      if-Progress agent_direction events s.ingress_ended _ _ _ (λ over. goes_on here same)
        (λ fits.
          on_read-Progress agent_direction events env id bytes s _ here (λ frame t e. same)
            (λ frame t f e. same))
  turn_from_agent read_failed =
      if-Progress agent_direction events s.ingress_ended _ _ _
        (λ over. goes_on here (skip_agent s.agent_ended env read_failed events (λ frame e. cc e)))
        (λ fits. failure-Progress agent_direction events env id s _)
  turn_from_agent timer =
      break_with-Progress agent_direction env id _ RoutedStreamCloseReason.idle_timeout s events _
        (λ e. cc e)

-- What the relay hands to the agent is what the client has sent, chunk by chunk and in order, with
-- one END_STREAM after the client's end and nothing after it; none of it is missing as long as the
-- task has reported no other end than a graceful one.
pub to_agent-Transfers :
    (session_id : TransportSessionId) (id : StreamId) (events : List (Answers × StreamEvent))
    (s : IngressStream)
    → s.phase ≡ relaying
    → Transfers to_agent (sent_by_client s.ingress_ended events) (run_from session_id id events s).0
to_agent-Transfers session_id id events s here =
    run_from-Transfers client_direction session_id id
      (λ env event events s here.
        rw (← step_relaying-eq session_id id env event s here)
          (turn_from_client env id events s here event))
      (λ s. nothing_sent s.ingress_ended) events s here
  where
    nothing_sent : (b : Bool) → sent_by_client b [] ≡ []
    nothing_sent true = unfold sent_by_client in refl
    nothing_sent false = unfold sent_by_client in refl

-- What the relay writes to the client is what the agent has sent, frame by frame and in order, and
-- it shuts the socket down after the agent's END_STREAM and writes nothing after it; none of it is
-- missing as long as the task has reported no other end than a graceful one.
pub to_client-Transfers :
    (session_id : TransportSessionId) (id : StreamId) (events : List (Answers × StreamEvent))
    (s : IngressStream)
    → s.phase ≡ relaying
    → Transfers to_client (sent_by_agent s.agent_ended events) (run_from session_id id events s).0
to_client-Transfers session_id id events s here =
    run_from-Transfers agent_direction session_id id
      (λ env event events s here.
        rw (← step_relaying-eq session_id id env event s here)
          (turn_from_agent env id events s here event))
      (λ s. nothing_sent s.agent_ended) events s here
  where
    nothing_sent : (b : Bool) → sent_by_agent b [] ≡ []
    nothing_sent true = unfold sent_by_agent in refl
    nothing_sent false = unfold sent_by_agent in refl
