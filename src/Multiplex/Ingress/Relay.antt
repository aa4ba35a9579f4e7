-- ===== src/Multiplex/Ingress/Relay.antt =====
-- The arms of the relay's `select!`, for either direction.
use tunnel_proxy.Common.{
  ℕ, ◌≡◌, refl, ap, inl, inr, Bool, true, false, not, ◌&&◌, Option, none, some, List, [], ◌∷◌, ◌++◌,
  if◌then◌else◌, arith, length,
}
use tunnel_proxy.Common.Results.{Result, ok, err, Result-cases}
use tunnel_proxy.Protocol.FrameType.{
  FrameType, hello, register, registered, open_stream, data_frame, end_stream, reset_stream, ping,
  pong, error, StreamId,
}
use tunnel_proxy.Protocol.Errors.{ProtocolError}
use tunnel_proxy.Protocol.Frame.{Frame, new, stream_frame, check_payload_size, validate_scope}
use tunnel_proxy.Codes.StreamReset.{StreamResetCode, protocol_violation, io_failure}
use tunnel_proxy.Multiplex.Errors.{AgentTransportError, RoutedStreamCloseReason}
use tunnel_proxy.Multiplex.Frames.{send_frame, send_data, decode_reset}
use tunnel_proxy.Multiplex.Ingress.Model.{
  relaying, IngressStream, Answers, StreamEvent, Effect, to_data, write_all, shutdown, Turn,
  is_empty, break_with, on_reset, on_relayed, sent_data, on_read,
}
use tunnel_proxy.Multiplex.Ingress.Transfer.{Chunk, moved}
use tunnel_proxy.Multiplex.Ingress.Progress.{
  IsDirection, Progress, loop_head-Progress, closing-Progress, after-Progress, break_with-Progress,
  reset_idle-Progress,
}

new-fields :
    (t : FrameType) (id : StreamId) (payload : List ℕ) (frame : Frame)
    → new t 0 id payload ≡ ok frame
    → (frame.frame_type ≡ t) × (frame.payload ≡ payload)
unfolding new
new-fields t id payload frame e = elim (Result-cases (check_payload_size (length payload))) [
  | inr (_, f) ↦ absurd (ground arith)
  | inl (_, f) ↦ elim (Result-cases (validate_scope t id)) [
    | inr (_, g) ↦ absurd (ground arith)
    | inl (_, g) ↦ (ground arith, ground arith)
  ]
]

send_frame-ok :
    (b : Bool) (r : Result ProtocolError Frame) (frame : Frame)
    → send_frame b r ≡ ok frame
    → r ≡ ok frame
unfolding send_frame
send_frame-ok b (err e) frame h = absurd (cc h)
send_frame-ok true (ok f) frame h = let same : f ≡ frame = cc h in ap ok same
send_frame-ok false (ok f) frame h = absurd (cc h)

-- A frame that is sent has the type and the payload that were asked for.
sent-fields :
    (b : Bool) (t : FrameType) (id : StreamId) (payload : List ℕ) (frame : Frame)
    → send_data b t id payload ≡ ok frame
    → (frame.frame_type ≡ t) × (frame.payload ≡ payload)
unfolding send_data stream_frame
sent-fields b t id payload frame e =
    new-fields t id payload frame (send_frame-ok b (new t 0 id payload) frame e)

module _ {p : Effect → List Chunk}
    {expected : IngressStream → List (Answers × StreamEvent) → List Chunk}
    (d : IsDirection p expected) (events : List (Answers × StreamEvent)) where
  pub if-Progress :
      (b : Bool) (t u : Turn) (now : List Chunk)
      → (b ≡ true → Progress d events now t)
      → (b ≡ false → Progress d events now u)
      → Progress d events now (if b then t else u)
  if-Progress true t u now f g = f refl
  if-Progress false t u now f g = g refl

  on_reset-Progress :
      (env : Answers) (id : StreamId) (code : Option StreamResetCode) (s : IngressStream)
      (now : List Chunk)
      → Progress d events now (on_reset env id code s)
  unfolding on_reset
  on_reset-Progress env id (some code) s now =
      closing-Progress d id (RoutedStreamCloseReason.peer_reset code) s events now (λ e. cc e)
  on_reset-Progress env id none s now =
      break_with-Progress d env id _ RoutedStreamCloseReason.protocol_violation s events now
        (λ e. cc e)

  violation-Progress :
      (env : Answers) (id : StreamId) (s : IngressStream) (now : List Chunk)
      → Progress d events now
          (break_with env id protocol_violation RoutedStreamCloseReason.protocol_violation s)
  violation-Progress env id s now =
      break_with-Progress d env id _ RoutedStreamCloseReason.protocol_violation s events now
        (λ e. cc e)

  pub failure-Progress :
      (env : Answers) (id : StreamId) (s : IngressStream) (now : List Chunk)
      → Progress d events now (break_with env id io_failure RoutedStreamCloseReason.io_failure s)
  failure-Progress env id s now =
      break_with-Progress d env id _ RoutedStreamCloseReason.io_failure s events now (λ e. cc e)

  pub on_data-Progress :
      (env : Answers) (id : StreamId) (frame : Frame) (s : IngressStream) (now : List Chunk)
      → s.phase ≡ relaying
      → (s.agent_ended ≡ false → moved p (write_all frame.payload ∷ []) ++ expected s events ≡ now)
      → Progress d events now (on_relayed data_frame env id frame s)
  unfolding on_relayed
  on_data-Progress env id frame s now here written =
      if-Progress (not s.agent_ended) _ _ now
        (λ fits.
          if-Progress env.ingress_works _ _ now
            (λ works.
              after-Progress d (write_all frame.payload ∷ []) _ events (expected s events) now
                (written (ground arith)) (loop_head-Progress d id s events here))
            (λ broken. failure-Progress env id s now))
        (λ over. violation-Progress env id s now)

  pub on_end-Progress :
      (env : Answers) (id : StreamId) (frame : Frame) (s : IngressStream) (now : List Chunk)
      → s.phase ≡ relaying
      → (s.agent_ended ≡ false
          → moved p (shutdown ∷ []) ++ expected (record s { agent_ended = true }) events ≡ now)
      → Progress d events now (on_relayed end_stream env id frame s)
  unfolding on_relayed
  on_end-Progress env id frame s now here shut =
      let s' : IngressStream = record s { agent_ended = true } in
      if-Progress (is_empty frame.payload && not s.agent_ended) _ _ now
        (λ fits.
          if-Progress env.ingress_works _ _ now
            (λ works.
              after-Progress d (shutdown ∷ []) _ events (expected s' events) now
                (shut (ground arith)) (loop_head-Progress d id s' events here))
            (λ broken. failure-Progress env id s' now))
        (λ over. violation-Progress env id s now)

  -- A frame of any other type ends the task, with a reason that is not graceful.
  pub on_other-Progress :
      (t : FrameType) (env : Answers) (id : StreamId) (frame : Frame) (s : IngressStream)
      (now : List Chunk)
      → ¬ (t ≡ data_frame)
      → ¬ (t ≡ end_stream)
      → Progress d events now (on_relayed t env id frame s)
  unfolding on_relayed
  on_other-Progress data_frame env id frame s now h k = absurd (h refl)
  on_other-Progress end_stream env id frame s now h k = absurd (k refl)
  on_other-Progress reset_stream env id frame s now h k =
      on_reset-Progress env id (decode_reset frame) s now
  on_other-Progress open_stream env id frame s now h k = violation-Progress env id s now
  on_other-Progress hello env id frame s now h k = violation-Progress env id s now
  on_other-Progress register env id frame s now h k = violation-Progress env id s now
  on_other-Progress registered env id frame s now h k = violation-Progress env id s now
  on_other-Progress ping env id frame s now h k = violation-Progress env id s now
  on_other-Progress pong env id frame s now h k = violation-Progress env id s now
  on_other-Progress error env id frame s now h k = violation-Progress env id s now

  sent_data-Progress :
      (r : Result AgentTransportError Frame) (id : StreamId) (s : IngressStream) (now : List Chunk)
      → s.phase ≡ relaying
      → ((frame : Frame) → r ≡ ok frame → moved p (to_data frame ∷ []) ++ expected s events ≡ now)
      → Progress d events now (sent_data r id s)
  unfolding sent_data
  sent_data-Progress (ok frame) id s now here handed =
      after-Progress d (to_data frame ∷ []) _ events (expected s events) now (handed frame refl)
        (loop_head-Progress d id s events here)
  sent_data-Progress (err e) id s now here handed =
      closing-Progress d id RoutedStreamCloseReason.session_closed s events now (λ e. cc e)

  -- What was read goes out as one frame, or as the end.
  pub on_read-Progress :
      (env : Answers) (id : StreamId) (bytes : List ℕ) (s : IngressStream) (now : List Chunk)
      → s.phase ≡ relaying
      → ((frame : Frame)
          → frame.frame_type ≡ end_stream
          → bytes ≡ []
          → moved p (to_data frame ∷ []) ++ expected (record s { ingress_ended = true }) events
            ≡ now)
      → ((frame : Frame)
          → frame.frame_type ≡ data_frame
          → frame.payload ≡ bytes
          → is_empty bytes ≡ false
          → moved p (to_data frame ∷ []) ++ expected s events ≡ now)
      → Progress d events now (on_read env id bytes s)
  unfolding on_read is_empty
  on_read-Progress env id [] s now here last next =
      sent_data-Progress _ id (record s { ingress_ended = true }) now here
        (λ frame e. last frame (sent-fields env.data_open end_stream id [] frame e).0 refl)
  on_read-Progress env id (byte ∷ bytes) s now here last next = reset_idle-Progress d _ events now (
      sent_data-Progress _ id s now here (λ frame e.
        let same = sent-fields env.data_open data_frame id (byte ∷ bytes) frame e in
        next frame (same.0) (same.1) refl))
