-- ===== src/Multiplex/Session/Turns.antt =====
-- Every turn either opens one stream, with the next identifier, or opens none.
use tunnel_proxy.Common.{
  ℕ, ◌<◌, ◌≡◌, refl, ◌⊎◌, inl, inr, true, false, Option, none, some, [], ◌∷◌, arith, leb, length,
  Bool-cases, Option-cases,
}
use tunnel_proxy.Common.Results.{ok, err}
use tunnel_proxy.Protocol.FrameType.{stream_id_new}
use tunnel_proxy.Codes.Sequence.{TransportSessionId}
use tunnel_proxy.Multiplex.Errors.{
  RouteError, runtime_draining, capacity_exceeded, stream_id_exhausted,
}
use tunnel_proxy.Multiplex.Session.Model.{
  Sender, EdgeSession, SessionCommand, open_command, begin_drain, revoke_authorization, Channels,
  SessionEvent, decoded, command, stream_event, heartbeat_timer, writer_finished, respond_error,
  continues, breaks, Turn, allocate, on_open, on_command, step,
}
use tunnel_proxy.Multiplex.Session.Quiet.{
  spawned, spawned_by, IsQuiet, unchanged, removed, error-IsQuiet, on_frame-IsQuiet,
  on_timer-IsQuiet, unless_drained-IsQuiet,
}

-- It takes the next identifier, below the limit and not draining.
pub record Opens (max_streams : ℕ) (s : EdgeSession) (t : Turn) : Type 0 where
  pub sender : Sender
  pub not_draining : s.draining ≡ false
  pub room : length s.streams < max_streams
  pub positive : 0 < s.next_stream_id
  pub ends : t ≡ allocate 0 sender s (some s.next_stream_id)

stream_id_new-some : (n id : ℕ) → stream_id_new n ≡ some id → (id ≡ n) × (0 < n)
unfolding stream_id_new
stream_id_new-some n id e = ground arith

respond_error-IsQuiet :
    (s : EdgeSession) (e : RouteError ℕ) → IsQuiet s (respond_error e ∷ [], continues s)
unfolding spawned spawned_by
respond_error-IsQuiet s e = record { none_spawned = refl; shrinks = unchanged s }

allocated-Opens :
    (max_streams : ℕ) (session_id : TransportSessionId) (sender : Sender) (s : EdgeSession) (id : ℕ)
    → s.draining ≡ false
    → leb max_streams (length s.streams) ≡ false
    → stream_id_new s.next_stream_id ≡ some id
    → Opens max_streams s (allocate session_id sender s (some id))
unfolding allocate
allocated-Opens max_streams session_id sender s id d f e =
    let known = stream_id_new-some s.next_stream_id id e in
    record {
      sender = sender;
      not_draining = d;
      room = ground arith;
      positive = known.1;
      ends = rw (known.0) refl;
    }

-- The four ways through the guards of `on_open`.
pub on_open-eq :
    (max_streams : ℕ) (session_id : TransportSessionId) (sender : Sender) (s : EdgeSession)
    → ((e : RouteError ℕ) × (on_open max_streams session_id sender s
          ≡ (respond_error e ∷ [], continues s)))
      ⊎ ((s.draining ≡ false)
          × (leb max_streams (length s.streams) ≡ false)
          × (id : ℕ) × (stream_id_new s.next_stream_id ≡ some id)
          × (on_open max_streams session_id sender s ≡ allocate session_id sender s (some id)))
unfolding on_open allocate
on_open-eq max_streams session_id sender s = elim (Bool-cases s.draining) [
  | inl d ↦ inl (runtime_draining, simp d refl)
  | inr d ↦ elim (Bool-cases (leb max_streams (length s.streams))) [
    | inl f ↦ inl (capacity_exceeded session_id, simp (d, f) refl)
    | inr f ↦ elim (Option-cases (stream_id_new s.next_stream_id)) [
      | inl e ↦ inl (stream_id_exhausted session_id, simp (d, f, e) refl)
      | inr (id, e) ↦ inr (d, f, id, e, simp (d, f, e) refl)
    ]
  ]
]

on_open-cases :
    (max_streams : ℕ) (session_id : TransportSessionId) (sender : Sender) (s : EdgeSession)
    → IsQuiet s (on_open max_streams session_id sender s)
      ⊎ Opens max_streams s (on_open max_streams session_id sender s)
on_open-cases max_streams session_id sender s = elim (on_open-eq max_streams session_id sender s) [
  | inl (e, p) ↦ inl (rw p (respond_error-IsQuiet s e))
  | inr (d, f, id, e, p) ↦ inr (rw p (allocated-Opens max_streams session_id sender s id d f e))
]

end-IsQuiet : (s : EdgeSession) → IsQuiet s ([], breaks s)
unfolding spawned
end-IsQuiet s = record { none_spawned = refl; shrinks = unchanged s }

on_command-cases :
    (max_streams : ℕ) (session_id : TransportSessionId) (c : Option SessionCommand)
    (s : EdgeSession)
    → IsQuiet s (on_command max_streams session_id c s)
      ⊎ Opens max_streams s (on_command max_streams session_id c s)
unfolding on_command
on_command-cases max_streams session_id none s = inl (end-IsQuiet s)
on_command-cases max_streams session_id (some (open_command sender)) s =
    on_open-cases max_streams session_id sender s
on_command-cases max_streams session_id (some begin_drain) s = inl (
    unless_drained-IsQuiet s (record s { draining = true })
      (record { next_same = refl; fewer = inl refl; still_draining = λ d. refl }))
on_command-cases max_streams session_id (some revoke_authorization) s = inl (end-IsQuiet s)

pub step-cases :
    (max_streams : ℕ) (session_id : TransportSessionId) (env : Channels) (event : SessionEvent)
    (s : EdgeSession)
    → IsQuiet s (step max_streams session_id env event s)
      ⊎ Opens max_streams s (step max_streams session_id env event s)
unfolding step spawned
step-cases m session_id env (decoded (err e)) s = inl (error-IsQuiet s _)
step-cases m session_id env (decoded (ok none)) s = inl (end-IsQuiet s)
step-cases m session_id env (decoded (ok (some frame))) s =
    inl (on_frame-IsQuiet frame.frame_type env frame s)
step-cases m session_id env (command c) s = on_command-cases m session_id c s
step-cases m session_id env (stream_event none) s =
    inl (record { none_spawned = refl; shrinks = unchanged s })
step-cases m session_id env (stream_event (some id)) s =
    inl (unless_drained-IsQuiet s _ (removed id s))
step-cases m session_id env heartbeat_timer s = inl (on_timer-IsQuiet env s s.pending_heartbeat)
step-cases m session_id env (writer_finished result) s =
    inl (record { none_spawned = refl; shrinks = tt })
