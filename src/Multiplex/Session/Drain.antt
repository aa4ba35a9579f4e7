-- ===== src/Multiplex/Session/Drain.antt =====
-- The end of a session that drains: `SessionCommand::BeginDrain` of `run_edge_session`.
use mathlib.Core.List.{lookup}
use tunnel_proxy.Common.{
  ℕ, ◌≡◌, ◌≢◌, refl, ◌⊎◌, inl, inr, true, false, none, some, List, [], ◌∷◌, arith, ℕ_discrete,
  Bool-cases,
}
use tunnel_proxy.Common.Dict.{lookup-remove_self, lookup-remove-none}
use tunnel_proxy.Protocol.FrameType.{StreamId}
use tunnel_proxy.Codes.Sequence.{TransportSessionId}
use tunnel_proxy.Multiplex.Session.Model.{
  Sender, EdgeSession, begin_drain, Channels, SessionEvent, decoded, command, stream_event,
  heartbeat_timer, writer_finished, Flow, continues, breaks, returns, Turn, remove_stream, is_empty,
  unless_drained, on_command, step, prepend, then_run, run,
}
use tunnel_proxy.Multiplex.Session.Quiet.{Ends, spawned, spawned-append, Shrinks, IsQuiet}
use tunnel_proxy.Multiplex.Session.Turns.{step-cases}

-- The task of the stream reports its end.
abbrev pub Closes : StreamId → List (Channels × SessionEvent) → Type 0
Closes id [] = ⊥
Closes id ((env, event) ∷ events) = (event ≡ stream_event (some id)) ⊎ Closes id events

abbrev pub IsOpen : StreamId → EdgeSession → Type 0
IsOpen id s = lookup ℕ_discrete id s.streams ≢ none

abbrev AllClose : EdgeSession → List (Channels × SessionEvent) → Type 0
AllClose s events = (id : StreamId) → IsOpen id s → Closes id events

-- What holds of the state of the next turn, if there is one.
abbrev Next : (EdgeSession → Type 0) → Flow → Type 0
Next P (continues s) = P s
Next P (breaks s) = Unit {0}
Next P (returns r) = Unit {0}

Ends-Next :
    {P Q : EdgeSession → Type 0} (h : (s : EdgeSession) → P s → Q s) (f : Flow)
    → Ends P f
    → Next Q f
Ends-Next h (continues s) e = h s e
Ends-Next h (breaks s) e = tt
Ends-Next h (returns r) e = tt

draining-IsQuiet :
    (m : ℕ) (session_id : TransportSessionId) (env : Channels) (event : SessionEvent)
    (s : EdgeSession)
    → s.draining ≡ true
    → IsQuiet s (step m session_id env event s)
draining-IsQuiet m session_id env event s d = elim (step-cases m session_id env event s) [
  | inl q ↦ q
  | inr o ↦ absurd (cc (d, o.not_draining))
]

quiet-spawned :
    (t : Turn) (k : EdgeSession → Turn)
    → spawned t.0 ≡ []
    → Next (λ s. spawned (k s).0 ≡ []) t.1
    → spawned (then_run t k).0 ≡ []
unfolding then_run prepend
quiet-spawned (effects, continues s) k e later = rw (spawned-append effects (k s).0, e) later
quiet-spawned (effects, breaks s) k e later = e
quiet-spawned (effects, returns r) k e later = e

Shrinks-IsOpen : (s s' : EdgeSession) (id : StreamId) → Shrinks s s' → IsOpen id s' → IsOpen id s
Shrinks-IsOpen s s' id sh live e = elim sh.fewer [
  | inl same ↦ live (rw same e)
  | inr (gone, same) ↦ live (rw same (lookup-remove-none ℕ_discrete id gone s.streams e))
]

event-cases :
    (event : SessionEvent)
    → ((id : StreamId) × (event ≡ stream_event (some id)))
      ⊎ ((id : StreamId) → event ≢ stream_event (some id))
event-cases (stream_event (some id)) = inl (id, refl)
event-cases (stream_event none) = inr (λ id e. cc e)
event-cases (decoded r) = inr (λ id e. cc e)
event-cases (command c) = inr (λ id e. cc e)
event-cases heartbeat_timer = inr (λ id e. cc e)
event-cases (writer_finished r) = inr (λ id e. cc e)

-- A stream that is open, of those that are.
some_IsOpen :
    (streams : List (StreamId × Sender))
    → is_empty streams ≡ false
    → (id : StreamId) × (lookup ℕ_discrete id streams ≢ none)
unfolding is_empty lookup
some_IsOpen [] e = absurd (cc e)
some_IsOpen ((id, sender) ∷ streams) e = (id, ground arith)

-- The loop goes on after the turns.
abbrev GoesOn : Turn → Type 0
GoesOn t = (s : EdgeSession) × (t.1 ≡ continues s)

then_run-stops :
    (t : Turn) (k : EdgeSession → Turn) → Next (λ s. ¬ GoesOn (k s)) t.1 → ¬ GoesOn (then_run t k)
unfolding then_run prepend
then_run-stops (effects, continues s) k h on = h on
then_run-stops (effects, breaks s) k h (s', e) = cc e
then_run-stops (effects, returns r) k h (s', e) = cc e

AllClose-other :
    (env : Channels) (event : SessionEvent) (events : List (Channels × SessionEvent))
    (s s' : EdgeSession)
    → ((id : StreamId) → event ≢ stream_event (some id))
    → AllClose s ((env, event) ∷ events)
    → Shrinks s s'
    → AllClose s' events
AllClose-other env event events s s' other all sh id live =
    elim (all id (Shrinks-IsOpen s s' id sh live)) [
      | inl e ↦ absurd (other id e)
      | inr later ↦ later
    ]

AllClose-remove :
    (env : Channels) (gone : StreamId) (events : List (Channels × SessionEvent)) (s : EdgeSession)
    → AllClose s ((env, stream_event (some gone)) ∷ events)
    → AllClose (remove_stream gone s) events
AllClose-remove env gone events s all id live =
    elim (all id (λ e. live (lookup-remove-none ℕ_discrete id gone s.streams e))) [
      | inl e ↦
          let same : gone ≡ id = cc e in
          absurd (live (rw same (lookup-remove_self ℕ_discrete id s.streams)))
      | inr later ↦ later
    ]

unless_drained-stops :
    (s : EdgeSession) (k : EdgeSession → Turn)
    → s.draining ≡ true
    → (is_empty s.streams ≡ false → ¬ GoesOn (k s))
    → ¬ GoesOn (then_run (unless_drained s) k)
unfolding unless_drained
unless_drained-stops s k d h = elim (Bool-cases (is_empty s.streams)) [
  | inl over ↦ simp (d, over) (then_run-stops ([], breaks s) k tt)
  | inr more ↦ simp (d, more) (then_run-stops ([], continues s) k (h more))
]

drained :
    (m : ℕ) (session_id : TransportSessionId) (events : List (Channels × SessionEvent))
    (s : EdgeSession) (id : StreamId)
    → s.draining ≡ true
    → AllClose s events
    → Closes id events
    → ¬ GoesOn (run m session_id events s)
unfolding run step
drained m session_id [] s id d all c = absurd c
drained m session_id ((env, event) ∷ events) s id d all c = elim (event-cases event) [
  | inl (gone, same) ↦
      let all' = rw same at all in
      rw same (
        unless_drained-stops (remove_stream gone s) (run m session_id events) d (λ more.
          let live = some_IsOpen (remove_stream gone s).streams more in
          let rest = AllClose-remove env gone events s all' in
          drained m session_id events (remove_stream gone s) live.0 d rest (rest live.0 live.1)))
  | inr other ↦
      let later : Closes id events = elim c [ inl e ↦ absurd (other id e) | inr c' ↦ c' ] in
      then_run-stops _ (run m session_id events) (
        Ends-Next
          (λ s' sh.
            drained m session_id events s' id (sh.still_draining d)
              (AllClose-other env event events s s' other all sh) later)
          (step m session_id env event s).1 (draining-IsQuiet m session_id env event s d).shrinks)
]

-- A session that is told to drain ends: once the tasks of all the streams that were open have
-- reported their end, the loop has been left, whatever else happened in between.
pub drain-ends :
    (max_streams : ℕ) (session_id : TransportSessionId) (env : Channels)
    (events : List (Channels × SessionEvent)) (s s' : EdgeSession)
    → ((id : StreamId) → IsOpen id s → Closes id events)
    → (run max_streams session_id ((env, command (some begin_drain)) ∷ events) s).1 ≢ continues s'
unfolding run step on_command
drain-ends m session_id env events s s' all e =
    unless_drained-stops (record s { draining = true }) (run m session_id events) refl
      (λ more.
        let live = some_IsOpen s.streams more in
        drained m session_id events (record s { draining = true }) live.0 refl all
          (all live.0 live.1))
      (s', e)

drained-spawned :
    (m : ℕ) (session_id : TransportSessionId) (events : List (Channels × SessionEvent))
    (s : EdgeSession)
    → s.draining ≡ true
    → spawned (run m session_id events s).0 ≡ []
unfolding run spawned
drained-spawned m session_id [] s d = refl
drained-spawned m session_id ((env, event) ∷ events) s d =
    let q = draining-IsQuiet m session_id env event s d in
    quiet-spawned _ (run m session_id events) q.none_spawned (
      Ends-Next (λ s' sh. drained-spawned m session_id events s' (sh.still_draining d))
        (step m session_id env event s).1 q.shrinks)

-- A session that was told to drain opens no further stream.
pub drain-spawned :
    (max_streams : ℕ) (session_id : TransportSessionId) (env : Channels)
    (events : List (Channels × SessionEvent)) (s : EdgeSession)
    → spawned (run max_streams session_id ((env, command (some begin_drain)) ∷ events) s).0 ≡ []
unfolding run step on_command unless_drained spawned
drain-spawned m session_id env events s = elim (Bool-cases (is_empty s.streams)) [
  | inl over ↦
      rw over (
        quiet-spawned ([], breaks (record s { draining = true })) (run m session_id events) refl tt)
  | inr more ↦ rw more (
      quiet-spawned ([], continues (record s { draining = true })) (run m session_id events) refl
        (drained-spawned m session_id events (record s { draining = true }) refl))
]
