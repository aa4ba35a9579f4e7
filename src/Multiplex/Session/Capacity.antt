-- ===== src/Multiplex/Session/Capacity.antt =====
-- The streams of a session at any time: how many they are, and their identifiers.
use mathlib.Core.List.{lookup}
use tunnel_proxy.Common.{
  ℕ, ◌^◌, ◌≤◌, ◌<◌, ◌≡◌, ◌≢◌, refl, ◌∙◌, ◌⊎◌, inl, inr, none, List, [], ◌∷◌, arith, length,
  ℕ_discrete, Option-cases,
}
use tunnel_proxy.Common.Dict.{
  Distinct, lookup-insert_ne, lookup-remove-none, insert-Distinct, remove-Distinct,
  length-insert_new, length-remove-le,
}
use tunnel_proxy.Protocol.FrameType.{StreamId}
use tunnel_proxy.Codes.Sequence.{TransportSessionId}
use tunnel_proxy.Multiplex.Session.Model.{
  EdgeSession, Channels, SessionEvent, continues, breaks, returns, Turn, next_id, allocate, step,
  prepend, then_run, run, new,
}
use tunnel_proxy.Multiplex.Session.Quiet.{Ends, Ends-map, Shrinks}
use tunnel_proxy.Multiplex.Session.Turns.{Opens, step-cases}

then_run-Ends :
    (P : EdgeSession → Type 0) (t : Turn) (k : EdgeSession → Turn)
    → Ends P t.1
    → ((s : EdgeSession) → P s → Ends P (k s).1)
    → Ends P (then_run t k).1
unfolding then_run prepend
then_run-Ends P (effects, continues s) k e h = h s e
then_run-Ends P (effects, breaks s) k e h = e
then_run-Ends P (effects, returns r) k e h = tt

-- What every turn keeps, a run keeps.
pub run-Ends :
    (P : EdgeSession → Type 0) (m : ℕ) (session_id : TransportSessionId)
    → ((env : Channels) (event : SessionEvent) (s : EdgeSession)
        → P s
        → Ends P (step m session_id env event s).1)
    → (events : List (Channels × SessionEvent)) (s : EdgeSession) → P s
    → Ends P (run m session_id events s).1
unfolding run
run-Ends P m session_id keep [] s p = p
run-Ends P m session_id keep ((env, event) ∷ events) s p =
    then_run-Ends P (step m session_id env event s) (run m session_id events) (keep env event s p)
      (run-Ends P m session_id keep events)

-- The identifiers that were given out: those below the next one, or all but 0 if none is left.
abbrev pub WasUsed : EdgeSession → StreamId → Type 0
WasUsed s id = (0 < id) × (id < 2 ^ 32) × ((s.next_stream_id ≡ 0) ⊎ (id < s.next_stream_id))

pub record IsValid (max_streams : ℕ) (s : EdgeSession) : Type 0 where
  pub bounded : length s.streams ≤ max_streams
  pub distinct : Distinct ℕ_discrete s.streams
  pub small : s.next_stream_id < 2 ^ 32
  pub used : (id : StreamId) → lookup ℕ_discrete id s.streams ≢ none → WasUsed s id

new-IsValid : (m : ℕ) → IsValid m new
unfolding new lookup
new-IsValid m = record {
  bounded = omega arith;
  distinct = tt;
  small = omega arith;
  used = λ id h. absurd (h refl);
}

Shrinks-IsValid : (m : ℕ) (s s' : EdgeSession) → IsValid m s → Shrinks s s' → IsValid m s'
Shrinks-IsValid m s s' v sh = elim sh.fewer [
  | inl same ↦ record {
    bounded = rw same v.bounded;
    distinct = rw same v.distinct;
    small = rw (sh.next_same) v.small;
    used = λ id h. rw (sh.next_same) (v.used id (λ e. h (rw same e)));
  }
  | inr (gone, same) ↦ record {
    bounded = rw same (omega (arith, v.bounded, length-remove-le ℕ_discrete gone s.streams));
    distinct = rw same (remove-Distinct ℕ_discrete gone s.streams v.distinct);
    small = rw (sh.next_same) v.small;
    used = λ id h.
        rw (sh.next_same)
          (v.used id (λ e. h (rw same (lookup-remove-none ℕ_discrete id gone s.streams e))));
  }
]

-- The next identifier is of no stream that is open.
next_is_free :
    (m : ℕ) (s : EdgeSession)
    → IsValid m s
    → 0 < s.next_stream_id
    → lookup ℕ_discrete s.next_stream_id s.streams ≡ none
next_is_free m s v pos = elim (Option-cases (lookup ℕ_discrete s.next_stream_id s.streams)) [
  | inl e ↦ e
  | inr (sender, e) ↦
      let was = v.used s.next_stream_id (λ n. absurd (cc (e, n))) in
      absurd (omega (arith, was.2, pos))
]

next_id-keeps :
    (n id : ℕ)
    → n < 2 ^ 32
    → 0 < n
    → (id ≡ n) ⊎ ((n ≡ 0) ⊎ (id < n))
    → (next_id n ≡ 0) ⊎ (id < next_id n)
next_id-keeps n id small pos h = ground arith

Opens-IsValid :
    (m : ℕ) (s : EdgeSession) (t : Turn) → IsValid m s → Opens m s t → Ends (IsValid m) t.1
unfolding allocate
Opens-IsValid m s t v o = rw (o.ends) (record {
  bounded = rw (length-insert_new ℕ_discrete n o.sender s.streams free) (omega (arith, o.room));
  distinct = insert-Distinct ℕ_discrete n o.sender s.streams v.distinct;
  small = next_id-lt;
  used = λ id h. elim (ℕ_discrete id n) [
    | yes same ↦ (
      omega (arith, same, o.positive),
      omega (arith, same, v.small),
      next_id-keeps n id v.small o.positive (inl same),
    )
    | no other ↦
        let was =
          v.used id (λ e. h (lookup-insert_ne ℕ_discrete n id o.sender s.streams other ∙ e)) in
        (was.0, was.1, next_id-keeps n id v.small o.positive (inr was.2))
  ];
})
  where
    n : ℕ
    n = s.next_stream_id

    next_id-lt : next_id s.next_stream_id < 2 ^ 32
    next_id-lt = ground arith

    free : lookup ℕ_discrete s.next_stream_id s.streams ≡ none
    free = next_is_free m s v o.positive

step-IsValid :
    (m : ℕ) (session_id : TransportSessionId) (env : Channels) (event : SessionEvent)
    (s : EdgeSession)
    → IsValid m s
    → Ends (IsValid m) (step m session_id env event s).1
step-IsValid m session_id env event s v = elim (step-cases m session_id env event s) [
  | inl q ↦ Ends-map _ (λ s'. Shrinks-IsValid m s s' v) (step m session_id env event s).1 q.shrinks
  | inr o ↦ Opens-IsValid m s _ v o
]

-- At any time of a session: it has at most `max_streams` streams, no two with the same identifier;
-- each has an identifier that was given out and is a positive 32-bit number, so that a new stream
-- never takes the place of one that is open.
pub run-IsValid :
    (max_streams : ℕ) (session_id : TransportSessionId) (events : List (Channels × SessionEvent))
    → Ends (IsValid max_streams) (run max_streams session_id events new).1
run-IsValid m session_id events =
    run-Ends (IsValid m) m session_id (step-IsValid m session_id) events new (new-IsValid m)
