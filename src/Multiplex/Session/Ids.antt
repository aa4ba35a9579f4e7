-- ===== src/Multiplex/Session/Ids.antt =====
-- The identifiers of the streams that a session opens: `next_stream_id` of `run_edge_session`.
use tunnel_proxy.Common.{
  ℕ, zero, suc, ◌+◌, ◌-◌, ◌^◌, ◌≤◌, ◌<◌, ◌≡◌, refl, sym, ap, ◌∙◌, inl, inr, Bool-cases, ltb, ◌==◌,
  List, [], ◌∷◌, if◌then◌else◌, arith, length,
}
use tunnel_proxy.Protocol.FrameType.{StreamId}
use tunnel_proxy.Codes.Sequence.{TransportSessionId}
use tunnel_proxy.Multiplex.Session.Model.{
  EdgeSession, Channels, SessionEvent, continues, breaks, returns, Turn, next_id, allocate, step,
  prepend, then_run, run, new,
}
use tunnel_proxy.Multiplex.Session.Quiet.{
  Ends, Ends-map, spawned, spawned_by, spawned-append, Shrinks,
}
use tunnel_proxy.Multiplex.Session.Turns.{Opens, step-cases}

-- `k` numbers from `n` on.
abbrev pub count_up : ℕ → ℕ → List ℕ
count_up n zero = []
count_up n (suc k) = n ∷ count_up (n + 1) k

length-count_up : (n k : ℕ) → length (count_up n k) ≡ k
length-count_up n zero = refl
length-count_up n (suc k) = ap suc (length-count_up (n + 1) k)

-- How many identifiers are left; 0 stands for none.
abbrev left : ℕ → ℕ
left n = if n == 0 then 0 else 2 ^ 32 - n

record IsCounted (n : ℕ) (ids : List StreamId) : Type 0 where
  count : ℕ
  consecutive : ids ≡ count_up n count
  enough : count ≤ left n

nothing-IsCounted : (n : ℕ) (ids : List StreamId) → ids ≡ [] → IsCounted n ids
nothing-IsCounted n ids e = record { count = 0; consecutive = e; enough = omega arith }

none_left : (ids : List StreamId) → IsCounted 0 ids → ids ≡ []
none_left ids c =
    let none_there : c.count ≡ 0 = omega (arith, c.enough) in
    c.consecutive ∙ ap (count_up 0) none_there

one_more :
    (n : ℕ) (ids : List StreamId)
    → 0 < n
    → n < 2 ^ 32
    → IsCounted (next_id n) ids
    → IsCounted n (n ∷ ids)
one_more n ids pos small c = elim (Bool-cases (ltb n (2 ^ 32 - 1))) [
  | inl more ↦
      let c' : IsCounted (n + 1) ids = rw more at c in
      record {
        count = suc c'.count;
        consecutive = ap (◌∷◌ n) c'.consecutive;
        enough = ground (arith, c'.enough);
      }
  | inr last ↦
      let c' : IsCounted 0 ids = rw last at c in
      record { count = 1; consecutive = ap (◌∷◌ n) (none_left ids c'); enough = ground arith }
]

next_id-lt : (n : ℕ) → next_id n < 2 ^ 32
next_id-lt n = ground arith

-- A turn that opens none leaves the count to the turns after it.
quiet-IsCounted :
    (n : ℕ) (t : Turn) (k : EdgeSession → Turn)
    → spawned t.0 ≡ []
    → Ends (λ s. IsCounted n (spawned (k s).0)) t.1
    → IsCounted n (spawned (then_run t k).0)
unfolding then_run prepend
quiet-IsCounted n (effects, continues s) k e later = rw (spawned-append effects (k s).0, e) later
quiet-IsCounted n (effects, breaks s) k e later = nothing-IsCounted n (spawned effects) e
quiet-IsCounted n (effects, returns r) k e later = nothing-IsCounted n (spawned effects) e

opened-IsCounted :
    (m : ℕ) (s : EdgeSession) (t : Turn) (k : EdgeSession → Turn)
    → s.next_stream_id < 2 ^ 32
    → ((s' : EdgeSession)
        → s'.next_stream_id < 2 ^ 32
        → IsCounted s'.next_stream_id (spawned (k s').0))
    → Opens m s t
    → IsCounted s.next_stream_id (spawned (then_run t k).0)
unfolding then_run prepend allocate spawned spawned_by
opened-IsCounted m s t k small later o =
    rw (o.ends)
      (one_more s.next_stream_id _ o.positive small (later _ (next_id-lt s.next_stream_id)))

shrunk-IsCounted :
    (s s' : EdgeSession) (k : EdgeSession → Turn)
    → s.next_stream_id < 2 ^ 32
    → ((s' : EdgeSession)
        → s'.next_stream_id < 2 ^ 32
        → IsCounted s'.next_stream_id (spawned (k s').0))
    → Shrinks s s'
    → IsCounted s.next_stream_id (spawned (k s').0)
shrunk-IsCounted s s' k small later sh =
    rw (← sh.next_same) (later s' (omega (arith, small, sh.next_same)))

run-IsCounted :
    (m : ℕ) (session_id : TransportSessionId) (events : List (Channels × SessionEvent))
    (s : EdgeSession)
    → s.next_stream_id < 2 ^ 32
    → IsCounted s.next_stream_id (spawned (run m session_id events s).0)
unfolding run spawned
run-IsCounted m session_id [] s small = nothing-IsCounted s.next_stream_id [] refl
run-IsCounted m session_id ((env, event) ∷ events) s small =
    elim (step-cases m session_id env event s) [
      | inl q ↦ quiet-IsCounted s.next_stream_id _ (run m session_id events) q.none_spawned (
          Ends-map _
            (λ s'.
              shrunk-IsCounted s s' (run m session_id events) small
                (run-IsCounted m session_id events))
            (step m session_id env event s).1 q.shrinks)
      | inr o ↦
          opened-IsCounted m s _ (run m session_id events) small (run-IsCounted m session_id events)
            o
    ]

-- The streams that a session opens over its whole life are numbered 1, 2, 3 and so on without a
-- gap, at most 2 ^ 32 - 1 of them: an identifier is never 0, and none is used twice.
pub run-count_up :
    (max_streams : ℕ) (session_id : TransportSessionId) (events : List (Channels × SessionEvent))
    → let ids = spawned (run max_streams session_id events new).0 in
      (ids ≡ count_up 1 (length ids)) × (length ids ≤ 2 ^ 32 - 1)
unfolding new
run-count_up m session_id events =
    let c = run-IsCounted m session_id events new (omega arith) in
    let same : length (spawned (run m session_id events new).0) ≡ c.count =
      ap length c.consecutive ∙ length-count_up 1 c.count in
    (c.consecutive ∙ ap (count_up 1) (sym same), omega (arith, same, c.enough))
