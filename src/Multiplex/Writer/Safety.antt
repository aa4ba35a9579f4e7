-- ===== src/Multiplex/Writer/Safety.antt =====
-- The writer never meets the failure that it calls an invariant, nor the panic of `pop`.
use tunnel_proxy.Common.{
  ℕ, ◌<◌, ◌≡◌, refl, ◌∙◌, Bool, true, false, not, ◌&&◌, ◌||◌, none, some, List, [], ◌∷◌, ltb, arith,
  if◌then◌else◌, ℕ_discrete,
}
use tunnel_proxy.Common.Results.{Result, ok, err}
use tunnel_proxy.FairQueue.Model as Queue
use tunnel_proxy.FairQueue.Model.{FairQueue, Popped, nothing, item, push, pop}
use tunnel_proxy.FairQueue.Invariant as Invariant
use tunnel_proxy.FairQueue.Pops.{Pops, drained, served, pop-Pops}
use tunnel_proxy.FairQueue.Room.{push-Accepts, len_of_drained, dequeue-capacity}
use tunnel_proxy.Protocol.FrameType.{StreamId}
use tunnel_proxy.Protocol.Errors.{ProtocolError}
use tunnel_proxy.Protocol.Frame.{Frame}
use tunnel_proxy.Multiplex.Errors.{AgentTransportError, protocol_decode}
use tunnel_proxy.Multiplex.Writer.Model.{
  Writer, new, TryRecv, received, empty, disconnected, Selected, from_control, from_data, Round,
  Effect, Outcome, continues, ends, fails, panics, Turn, pushed, schedule, then_fill,
  on_data_answer, fill, written, write_control_frame, selected_arm, after_pop, serve_data,
  on_control_answer, may_serve_control, serve, after_fill, round,
}

-- The schedule is a valid queue of the capacity that the writer was made with.
pub record IsGood (data_capacity : ℕ) (w : Writer) : Type 0 where
  pub valid : Invariant.IsValid ℕ_discrete w.scheduled
  pub capacity : w.scheduled.capacity ≡ data_capacity

-- The next turn has a good state; an error is one of the encoder's; there is no panic.
abbrev pub IsSound : ℕ → Outcome → Type 0
IsSound cap (continues w) = IsGood cap w
IsSound cap ends = Unit {0}
IsSound cap (fails e) = (p : ProtocolError) × (e ≡ protocol_decode p)
IsSound cap panics = ⊥

abbrev pub IsFilled : ℕ → Result AgentTransportError Writer → Type 0
IsFilled cap (ok w) = IsGood cap w
IsFilled cap (err e) = ⊥

new-IsGood : (cap : ℕ) → IsGood cap (new cap)
unfolding new Queue.new
new-IsGood cap = record { valid = Invariant.new-IsValid ℕ_discrete cap; capacity = refl }

schedule-IsFilled :
    (cap : ℕ) (w : Writer) (frame : Frame)
    → IsGood cap w
    → w.scheduled.len < cap
    → IsFilled cap (schedule w frame)
unfolding schedule pushed
schedule-IsFilled cap w frame g room =
    let a =
      push-Accepts ℕ_discrete w.scheduled frame.stream_id frame g.valid
        (omega (arith, room, g.capacity)) in
    rw (a.accepted) (record { valid = a.valid; capacity = a.same_capacity ∙ g.capacity })

then_fill-IsFilled :
    (cap : ℕ) (r : Result AgentTransportError Writer)
    (k : Writer → Result AgentTransportError Writer)
    → IsFilled cap r
    → ((w : Writer) → IsGood cap w → IsFilled cap (k w))
    → IsFilled cap (then_fill r k)
unfolding then_fill
then_fill-IsFilled cap (ok w) k g h = h w g
then_fill-IsFilled cap (err e) k g h = g

on_data_answer-IsFilled :
    (cap : ℕ) (answer : TryRecv) (w : Writer) (k : Writer → Result AgentTransportError Writer)
    → IsGood cap w
    → w.scheduled.len < cap
    → ((w : Writer) → IsGood cap w → IsFilled cap (k w))
    → IsFilled cap (on_data_answer answer w k)
unfolding on_data_answer
on_data_answer-IsFilled cap (received frame) w k g room h =
    then_fill-IsFilled cap (schedule w frame) k (schedule-IsFilled cap w frame g room) h
on_data_answer-IsFilled cap empty w k g room h = g
on_data_answer-IsFilled cap disconnected w k g room h =
    h (record w { data_open = false }) (record { valid = g.valid; capacity = g.capacity })

pub fill-IsFilled :
    (cap : ℕ) (answers : List TryRecv) (w : Writer)
    → IsGood cap w
    → IsFilled cap (fill cap answers w)
unfolding fill
fill-IsFilled cap [] w g = g
fill-IsFilled cap (answer ∷ answers) w g =
    go (w.data_open && ltb w.scheduled.len cap) refl (fill-IsFilled cap answers)
  where
    go :
        (b : Bool)
        → (w.data_open && ltb w.scheduled.len cap) ≡ b
        → ((w : Writer) → IsGood cap w → IsFilled cap (fill cap answers w))
        → IsFilled cap (elim b [ true ↦ on_data_answer answer w (fill cap answers) | false ↦ ok w ])
    go true e h = on_data_answer-IsFilled cap answer w (fill cap answers) g (ground arith) h
    go false e h = g

written-IsSound :
    (cap : ℕ) (r : Result ProtocolError (Unit {0})) (before after : List Effect) (w : Writer)
    → IsGood cap w
    → IsSound cap (written r before after w).1
unfolding written
written-IsSound cap (ok u) before after w g = g
written-IsSound cap (err e) before after w g = (e, refl)

write_control_frame-IsSound :
    (cap : ℕ) (r : Round) (frame : Frame) (w : Writer)
    → IsGood cap w
    → IsSound cap (write_control_frame r frame w).1
unfolding write_control_frame
write_control_frame-IsSound cap r frame w g =
    written-IsSound cap (r.encoded frame) _ _ _ (record { valid = g.valid; capacity = g.capacity })

if-IsSound :
    (cap : ℕ) (b : Bool) (t u : Turn)
    → IsSound cap t.1
    → IsSound cap u.1
    → IsSound cap (if b then t else u).1
if-IsSound cap true t u g h = g
if-IsSound cap false t u g h = h

-- A frame that is scheduled when nothing waits.
selected_data-IsSound :
    (cap : ℕ) (r : Result AgentTransportError Writer)
    → IsFilled cap r
    → IsSound cap (elim r as (λ _. Turn) [ ok w ↦ ([], continues w) | err e ↦ ([], fails e) ]).1
selected_data-IsSound cap (ok w) f = f
selected_data-IsSound cap (err e) f = absurd f

selected_arm-IsSound :
    (cap : ℕ) (r : Round) (selected : Selected) (w : Writer)
    → IsGood cap w
    → w.scheduled.len < cap
    → IsSound cap (selected_arm r selected w).1
unfolding selected_arm
selected_arm-IsSound cap r (from_control (some frame)) w g room =
    if-IsSound cap w.control_open _ _ (write_control_frame-IsSound cap r frame w g) g
selected_arm-IsSound cap r (from_control none) w g room = record {
  valid = g.valid;
  capacity = g.capacity;
}
selected_arm-IsSound cap r (from_data (some frame)) w g room =
    if-IsSound cap w.data_open _ _
      (selected_data-IsSound cap (schedule w frame) (schedule-IsFilled cap w frame g room)) g
selected_arm-IsSound cap r (from_data none) w g room = record {
  valid = g.valid;
  capacity = g.capacity;
}

after_pop-IsSound :
    (cap : ℕ) (r : Round) (w : Writer) (popped : Popped StreamId Frame)
    → 0 < cap
    → IsGood cap w
    → Pops ℕ_discrete w.scheduled popped
    → IsSound cap (after_pop r w popped).1
unfolding after_pop
after_pop-IsSound cap r w _ pos g (drained e) =
    if-IsSound cap (not w.control_open && not w.data_open) _ _ tt (
      selected_arm-IsSound cap r r.selected w g
        (omega (arith, pos, len_of_drained ℕ_discrete w.scheduled g.valid e)))
after_pop-IsSound cap r w _ pos g (served {key} {rest} {v} {vs} {q'} e l ran v') =
    written-IsSound cap (r.encoded v) _ _ _ (record {
      valid = v';
      capacity = dequeue-capacity ℕ_discrete w.scheduled q' key rest v v vs ran ∙ g.capacity;
    })

serve_data-IsSound :
    (cap : ℕ) (r : Round) (w : Writer) → 0 < cap → IsGood cap w → IsSound cap (serve_data r w).1
unfolding serve_data
serve_data-IsSound cap r w pos g =
    after_pop-IsSound cap r w (pop ℕ_discrete w.scheduled) pos g
      (pop-Pops ℕ_discrete w.scheduled g.valid)

on_control_answer-IsSound :
    (cap : ℕ) (r : Round) (answer : TryRecv) (w : Writer)
    → 0 < cap
    → IsGood cap w
    → IsSound cap (on_control_answer r answer w).1
unfolding on_control_answer
on_control_answer-IsSound cap r (received frame) w pos g =
    write_control_frame-IsSound cap r frame w g
on_control_answer-IsSound cap r empty w pos g = serve_data-IsSound cap r w pos g
on_control_answer-IsSound cap r disconnected w pos g =
    serve_data-IsSound cap r (record w { control_open = false }) pos
      (record { valid = g.valid; capacity = g.capacity })

after_fill-IsSound :
    (cap : ℕ) (r : Round) (filled : Result AgentTransportError Writer)
    → 0 < cap
    → IsFilled cap filled
    → IsSound cap (after_fill r filled).1
unfolding after_fill serve
after_fill-IsSound cap r (ok w) pos g =
    if-IsSound cap (may_serve_control w) _ _
      (on_control_answer-IsSound cap r r.control_answer w pos g) (serve_data-IsSound cap r w pos g)
after_fill-IsSound cap r (err e) pos g = absurd g

-- Whatever the queues answer, a turn of the writer keeps its schedule a valid queue of the given
-- capacity, and never schedules more than that: the error "exceeded its admission limit" does not
-- occur, `pop` does not panic, and the only error is one of the encoder.
pub round-IsSound :
    (data_capacity : ℕ) (r : Round) (w : Writer)
    → 0 < data_capacity
    → IsGood data_capacity w
    → IsSound data_capacity (round data_capacity r w).1
unfolding round
round-IsSound cap r w pos g =
    if-IsSound cap (w.control_open || (w.data_open || not (Queue.is_empty w.scheduled))) _ _
      (after_fill-IsSound cap r (fill cap r.data_answers w) pos
        (fill-IsFilled cap r.data_answers w g))
      tt
