-- ===== src/Multiplex/Writer/Burst.antt =====
-- How long control frames can hold up scheduled DATA: `MAX_CONTROL_FRAME_BURST` of `writer_actor`.
use tunnel_proxy.Common.{
  ℕ, suc, ◌-◌, ◌<◌, ◌≤◌, ◌≡◌, refl, inl, inr, Bool, true, false, not, ◌&&◌, ◌||◌, leb, none, some,
  List, [], ◌∷◌, arith, if◌then◌else◌, ℕ_discrete,
}
use tunnel_proxy.Common.Results.{Result, ok, err, Result-cases}
use tunnel_proxy.FairQueue.Model as Queue
use tunnel_proxy.FairQueue.Model.{Popped, nothing, item, push, pop}
use tunnel_proxy.FairQueue.Pops.{Pops, drained, served, pop-Pops}
use tunnel_proxy.FairQueue.Room.{len_of_drained}
use tunnel_proxy.Protocol.FrameType.{StreamId}
use tunnel_proxy.Protocol.Errors.{ProtocolError}
use tunnel_proxy.Protocol.Frame.{Frame}
use tunnel_proxy.Multiplex.Errors.{AgentTransportError}
use tunnel_proxy.Multiplex.Writer.Model.{
  max_control_frame_burst, Writer, TryRecv, received, empty, disconnected, Selected, from_control,
  from_data, Round, Effect, write_control, write_data, control_burst_yielded, Outcome, continues,
  ends, fails, Turn, schedule, fill, written, next_burst, write_control_frame, selected_arm,
  yielded, counted, after_pop, serve_data, on_control_answer, may_serve_control, serve, after_fill,
  round,
}
use tunnel_proxy.Multiplex.Writer.Safety.{IsGood, IsFilled, fill-IsFilled, round-IsSound}
use tunnel_proxy.Multiplex.Writer.Filling.{KeepsBurst, fill-KeepsBurst}

-- A turn that writes one control frame, while DATA is scheduled that it leaves there.
pub record HoldsUp (t : Turn) (w' : Writer) : Type 0 where
  pub frame : Frame
  pub wrote : t ≡ (write_control frame ∷ [], continues w')
  pub waiting : Queue.is_empty w'.scheduled ≡ false

-- A control frame that is written counts, and leaves the schedule alone.
control_written :
    (r : Round) (frame : Frame) (w w' : Writer)
    → HoldsUp (write_control_frame r frame w) w'
    → (w'.control_burst ≡ next_burst w.control_burst) × (w'.scheduled ≡ w.scheduled)
unfolding write_control_frame written
control_written r frame w w' h = elim (Result-cases (r.encoded frame)) [
  | inl (u, e) ↦ let g = rw e at h.wrote in (cc g, cc g)
  | inr (f, e) ↦ absurd (let g = rw e at h.wrote in cc g)
]

if-HoldsUp :
    (b : Bool) (t u : Turn) (w' : Writer)
    → HoldsUp (if b then t else u) w'
    → ¬ HoldsUp u w'
    → (b ≡ true) × HoldsUp t w'
if-HoldsUp true t u w' h k = (refl, h)
if-HoldsUp false t u w' h k = absurd (k h)

silent : (outcome : Outcome) (w' : Writer) → ¬ HoldsUp ([], outcome) w'
silent outcome w' h = let g = h.wrote in absurd (cc g)

selected_arm-HoldsUp :
    (r : Round) (selected : Selected) (w w' : Writer)
    → Queue.is_empty w.scheduled ≡ true
    → ¬ HoldsUp (selected_arm r selected w) w'
unfolding selected_arm
selected_arm-HoldsUp r (from_control (some frame)) w w' e h =
    let k = if-HoldsUp w.control_open _ _ w' h (silent (continues w) w') in
    let c = control_written r frame w w' k.1 in
    let waiting = k.1.waiting in let waiting' = rw (c.1) at waiting in cc (e, waiting')
selected_arm-HoldsUp r (from_control none) w w' e h = silent _ w' h
selected_arm-HoldsUp r (from_data (some frame)) w w' e h =
    let k = if-HoldsUp w.data_open _ _ w' h (silent (continues w) w') in
    scheduled_next (schedule w frame) k.1
  where
    scheduled_next :
        (f : Result AgentTransportError Writer)
        → ¬ HoldsUp (elim f as (λ _. Turn) [ ok w ↦ ([], continues w) | err e ↦ ([], fails e) ]) w'
    scheduled_next (ok w) k = silent (continues w) w' k
    scheduled_next (err e) k = silent (fails e) w' k
selected_arm-HoldsUp r (from_data none) w w' e h = silent _ w' h

data_written :
    (r : Round) (b : Bool) (frame : Frame) (rest : List Effect) (w w' : Writer)
    (u : Result ProtocolError (Unit {0}))
    → ¬ HoldsUp
        (written u (if b then control_burst_yielded ∷ [] else []) (write_data frame ∷ rest) w)
        w'
unfolding written
data_written r true frame rest w w' (ok u) h = let g = h.wrote in absurd (cc g)
data_written r false frame rest w w' (ok u) h = let g = h.wrote in absurd (cc g)
data_written r b frame rest w w' (err e) h = let g = h.wrote in absurd (cc g)

after_pop-HoldsUp :
    (cap : ℕ) (r : Round) (w w' : Writer) (popped : Popped StreamId Frame)
    → IsGood cap w
    → Pops ℕ_discrete w.scheduled popped
    → ¬ HoldsUp (after_pop r w popped) w'
unfolding after_pop yielded
after_pop-HoldsUp cap r w w' _ g (drained e) h =
    let none_left = len_of_drained ℕ_discrete w.scheduled g.valid e in
    let k =
      if-HoldsUp (not w.control_open && not w.data_open) _ _ w' h
        (selected_arm-HoldsUp r r.selected w w' (ground (arith, none_left))) in
    silent ends w' k.1
after_pop-HoldsUp cap r w w' _ g (served {v} e l ran v') h =
    data_written r
      (leb max_control_frame_burst w.control_burst && (w.control_open && r.control_waiting)) v
      (counted v) _ w' (r.encoded v) h

serve_data-HoldsUp :
    (cap : ℕ) (r : Round) (w w' : Writer) → IsGood cap w → ¬ HoldsUp (serve_data r w) w'
unfolding serve_data
serve_data-HoldsUp cap r w w' g h =
    after_pop-HoldsUp cap r w w' (pop ℕ_discrete w.scheduled) g
      (pop-Pops ℕ_discrete w.scheduled g.valid) h

on_control_answer-HoldsUp :
    (cap : ℕ) (r : Round) (answer : TryRecv) (w w' : Writer)
    → IsGood cap w
    → HoldsUp (on_control_answer r answer w) w'
    → (w'.control_burst ≡ next_burst w.control_burst) × (w'.scheduled ≡ w.scheduled)
unfolding on_control_answer
on_control_answer-HoldsUp cap r (received frame) w w' g h = control_written r frame w w' h
on_control_answer-HoldsUp cap r empty w w' g h = absurd (serve_data-HoldsUp cap r w w' g h)
on_control_answer-HoldsUp cap r disconnected w w' g h = absurd (
    serve_data-HoldsUp cap r (record w { control_open = false }) w'
      (record { valid = g.valid; capacity = g.capacity }) h)

after_fill-HoldsUp :
    (cap n : ℕ) (r : Round) (filled : Result AgentTransportError Writer) (w' : Writer)
    → IsFilled cap filled
    → KeepsBurst n filled
    → HoldsUp (after_fill r filled) w'
    → (w'.control_burst ≡ suc n) × (n < max_control_frame_burst)
unfolding after_fill serve
after_fill-HoldsUp cap n r (err e) w' f b h = absurd f
after_fill-HoldsUp cap n r (ok w) w' g b h =
    let k = if-HoldsUp (may_serve_control w) _ _ w' h (serve_data-HoldsUp cap r w w' g) in
    let c = on_control_answer-HoldsUp cap r r.control_answer w w' g k.1 in
    let waiting = k.1.waiting in
    let waiting' = rw (c.1) at waiting in
    let may = k.0 in
    let small : w.control_burst < max_control_frame_burst = ground (arith, waiting', may) in
    (omega (arith, c.0, b, small), omega (arith, b, small))

-- A turn that holds DATA up adds one to the burst, which was below the limit.
pub round-HoldsUp :
    (cap : ℕ) (r : Round) (w w' : Writer)
    → IsGood cap w
    → HoldsUp (round cap r w) w'
    → (w'.control_burst ≡ suc w.control_burst) × (w.control_burst < max_control_frame_burst)
unfolding round
round-HoldsUp cap r w w' g h =
    let k =
      if-HoldsUp (w.control_open || (w.data_open || not (Queue.is_empty w.scheduled))) _ _ w' h
        (silent ends w') in
    after_fill-HoldsUp cap w.control_burst r (fill cap r.data_answers w) w'
      (fill-IsFilled cap r.data_answers w g)
      (fill-KeepsBurst cap w.control_burst r.data_answers w refl) k.1

-- Turns in a row that hold DATA up.
pub data Starves (cap : ℕ) : ℕ → Writer → Type 0 where
  none_yet : (w : Writer) → Starves cap 0 w
  one_more :
      (n : ℕ) (r : Round) (w w' : Writer)
      → HoldsUp (round cap r w) w'
      → Starves cap n w'
      → Starves cap (suc n) w

-- Scheduled DATA is never starved: at most 8 control frames are written one after another while
-- DATA is scheduled, however many are ready, and fewer if some were just written before.
pub Starves-le :
    (data_capacity n : ℕ) (w : Writer)
    → 0 < data_capacity
    → IsGood data_capacity w
    → Starves data_capacity n w
    → n ≤ max_control_frame_burst - w.control_burst
Starves-le cap _ _ pos g (none_yet w) = omega arith
Starves-le cap _ _ pos g (one_more m r w w' h s) =
    let sound = round-IsSound cap r w pos g in
    let wrote = h.wrote in
    let good : IsGood cap w' = rw wrote at sound in
    let step = round-HoldsUp cap r w w' g h in
    omega (arith, Starves-le cap m w' pos good s, step.0, step.1)
