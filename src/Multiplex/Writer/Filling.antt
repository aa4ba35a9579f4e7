-- ===== src/Multiplex/Writer/Filling.antt =====
-- Filling the schedule leaves the count of control frames alone.
use tunnel_proxy.Common.{
  ℕ, ◌≡◌, refl, subst, inl, inr, Bool, true, false, ◌&&◌, List, [], ◌∷◌, ltb, ℕ_discrete,
}
use tunnel_proxy.Common.Results.{Result, ok, err, Result-cases}
use tunnel_proxy.FairQueue.Model.{push}
use tunnel_proxy.Protocol.Frame.{Frame}
use tunnel_proxy.Multiplex.Errors.{AgentTransportError}
use tunnel_proxy.Multiplex.Writer.Model.{
  Writer, TryRecv, received, empty, disconnected, pushed, schedule, then_fill, on_data_answer, fill,
}

abbrev pub KeepsBurst : ℕ → Result AgentTransportError Writer → Type 0
KeepsBurst n (ok w) = w.control_burst ≡ n
KeepsBurst n (err e) = Unit {0}

schedule-KeepsBurst : (w : Writer) (frame : Frame) → KeepsBurst w.control_burst (schedule w frame)
unfolding schedule pushed
schedule-KeepsBurst w frame =
    elim (Result-cases (push ℕ_discrete w.scheduled frame.stream_id frame)) [
      | inl (q, e) ↦ rw e refl
      | inr (f, e) ↦ rw e tt
    ]

then_fill-KeepsBurst :
    (n : ℕ) (r : Result AgentTransportError Writer) (k : Writer → Result AgentTransportError Writer)
    → KeepsBurst n r
    → ((w : Writer) → w.control_burst ≡ n → KeepsBurst n (k w))
    → KeepsBurst n (then_fill r k)
unfolding then_fill
then_fill-KeepsBurst n (ok w) k e h = h w e
then_fill-KeepsBurst n (err f) k e h = tt

on_data_answer-KeepsBurst :
    (n : ℕ) (answer : TryRecv) (w : Writer) (k : Writer → Result AgentTransportError Writer)
    → w.control_burst ≡ n
    → ((w : Writer) → w.control_burst ≡ n → KeepsBurst n (k w))
    → KeepsBurst n (on_data_answer answer w k)
unfolding on_data_answer
on_data_answer-KeepsBurst n (received frame) w k e h =
    then_fill-KeepsBurst n (schedule w frame) k
      (subst (λ m. KeepsBurst m (schedule w frame)) e (schedule-KeepsBurst w frame)) h
on_data_answer-KeepsBurst n empty w k e h = e
on_data_answer-KeepsBurst n disconnected w k e h = h (record w { data_open = false }) e

pub fill-KeepsBurst :
    (cap n : ℕ) (answers : List TryRecv) (w : Writer)
    → w.control_burst ≡ n
    → KeepsBurst n (fill cap answers w)
unfolding fill
fill-KeepsBurst cap n [] w e = e
fill-KeepsBurst cap n (answer ∷ answers) w e =
    go (w.data_open && ltb w.scheduled.len cap) (fill-KeepsBurst cap n answers)
  where
    go :
        (b : Bool)
        → ((w : Writer) → w.control_burst ≡ n → KeepsBurst n (fill cap answers w))
        → KeepsBurst n (elim b [ true ↦ on_data_answer answer w (fill cap answers) | false ↦ ok w ])
    go true h = on_data_answer-KeepsBurst n answer w (fill cap answers) e h
    go false h = e
