-- ===== src/Multiplex/Writer/Model.antt =====
-- `writer_actor`: one turn of its loop, with what the queues answer in it.
use tunnel_proxy.Common.{
  ℕ, ◌+◌, ◌-◌, ◌^◌, min, Bool, true, false, not, ◌&&◌, ◌||◌, Option, none, some, List, [], ◌∷◌,
  ◌++◌, ltb, leb, if◌then◌else◌, length, ℕ_discrete,
}
use tunnel_proxy.Common.Results.{Result, ok, err}
use tunnel_proxy.FairQueue.Model as Queue
use tunnel_proxy.FairQueue.Model.{FairQueue, Popped, nothing, item, panicked, push, pop}
use tunnel_proxy.Protocol.FrameType.{StreamId}
use tunnel_proxy.Protocol.Errors.{ProtocolError}
use tunnel_proxy.Protocol.Frame.{Frame}
use tunnel_proxy.Multiplex.Errors.{AgentTransportError, protocol_decode, session_io}
use tunnel_proxy.Multiplex.Frames.{is_data}

abbrev pub max_control_frame_burst : ℕ
max_control_frame_burst = 8

abbrev pub fair_queue_invariant : AgentTransportError
fair_queue_invariant = session_io "bounded fair DATA queue exceeded its admission limit"

pub record Writer : Type 0 where
  pub control_open : Bool
  pub data_open : Bool
  pub control_burst : ℕ
  pub scheduled : FairQueue StreamId Frame

unfoldable pub new : ℕ → Writer
unfolding Queue.new
new data_capacity = record {
  control_open = true;
  data_open = true;
  control_burst = 0;
  scheduled = Queue.new data_capacity;
}

-- What `try_recv` answers.
pub data TryRecv : Type 0 where
  received : Frame → TryRecv
  empty disconnected : TryRecv

-- Which arm of `select!` is taken, with what `recv` answers.
pub data Selected : Type 0 where
  from_control from_data : Option Frame → Selected

-- The answers in one turn: of the DATA queue while the schedule is filled (when they are over, it is
-- empty), of the control queue, whether the latter has more, of the encoder, and of `select!`.
pub record Round : Type 0 where
  pub data_answers : List TryRecv
  pub control_answer : TryRecv
  pub control_waiting : Bool
  pub encoded : Frame → Result ProtocolError (Unit {0})
  pub selected : Selected

pub data Effect : Type 0 where
  write_control write_data : Frame → Effect
  control_burst_yielded : Effect
  data_sent : ℕ → Effect

-- How a turn ends: with the next one, with `break` or the end of the loop, with an error, or with
-- the panic of `pop`.
pub data Outcome : Type 0 where
  continues : Writer → Outcome
  ends : Outcome
  fails : AgentTransportError → Outcome
  panics : Outcome

abbrev pub Turn : Type 0
Turn = List Effect × Outcome

-- A frame joins the schedule under the identifier of its stream.
unfoldable pub pushed :
    Writer → Result Frame (FairQueue StreamId Frame) → Result AgentTransportError Writer
pushed w (ok q) = ok (record w { scheduled = q })
pushed w (err frame) = err fair_queue_invariant

unfoldable pub schedule : Writer → Frame → Result AgentTransportError Writer
unfolding pushed
schedule w frame = pushed w (push ℕ_discrete w.scheduled frame.stream_id frame)

unfoldable pub then_fill :
    Result AgentTransportError Writer
    → (Writer → Result AgentTransportError Writer)
    → Result AgentTransportError Writer
then_fill (ok w) k = k w
then_fill (err e) k = err e

unfoldable pub on_data_answer :
    TryRecv
    → Writer
    → (Writer → Result AgentTransportError Writer)
    → Result AgentTransportError Writer
unfolding schedule then_fill
on_data_answer (received frame) w k = then_fill (schedule w frame) k
on_data_answer empty w k = ok w
on_data_answer disconnected w k = k (record w { data_open = false })

-- The inner `while`.
unfoldable pub fill : ℕ → List TryRecv → Writer → Result AgentTransportError Writer
unfolding on_data_answer
fill data_capacity [] w = ok w
fill data_capacity (answer ∷ answers) w = elim (w.data_open && ltb w.scheduled.len data_capacity) [
  | true ↦ on_data_answer answer w (fill data_capacity answers)
  | false ↦ ok w
]

-- `saturating_add(1)` of a `usize`
abbrev pub next_burst : ℕ → ℕ
next_burst n = min (n + 1) (2 ^ 64 - 1)

-- `FrameEncoder::encode(…)?`, with what has happened before it and what happens after it.
unfoldable pub written : Result ProtocolError (Unit {0}) → List Effect → List Effect → Writer → Turn
written (ok u) before after w = (before ++ after, continues w)
written (err e) before after w = (before, fails (protocol_decode e))

unfoldable pub write_control_frame : Round → Frame → Writer → Turn
unfolding written
write_control_frame r frame w =
    written (r.encoded frame) [] (write_control frame ∷ [])
      (record w { control_burst = next_burst w.control_burst })

unfoldable pub selected_arm : Round → Selected → Writer → Turn
unfolding write_control_frame schedule
selected_arm r (from_control (some frame)) w =
    if w.control_open then write_control_frame r frame w else ([], continues w)
selected_arm r (from_control none) w = ([], continues (record w { control_open = false }))
selected_arm r (from_data (some frame)) w =
    if w.data_open
    then elim (schedule w frame) [ ok w' ↦ ([], continues w') | err e ↦ ([], fails e) ]
    else ([], continues w)
selected_arm r (from_data none) w = ([], continues (record w { data_open = false }))

-- The telemetry of a DATA frame that is written while control frames wait.
unfoldable pub yielded : Round → Writer → List Effect
yielded r w =
    if leb max_control_frame_burst w.control_burst && (w.control_open && r.control_waiting)
    then control_burst_yielded ∷ []
    else []

unfoldable pub counted : Frame → List Effect
counted frame = if is_data frame.frame_type then data_sent (length frame.payload) ∷ [] else []

-- `scheduled.pop()` and what follows it.
unfoldable pub after_pop : Round → Writer → Popped StreamId Frame → Turn
unfolding written selected_arm yielded counted
after_pop r w (item frame q) =
    written (r.encoded frame) (yielded r w) (write_data frame ∷ counted frame)
      (record w { scheduled = q; control_burst = 0 })
after_pop r w nothing =
    if not w.control_open && not w.data_open then ([], ends) else selected_arm r r.selected w
after_pop r w panicked = ([], panics)

unfoldable pub serve_data : Round → Writer → Turn
unfolding after_pop
serve_data r w = after_pop r w (pop ℕ_discrete w.scheduled)

unfoldable pub on_control_answer : Round → TryRecv → Writer → Turn
unfolding write_control_frame serve_data
on_control_answer r (received frame) w = write_control_frame r frame w
on_control_answer r empty w = serve_data r w
on_control_answer r disconnected w = serve_data r (record w { control_open = false })

abbrev pub may_serve_control : Writer → Bool
may_serve_control w =
    w.control_open && (ltb w.control_burst max_control_frame_burst || Queue.is_empty w.scheduled)

unfoldable pub serve : Round → Writer → Turn
unfolding on_control_answer serve_data
serve r w = if may_serve_control w then on_control_answer r r.control_answer w else serve_data r w

unfoldable pub after_fill : Round → Result AgentTransportError Writer → Turn
unfolding serve
after_fill r (ok w) = serve r w
after_fill r (err e) = ([], fails e)

-- One turn of the outer `while`, its test first.
unfoldable pub round : ℕ → Round → Writer → Turn
unfolding fill after_fill
round data_capacity r w =
    if w.control_open || (w.data_open || not (Queue.is_empty w.scheduled))
    then after_fill r (fill data_capacity r.data_answers w)
    else ([], ends)
