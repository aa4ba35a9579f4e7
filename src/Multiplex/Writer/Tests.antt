-- ===== src/Multiplex/Writer/Tests.antt =====
-- A writer with one control frame and one DATA frame, and the theorems at it.
use mathlib.Core.List.{lookup}
use tunnel_proxy.Common.{◌-◌, ◌≤◌, ◌≡◌, refl, false, true, none, [], ◌∷◌, arith, ℕ_discrete}
use tunnel_proxy.Common.Results.{ok}
use tunnel_proxy.Common.Dict.{insert, remove}
use tunnel_proxy.FairQueue.Model as Queue
use tunnel_proxy.FairQueue.Model.{enqueue, push, dequeue, pop_active, pop}
use tunnel_proxy.FairQueue.Invariant as Invariant
use tunnel_proxy.Protocol.FrameType.{data_frame, ping}
use tunnel_proxy.Protocol.Frame.{Frame}
use tunnel_proxy.Multiplex.Writer.Model.{
  max_control_frame_burst, Writer, new, received, from_control, Round, write_control, write_data,
  data_sent, continues, pushed, schedule, then_fill, on_data_answer, fill, written,
  write_control_frame, yielded, counted, after_pop, serve_data, on_control_answer, serve,
  after_fill, round, empty,
}
use tunnel_proxy.Multiplex.Writer.Safety.{IsGood, IsSound, round-IsSound}
use tunnel_proxy.Multiplex.Writer.Burst.{Starves, none_yet, one_more, Starves-le}

program : Unit {0}
unfolding ℕ_discrete lookup insert remove Queue.new enqueue push dequeue pop_active pop new pushed
    schedule then_fill on_data_answer fill written write_control_frame yielded counted after_pop
    serve_data on_control_answer serve after_fill round
program = tt

abbrev data_3 : Frame
data_3 = record { frame_type = data_frame; flags = 0; stream_id = 3; payload = 7 ∷ [] }

abbrev ping_0 : Frame
ping_0 = record { frame_type = ping; flags = 0; stream_id = 0; payload = [] }

abbrev both : Round
both = record {
  data_answers = received data_3 ∷ [];
  control_answer = received ping_0;
  control_waiting = false;
  encoded = λ frame. ok tt;
  selected = from_control none;
}

abbrev calm : Round
calm = record both { data_answers = []; control_answer = empty }

abbrev held_up : Writer
held_up = record {
  control_open = true;
  data_open = true;
  control_burst = 1;
  scheduled = record { capacity = 2; len = 1; active = 3 ∷ []; queues = (3, data_3 ∷ []) ∷ [] };
}

control_first : round 2 both (new 2) ≡ (write_control ping_0 ∷ [], continues held_up)
unfolding program
control_first = refl

data_next : round 2 calm held_up ≡ (write_data data_3 ∷ data_sent 1 ∷ [], continues (new 2))
unfolding program
data_next = refl

new-IsGood_at_2 : IsGood 2 (new 2)
unfolding new
new-IsGood_at_2 = record { valid = Invariant.new-IsValid ℕ_discrete 2; capacity = capacity_at_2 }
  where
    capacity_at_2 : (new 2).scheduled.capacity ≡ 2
    capacity_at_2 = unfold Queue.new in refl

round-IsSound_example : IsSound 2 (round 2 both (new 2)).1
round-IsSound_example = round-IsSound 2 both (new 2) (omega arith) new-IsGood_at_2

starved_once : Starves 2 1 (new 2)
starved_once =
    one_more 0 both (new 2) held_up
      (record { frame = ping_0; wrote = control_first; waiting = refl }) (none_yet held_up)

Starves-le_example : 1 ≤ max_control_frame_burst - (new 2).control_burst
Starves-le_example = Starves-le 2 1 (new 2) (omega arith) new-IsGood_at_2 starved_once
