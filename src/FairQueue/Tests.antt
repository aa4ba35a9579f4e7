-- ===== src/FairQueue/Tests.antt =====
-- A run of the fair queue, and its theorems at concrete queues.
use mathlib.Core.List.{lookup}
use tunnel_proxy.Common.{ℕ, ◌<◌, ◌≡◌, refl, ◌↔◌, some, List, [], ◌∷◌, ◌++◌, ℕ_discrete}
use tunnel_proxy.Common.Results.{err}
use tunnel_proxy.Common.Dict.{insert, remove}
use tunnel_proxy.Common.Order.{position}
use tunnel_proxy.FairQueue.Totals.{total}
use tunnel_proxy.FairQueue.Model.{new, enqueue, push, dequeue, pop_active, pop, active_keys}
use tunnel_proxy.FairQueue.Invariant.{new-IsValid, push-eq-err_iff}
use tunnel_proxy.FairQueue.Pops.{Pops, pop-Pops}
use tunnel_proxy.FairQueue.Fifo.{
  Call, pushes, pops, History, IsFifo, new-IsFifo, step, run, run-IsFifo,
}
use tunnel_proxy.FairQueue.Fairness.{served_in_turn}

program : Unit {0}
unfolding ℕ_discrete lookup insert remove position total new enqueue push dequeue pop_active pop
    step run
program = tt

abbrev fresh : ℕ → History ℕ ℕ
fresh n = record { queue = new n; taken = []; given = []; faults = 0 }

-- Two keys: `a1 a2 a3` for key 1, `b1 b2` for key 2.
abbrev arrivals : List (Call ℕ ℕ)
arrivals = pushes 1 11 ∷ pushes 1 12 ∷ pushes 1 13 ∷ pushes 2 21 ∷ pushes 2 22 ∷ []

abbrev served_all : List (Call ℕ ℕ)
served_all = arrivals ++ (pops ∷ pops ∷ pops ∷ pops ∷ pops ∷ [])

round_robin :
    (run ℕ_discrete (fresh 8) served_all).given
    ≡ (1, 11) ∷ (2, 21) ∷ (1, 12) ∷ (2, 22) ∷ (1, 13) ∷ []
unfolding program
round_robin = refl

strict_capacity :
    push ℕ_discrete (run ℕ_discrete (fresh 2) (pushes 1 1 ∷ pushes 2 2 ∷ [])).queue 3 7 ≡ err 7
unfolding program
strict_capacity = refl

pop-Pops_example : Pops ℕ_discrete (new 2) (pop ℕ_discrete (new {K = ℕ} {V = ℕ} 2))
pop-Pops_example = pop-Pops ℕ_discrete (new 2) (new-IsValid ℕ_discrete 2)

push-eq-err_iff_example : (push ℕ_discrete (new {K = ℕ} {V = ℕ} 2) 1 9 ≡ err 9) ↔ (◌≡◌ {A = ℕ} 0 2)
unfolding new total
push-eq-err_iff_example = push-eq-err_iff ℕ_discrete (new 2) 1 9 (new-IsValid ℕ_discrete 2)

run-IsFifo_example : IsFifo ℕ_discrete (run ℕ_discrete (fresh 8) served_all)
run-IsFifo_example = run-IsFifo ℕ_discrete (fresh 8) served_all (new-IsFifo ℕ_discrete 8)

loaded-IsFifo : IsFifo ℕ_discrete (run ℕ_discrete (fresh 8) arrivals)
loaded-IsFifo = run-IsFifo ℕ_discrete (fresh 8) arrivals (new-IsFifo ℕ_discrete 8)

-- Key 2 stands behind key 1, and is served by the second `pop`.
served_in_turn_example :
    let h = run ℕ_discrete (fresh 8) arrivals in
    let h' = run ℕ_discrete h (pops ∷ pushes 1 14 ∷ []) in
    (1 < active_keys h.queue)
    × ((v : ℕ) × (vs : List ℕ) × (lookup ℕ_discrete 2 h'.queue.queues ≡ some (v ∷ vs))
        × ((step ℕ_discrete h' pops).given ≡ h'.given ++ (2, v) ∷ []))
unfolding program
served_in_turn_example =
    served_in_turn ℕ_discrete (run ℕ_discrete (fresh 8) arrivals) (pops ∷ pushes 1 14 ∷ []) 2 1
      loaded-IsFifo refl refl
