-- ===== src/FairQueue/Fairness.antt =====
-- Round-robin service: no key waits for more than one round over the keys that have items.
use mathlib.Core.List.{lookup}
use tunnel_proxy.Common.{
  ℕ, zero, suc, ◌+◌, ◌<◌, ◌≡◌, refl, sym, ap, ◌∙◌, subst, Option, none, some, List, [], ◌∷◌, ◌++◌,
  arith, length,
}
use tunnel_proxy.Common.Order.{position, position_tail, position_zero, position-append}
use tunnel_proxy.FairQueue.Model.{FairQueue, Popped, item, active_keys, enqueue, push, dequeue, pop}
use tunnel_proxy.FairQueue.Pops.{Pops, drained, served, pop-Pops}
use tunnel_proxy.FairQueue.Fifo.{
  Call, pushes, pops, History, IsFifo, after_push, after_pop, step, run, run-IsFifo,
}

-- How often `pop` is called.
abbrev pub pops_in {ℓ} : {K V : Type ℓ} → List (Call K V) → ℕ
pops_in [] = 0
pops_in (pushes k v ∷ cs) = pops_in cs
pops_in (pops ∷ cs) = suc (pops_in cs)

module _ {ℓ} {K : Type ℓ} (dec : Discrete K) where
  position-lt-length : (j : K) (ks : List K) (i : ℕ) → position dec j ks ≡ some i → i < length ks
  unfolding position
  position-lt-length j [] i h = cc
  position-lt-length j (k ∷ ks) zero h = omega arith
  position-lt-length j (k ∷ ks) (suc i) h = ground (arith, position-lt-length j ks i)

  no_place : (j : K) (i : ℕ) → position dec j [] ≡ some i → ⊥
  unfolding position
  no_place j i e = cc

module _ {ℓ} {K V : Type ℓ} (dec : Discrete K) where
  abbrev place : K → History K V → Option ℕ
  place j h = position dec j h.queue.active

  enqueue-place :
      (q : FairQueue K V) (key : K) (value : V) (o : Option (List V)) (j : K) (i : ℕ)
      → position dec j q.active ≡ some i
      → position dec j (enqueue dec q key value o).active ≡ some i
  unfolding enqueue
  enqueue-place q key value none j i h = position-append dec j key q.active i h
  enqueue-place q key value (some vs) j i h = h

  after_push-place :
      (h : History K V) (key : K) (value : V) (j : K) (i : ℕ)
      → place j h ≡ some i
      → place j (after_push h key value (push dec h.queue key value)) ≡ some i
  unfolding push
  after_push-place h key value j i e =
      ground (arith, enqueue-place h.queue key value (lookup dec key h.queue.queues) j i e)

  dequeue-place :
      (q : FairQueue K V) (key : K) (rest : List K) (v : V) (vs : List V) (q' : FairQueue K V)
      (j : K) (i : ℕ)
      → dequeue dec q key rest (some (v ∷ vs)) ≡ item v q'
      → position dec j (key ∷ rest) ≡ some (suc i)
      → position dec j q'.active ≡ some i
  unfolding dequeue
  dequeue-place q key rest v [] q' j i e p = ground (arith, position_tail dec j key rest i p)
  dequeue-place q key rest v (w ∷ ws) q' j i e p =
      ground (arith, position-append dec j key rest i (position_tail dec j key rest i p))

  after_pop-place :
      (h : History K V) (ks : List K) (p : Popped K V) (j : K) (i : ℕ)
      → h.queue.active ≡ ks
      → Pops dec h.queue p
      → position dec j ks ≡ some (suc i)
      → place j (after_pop h ks p) ≡ some i
  after_pop-place h [] p j i a s e = absurd (no_place dec j (suc i) e)
  after_pop-place h (key ∷ rest) p j i a (drained d) e = absurd (cc (a, d))
  after_pop-place h (key' ∷ rest') p j i a (served {key} {rest} {v} {vs} {q'} d l ran v') e =
      dequeue-place h.queue key rest v vs q' j i ran
        (subst (λ ks. position dec j ks ≡ some (suc i)) (sym a ∙ d) e)

  -- Pushes leave a key's place alone, and every `pop` moves it up by one.
  run-place :
      (h : History K V) (cs : List (Call K V)) (j : K) (i k : ℕ)
      → IsFifo dec h
      → place j h ≡ some i
      → pops_in cs + k ≡ i
      → place j (run dec h cs) ≡ some k
  unfolding run step
  run-place h [] j i k f p e = rw p (ap some (omega arith))
  run-place h (pushes key value ∷ cs) j i k f p e =
      run-place (step dec h (pushes key value)) cs j i k
        (run-IsFifo dec h (pushes key value ∷ []) f) (after_push-place h key value j i p) e
  run-place h (pops ∷ cs) j zero k f p e = absurd (omega arith)
  run-place h (pops ∷ cs) j (suc i) k f p e =
      run-place (step dec h pops) cs j i k (run-IsFifo dec h (pops ∷ []) f)
        (after_pop-place h h.queue.active (pop dec h.queue) j i refl (pop-Pops dec h.queue f.valid)
          p)
        (omega arith)

  after_pop-first :
      (h : History K V) (ks : List K) (p : Popped K V) (j : K)
      → h.queue.active ≡ ks
      → Pops dec h.queue p
      → position dec j ks ≡ some 0
      → (v : V) × (vs : List V) × (lookup dec j h.queue.queues ≡ some (v ∷ vs))
        × ((after_pop h ks p).given ≡ h.given ++ (j, v) ∷ [])
  after_pop-first h [] p j a s e = absurd (no_place dec j 0 e)
  after_pop-first h (key ∷ rest) p j a (drained d) e = absurd (cc (a, d))
  after_pop-first h (key' ∷ rest') p j a (served {key} {rest} {v} {vs} {q'} d l ran v') e =
      let first : j ≡ key' = position_zero dec j key' rest' e in
      let same : key ≡ key' = cc (d, a) in (v, vs, cc (l, first, same), cc first)

  -- A key at place `i` of the order, which is less than the number of keys with items, is served by
  -- the `pop` that follows `i` others, however many pushes come between: that `pop` gives out the
  -- oldest waiting item of this key.
  pub served_in_turn :
      (h : History K V) (cs : List (Call K V)) (j : K) (i : ℕ)
      → IsFifo dec h
      → place j h ≡ some i
      → pops_in cs ≡ i
      → (i < active_keys h.queue)
        × ((v : V) × (vs : List V) × (lookup dec j (run dec h cs).queue.queues ≡ some (v ∷ vs))
            × ((step dec (run dec h cs) pops).given ≡ (run dec h cs).given ++ (j, v) ∷ []))
  unfolding step
  served_in_turn h cs j i f p e =
      let h' = run dec h cs in
      (
        position-lt-length dec j h.queue.active i p,
        after_pop-first h' h'.queue.active (pop dec h'.queue) j refl
            (pop-Pops dec h'.queue (run-IsFifo dec h cs f).valid)
            (run-place h cs j i 0 f p (omega arith)),
      )
