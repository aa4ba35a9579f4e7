-- ===== src/FairQueue/Fifo.antt =====
-- What the queue promises for each key: items leave in the order in which they were accepted, none
-- is lost and none is made up.
use mathlib.Core.List.{lookup, append-nil, append_assoc}
use tunnel_proxy.Common.{
  ℕ, ◌+◌, ◌≡◌, refl, sym, subst, ◌∙◌, ite, if_pos, if_neg, Option, none, some, List, [], ◌∷◌, ◌++◌,
  arith,
}
use tunnel_proxy.Common.Results.{Result, ok, err}
use tunnel_proxy.Common.Dict.{
  insert, remove, lookup-insert_self, lookup-insert_ne, lookup-remove_self, lookup-remove_ne,
}
use tunnel_proxy.FairQueue.Model.{
  FairQueue, Popped, item, nothing, panicked, new, enqueue, push, dequeue, pop,
}
use tunnel_proxy.FairQueue.Invariant.{IsValid, new-IsValid, push-IsValid}
use tunnel_proxy.FairQueue.Pops.{Pops, drained, served, pop-Pops}

abbrev pub items_of {ℓ} : {V : Type ℓ} → Option (List V) → List V
items_of none = []
items_of (some vs) = vs

pub data Call {ℓ} (K V : Type ℓ) : Type ℓ where
  pushes : K → V → Call K V
  pops : Call K V

-- A queue with what it took in and gave out so far, each item beside its key, and how often `pop`
-- panicked or returned an item while no key was in the order.
pub record History {ℓ} (K V : Type ℓ) : Type ℓ where
  pub queue : FairQueue K V
  pub taken : List (K × V)
  pub given : List (K × V)
  pub faults : ℕ

module _ {ℓ} {K V : Type ℓ} where
  abbrev pub after_push : History K V → K → V → Result V (FairQueue K V) → History K V
  after_push h key value (ok q) = record h { queue = q; taken = h.taken ++ (key, value) ∷ [] }
  after_push h key value (err v) = h

  -- The key whose item `pop` returns is the first one in the order.
  abbrev pub after_pop : History K V → List K → Popped K V → History K V
  after_pop h (key ∷ rest) (item v q) = record h { queue = q; given = h.given ++ (key, v) ∷ [] }
  after_pop h [] (item v q) = record h { queue = q; faults = h.faults + 1 }
  after_pop h _ nothing = h
  after_pop h _ panicked = record h { faults = h.faults + 1 }

module _ {ℓ} {K V : Type ℓ} (dec : Discrete K) where
  -- The waiting items of a key.
  abbrev pub backlog : FairQueue K V → K → List V
  backlog q k = items_of (lookup dec k q.queues)

  -- The items of a key.
  abbrev pub of_key : K → List (K × V) → List V
  of_key k [] = []
  of_key k ((j, v) ∷ l) = ite (dec k j) (v ∷ of_key k l) (of_key k l)

  of_key-append :
      (k j : K) (v : V) (l : List (K × V))
      → of_key k (l ++ (j, v) ∷ []) ≡ of_key k l ++ ite (dec k j) (v ∷ []) []
  of_key-append k j v [] = ground arith
  of_key-append k j v ((i, w) ∷ l) = ground (arith, of_key-append k j v l)

  items-insert :
      (k j : K) (vs : List V) (m : List (K × List V))
      → items_of (lookup dec j (insert dec k vs m)) ≡ ite (dec j k) vs (items_of (lookup dec j m))
  items-insert k j vs m = elim (dec j k) [
    | yes same ↦ rw (if_pos _ same, same, lookup-insert_self) refl
    | no other ↦ rw (if_neg _ other, lookup-insert_ne dec k j vs m other) refl
  ]

  items-remove :
      (k j : K) (m : List (K × List V))
      → items_of (lookup dec j (remove dec k m)) ≡ ite (dec j k) [] (items_of (lookup dec j m))
  items-remove k j m = elim (dec j k) [
    | yes same ↦ rw (if_pos _ same, same, lookup-remove_self) refl
    | no other ↦ rw (if_neg _ other, lookup-remove_ne dec k j m other) refl
  ]

  enqueue-backlog :
      (q : FairQueue K V) (key : K) (value : V) (o : Option (List V)) (j : K)
      → lookup dec key q.queues ≡ o
      → backlog (enqueue dec q key value o) j ≡ backlog q j ++ ite (dec j key) (value ∷ []) []
  unfolding enqueue
  enqueue-backlog q key value none j e =
      ground (arith, items-insert key j (value ∷ []) q.queues, append-nil (backlog q j))
  enqueue-backlog q key value (some vs) j e =
      ground (arith, items-insert key j (vs ++ value ∷ []) q.queues, append-nil (backlog q j))

  dequeue-backlog :
      (q : FairQueue K V) (key : K) (rest : List K) (v : V) (vs : List V) (q' : FairQueue K V)
      (j : K)
      → lookup dec key q.queues ≡ some (v ∷ vs)
      → dequeue dec q key rest (some (v ∷ vs)) ≡ item v q'
      → backlog q j ≡ ite (dec j key) (v ∷ []) [] ++ backlog q' j
  unfolding dequeue
  dequeue-backlog q key rest v [] q' j l e = ground (arith, items-remove key j q.queues)
  dequeue-backlog q key rest v (w ∷ ws) q' j l e =
      ground (arith, items-insert key j (w ∷ ws) q.queues)

  unfoldable pub step : History K V → Call K V → History K V
  step h (pushes key value) = after_push h key value (push dec h.queue key value)
  step h pops = after_pop h h.queue.active (pop dec h.queue)

  unfoldable pub run : History K V → List (Call K V) → History K V
  run h [] = h
  run h (c ∷ cs) = run (step h c) cs

  pub record IsFifo (h : History K V) : Type ℓ where
    pub valid : IsValid dec h.queue
    pub in_order : (k : K) → of_key k h.taken ≡ of_key k h.given ++ backlog h.queue k
    pub no_fault : h.faults ≡ 0

  pub new-IsFifo :
      (capacity : ℕ) → IsFifo (record { queue = new capacity; taken = []; given = []; faults = 0 })
  unfolding new lookup
  new-IsFifo capacity = record {
    valid = new-IsValid dec capacity;
    in_order = λ k. refl;
    no_fault = refl;
  }

  push-backlog :
      (q : FairQueue K V) (key : K) (value : V) (q' : FairQueue K V) (j : K)
      → push dec q key value ≡ ok q'
      → backlog q' j ≡ backlog q j ++ ite (dec j key) (value ∷ []) []
  unfolding push
  push-backlog q key value q' j e =
      ground (arith, enqueue-backlog q key value (lookup dec key q.queues) j refl)

  after_push-IsFifo :
      (h : History K V) (key : K) (value : V) (r : Result V (FairQueue K V))
      → IsFifo h
      → push dec h.queue key value ≡ r
      → IsFifo (after_push h key value r)
  after_push-IsFifo h key value (err v) f e = f
  after_push-IsFifo h key value (ok q) f e = record {
    valid = push-IsValid dec h.queue key value q f.valid e;
    in_order = λ k.
        of_key-append k key value h.taken
        ∙ rw (f.in_order k, push-backlog h.queue key value q k e)
            (append_assoc (of_key k h.given) (backlog h.queue k) (ite (dec k key) (value ∷ []) []));
    no_fault = f.no_fault;
  }

  pop-backlog :
      (h : History K V) (key : K) (v : V) (q' : FairQueue K V) (k : K)
      → backlog h.queue k ≡ ite (dec k key) (v ∷ []) [] ++ backlog q' k
      → of_key k h.taken ≡ of_key k h.given ++ backlog h.queue k
      → of_key k h.taken ≡ of_key k (h.given ++ (key, v) ∷ []) ++ backlog q' k
  pop-backlog h key v q' k e f =
      f
      ∙ rw (of_key-append k key v h.given, e)
          (sym (append_assoc (of_key k h.given) (ite (dec k key) (v ∷ []) []) (backlog q' k)))

  after_pop-IsFifo :
      (h : History K V) (ks : List K) (p : Popped K V)
      → IsFifo h
      → h.queue.active ≡ ks
      → Pops dec h.queue p
      → IsFifo (after_pop h ks p)
  after_pop-IsFifo h [] p f a (drained e) = f
  after_pop-IsFifo h (key ∷ rest) p f a (drained e) = f
  after_pop-IsFifo h [] p f a (served e l ran v') = absurd (cc (e, a))
  after_pop-IsFifo h (key' ∷ rest') p f a (served {key} {rest} {v} {vs} {q'} e l ran v') =
      let same : key ≡ key' = cc (e, a) in
      record {
        valid = v';
        in_order = λ k.
            pop-backlog h key' v q' k
              (subst (λ j. backlog h.queue k ≡ ite (dec k j) (v ∷ []) [] ++ backlog q' k) same
                (dequeue-backlog h.queue key rest v vs q' k l ran))
              (f.in_order k);
        no_fault = f.no_fault;
      }

  -- Any calls of `push` and `pop` keep a queue, a new one for instance, in a state in which the items
  -- of each key that `push` accepted are, in this order, those that `pop` returned and then those
  -- that still wait; and no `pop` among them panics.
  pub run-IsFifo : (h : History K V) (cs : List (Call K V)) → IsFifo h → IsFifo (run h cs)
  unfolding run step
  run-IsFifo h [] f = f
  run-IsFifo h (pushes key value ∷ cs) f =
      run-IsFifo (step h (pushes key value)) cs
        (after_push-IsFifo h key value (push dec h.queue key value) f refl)
  run-IsFifo h (pops ∷ cs) f =
      run-IsFifo (step h pops) cs
        (after_pop-IsFifo h h.queue.active (pop dec h.queue) f refl (pop-Pops dec h.queue f.valid))
