-- ===== src/FairQueue/Pops.antt =====
-- `pop` of `BoundedFairQueue` keeps the invariant, and no `expect` in it fails.
use mathlib.Core.List.{lookup}
use tunnel_proxy.Common.{
  ◌≡◌, ◌≢◌, refl, subst, inl, inr, none, some, List, [], ◌∷◌, ◌++◌, arith, length,
}
use tunnel_proxy.Common.Dict.{
  remove, lookup-remove_self, lookup-remove_ne, insert-Distinct, remove-Distinct,
}
use tunnel_proxy.Common.Order.{
  position, Once, position_head, position_skip, position-append_new, append-Once,
}
use tunnel_proxy.FairQueue.Totals.{total-insert_old, total-remove}
use tunnel_proxy.FairQueue.Invariant.{
  IsValid, Serves, Serves-cases, Serves-pred, Serves-append, Serves-insert,
}
use tunnel_proxy.FairQueue.Model.{FairQueue, Popped, nothing, item, dequeue, pop_active, pop}

module _ {ℓ} {K V : Type ℓ} (dec : Discrete K) where
  -- The keys behind the first one keep their queues.
  Serves-rest :
      (q : FairQueue K V) (key : K) (rest : List K)
      → IsValid dec q
      → q.active ≡ key ∷ rest
      → (j : K) → j ≢ key
      → Serves dec (position dec j rest) (lookup dec j q.queues)
  Serves-rest q key rest v e j other =
      Serves-pred dec (position dec j rest) _
        (rw (e, position_skip dec j key rest other) at (v.serves j))

  Serves-remove :
      (ks : List K) (m : List (K × List V)) (key : K)
      → position dec key ks ≡ none
      → ((j : K) → j ≢ key → Serves dec (position dec j ks) (lookup dec j m))
      → (j : K) → Serves dec (position dec j ks) (lookup dec j (remove dec key m))
  Serves-remove ks m key p others j = elim (dec j key) [
    | yes same ↦ rw (same, p, lookup-remove_self dec key m) tt
    | no other ↦ rw (lookup-remove_ne dec key j m other) (others j other)
  ]

  -- What `pop` does with the queue of the first key in the order.
  pub dequeue-IsValid :
      (q : FairQueue K V) (key : K) (rest : List K) (v : V) (vs : List V)
      → IsValid dec q
      → q.active ≡ key ∷ rest
      → lookup dec key q.queues ≡ some (v ∷ vs)
      → (q' : FairQueue K V) × (dequeue dec q key rest (some (v ∷ vs)) ≡ item v q') × IsValid dec q'
  unfolding dequeue
  dequeue-IsValid q key rest w [] v e l =
      let o : Once dec (key ∷ rest) = subst (Once dec) e v.once in
      (
        _,
        refl,
        record {
          bounded = omega arith;
          counted = omega (arith, total-remove dec key (w ∷ []) q.queues v.distinct l);
          distinct = remove-Distinct dec key q.queues v.distinct;
          once = o.1;
          serves = Serves-remove rest q.queues key o.0 (Serves-rest q key rest v e);
        },
      )
  dequeue-IsValid q key rest w (x ∷ xs) v e l =
      let o : Once dec (key ∷ rest) = subst (Once dec) e v.once in
      (
        _,
        refl,
        record {
          bounded = omega arith;
          counted = omega (arith, total-insert_old dec key (x ∷ xs) (w ∷ x ∷ xs) q.queues l);
          distinct = insert-Distinct dec key (x ∷ xs) q.queues v.distinct;
          once = append-Once dec key rest o.0 o.1;
          serves =
              Serves-insert dec (rest ++ key ∷ []) q.queues key (length rest) x xs
                (position-append_new dec key rest o.0)
                (λ j other.
                  Serves-append dec j key rest _ other (Serves-rest q key rest v e j other));
        },
      )

  first_queue :
      (q : FairQueue K V) (key : K) (rest : List K)
      → IsValid dec q
      → q.active ≡ key ∷ rest
      → (v : V) × (vs : List V) × (lookup dec key q.queues ≡ some (v ∷ vs))
  first_queue q key rest v e = elim (Serves-cases dec _ _ (v.serves key)) [
    | inl (p, l) ↦ absurd (ground (arith, e, position_head dec key rest))
    | inr (i, w, ws, p, l) ↦ (w, ws, l)
  ]

  -- How `pop` may end on a valid queue: it is empty, or the first key in the order gives up the
  -- first item of its queue.
  pub data Pops (q : FairQueue K V) : Popped K V → Type ℓ where
    drained : q.active ≡ [] → Pops q nothing
    served :
        {key : K} {rest : List K} {v : V} {vs : List V} {q' : FairQueue K V}
        → q.active ≡ key ∷ rest
        → lookup dec key q.queues ≡ some (v ∷ vs)
        → dequeue dec q key rest (some (v ∷ vs)) ≡ item v q'
        → IsValid dec q'
        → Pops q (item v q')

  pop_active-Pops :
      (q : FairQueue K V) (ks : List K)
      → IsValid dec q
      → q.active ≡ ks
      → Pops q (pop_active dec q ks)
  unfolding pop_active
  pop_active-Pops q [] v e = drained e
  pop_active-Pops q (key ∷ rest) v e =
      let (w, ws, l) = first_queue q key rest v e in
      let (q', ran, v') = dequeue-IsValid q key rest w ws v e l in rw (l, ran) (served e l ran v')

  -- `pop` on a valid queue keeps the invariant, and neither `expect` of its body fails.
  pub pop-Pops : (q : FairQueue K V) → IsValid dec q → Pops q (pop dec q)
  unfolding pop
  pop-Pops q v = pop_active-Pops q q.active v refl
