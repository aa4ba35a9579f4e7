-- ===== src/FairQueue/Room.antt =====
-- What a user of the queue relies on: a push with room succeeds, the capacity never changes, and a
-- queue without active keys is empty.
use mathlib.Core.List.{lookup}
use tunnel_proxy.Common.{
  ◌<◌, ◌≡◌, refl, inl, inr, Option, none, some, List, [], ◌∷◌, ◌==◌, arith, false,
}
use tunnel_proxy.Common.Results.{Result, ok}
use tunnel_proxy.Common.Order.{position}
use tunnel_proxy.FairQueue.Totals.{total}
use tunnel_proxy.FairQueue.Model.{FairQueue, item, enqueue, push, dequeue}
use tunnel_proxy.FairQueue.Invariant.{IsValid, Serves-cases, push-IsValid}

module _ {ℓ} {K V : Type ℓ} (dec : Discrete K) where
  enqueue-capacity :
      (q : FairQueue K V) (key : K) (value : V) (o : Option (List V))
      → (enqueue dec q key value o).capacity ≡ q.capacity
  unfolding enqueue
  enqueue-capacity q key value none = refl
  enqueue-capacity q key value (some vs) = refl

  pub record Accepts (q : FairQueue K V) (r : Result V (FairQueue K V)) : Type ℓ where
    pub next : FairQueue K V
    pub accepted : r ≡ ok next
    pub valid : IsValid dec next
    pub same_capacity : next.capacity ≡ q.capacity

  pub push-Accepts :
      (q : FairQueue K V) (key : K) (value : V)
      → IsValid dec q
      → q.len < q.capacity
      → Accepts q (push dec q key value)
  unfolding push
  push-Accepts q key value v room =
      let more : (q.len == q.capacity) ≡ false = ground arith in
      let q' = enqueue dec q key value (lookup dec key q.queues) in
      let done : push dec q key value ≡ ok q' = rw more refl in
      record {
        next = q';
        accepted = done;
        valid = push-IsValid dec q key value q' v done;
        same_capacity = enqueue-capacity q key value (lookup dec key q.queues);
      }

  no_queue : (m : List (K × List V)) → ((k : K) → lookup dec k m ≡ none) → m ≡ []
  unfolding lookup
  no_queue [] h = refl
  no_queue ((k, vs) ∷ m) h = absurd (let e = h k in ground arith)

  pub len_of_drained : (q : FairQueue K V) → IsValid dec q → q.active ≡ [] → q.len ≡ 0
  unfolding total position
  len_of_drained q v e =
      let gone = no_queue q.queues (λ k.
        elim (Serves-cases dec (position dec k q.active) (lookup dec k q.queues) (v.serves k)) [
          | inl (_, l) ↦ l
          | inr (i, w, ws, p, l) ↦ absurd (let p' = rw e at p in cc p')
        ]) in
      let counted : q.len ≡ total q.queues = v.counted in rw gone at counted

  pub dequeue-capacity :
      (q q' : FairQueue K V) (key : K) (rest : List K) (v w : V) (vs : List V)
      → dequeue dec q key rest (some (v ∷ vs)) ≡ item w q'
      → q'.capacity ≡ q.capacity
  unfolding dequeue
  dequeue-capacity q q' key rest v w [] e = cc e
  dequeue-capacity q q' key rest v w (x ∷ xs) e = cc e
