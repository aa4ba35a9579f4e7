-- ===== src/FairQueue/Invariant.antt =====
-- The invariant of `BoundedFairQueue`, and that `push` keeps it.
use mathlib.Core.List.{lookup}
use mathlib.Core.Option
use tunnel_proxy.Common.{
  ℕ, suc, ◌≤◌, ◌<◌, ◌≡◌, ◌≢◌, refl, ◌⊎◌, ◌↔◌, inl, inr, Option, none, some, List, [], ◌∷◌, ◌++◌,
  arith, length, length-append,
}
use tunnel_proxy.Common.Results.{ok, err}
use tunnel_proxy.Common.Dict.{
  insert, Distinct, lookup-insert_self, lookup-insert_ne, insert-Distinct,
}
use tunnel_proxy.Common.Order.{
  position, Once, position-append, position-append_new, position-append_ne, append-Once,
}
use tunnel_proxy.FairQueue.Totals.{total, total-insert_new, total-insert_old}
use tunnel_proxy.FairQueue.Model.{FairQueue, new, enqueue, push}

module _ {ℓ} {K V : Type ℓ} (dec : Discrete K) where
  -- A key stands in the order exactly if it has a queue, and that queue has an item.
  abbrev pub Serves : Option ℕ → Option (List V) → Type 0
  Serves none none = Unit {0}
  Serves (some i) (some (v ∷ vs)) = Unit {0}
  Serves _ _ = ⊥

  pub record IsValid (q : FairQueue K V) : Type ℓ where
    pub bounded : q.len ≤ q.capacity
    pub counted : q.len ≡ total q.queues
    pub distinct : Distinct dec q.queues
    pub once : Once dec q.active
    pub serves : (k : K) → Serves (position dec k q.active) (lookup dec k q.queues)

  pub new-IsValid : (capacity : ℕ) → IsValid (new capacity)
  unfolding new total position lookup
  new-IsValid capacity = record {
    bounded = omega arith;
    counted = refl;
    distinct = tt;
    once = tt;
    serves = λ k. tt;
  }

  pub Serves-cases :
      (o : Option ℕ) (l : Option (List V))
      → Serves o l
      → ((o ≡ none) × (l ≡ none))
        ⊎ ((i : ℕ) × (v : V) × (vs : List V) × (o ≡ some i) × (l ≡ some (v ∷ vs)))
  Serves-cases none none h = inl (refl, refl)
  Serves-cases (some i) (some (v ∷ vs)) h = inr (i, v, vs, refl, refl)
  Serves-cases none (some vs) h = absurd h
  Serves-cases (some i) none h = absurd h
  Serves-cases (some i) (some []) h = absurd h

  Serves-by :
      (o : Option ℕ) (l : Option (List V)) (i : ℕ) (v : V) (vs : List V)
      → o ≡ some i
      → l ≡ some (v ∷ vs)
      → Serves o l
  Serves-by o l i v vs p q = rw (p, q) tt

  pub Serves-pred : (o : Option ℕ) (l : Option (List V)) → Serves (Option.map suc o) l → Serves o l
  Serves-pred none l h = h
  Serves-pred (some i) (some (v ∷ vs)) h = tt
  Serves-pred (some i) (some []) h = h
  Serves-pred (some i) none h = h

  pub Serves-append :
      (j k : K) (ks : List K) (l : Option (List V))
      → j ≢ k
      → Serves (position dec j ks) l
      → Serves (position dec j (ks ++ k ∷ [])) l
  Serves-append j k ks l ne h = elim (Serves-cases (position dec j ks) l h) [
    | inl (p, q) ↦ rw (position-append_ne dec j k ks ne p, q) tt
    | inr (i, v, vs, p, q) ↦ Serves-by _ l i v vs (position-append dec j k ks i p) q
  ]

  -- A key that has a place in the order gets a queue with an item; the others keep theirs.
  pub Serves-insert :
      (ks : List K) (m : List (K × List V)) (key : K) (i : ℕ) (w : V) (ws : List V)
      → position dec key ks ≡ some i
      → ((j : K) → j ≢ key → Serves (position dec j ks) (lookup dec j m))
      → (j : K) → Serves (position dec j ks) (lookup dec j (insert dec key (w ∷ ws) m))
  Serves-insert ks m key i w ws p others j = elim (dec j key) [
    | yes same ↦ rw same (Serves-by _ _ i w ws p (lookup-insert_self dec key (w ∷ ws) m))
    | no other ↦ rw (lookup-insert_ne dec key j (w ∷ ws) m other) (others j other)
  ]

  enqueue-IsValid :
      (q : FairQueue K V) (key : K) (value : V)
      → IsValid q
      → q.len < q.capacity
      → IsValid (enqueue dec q key value (lookup dec key q.queues))
  unfolding enqueue
  enqueue-IsValid q key value v room = elim (Serves-cases _ _ (v.serves key)) [
    | inl (p, l) ↦
        rw (l, enqueue)
          (record {
            bounded = omega arith;
            counted = omega (arith, total-insert_new dec key (value ∷ []) q.queues l);
            distinct = insert-Distinct dec key (value ∷ []) q.queues v.distinct;
            once = append-Once dec key q.active p v.once;
            serves =
                Serves-insert (q.active ++ key ∷ []) q.queues key (length q.active) value []
                  (position-append_new dec key q.active p)
                  (λ j other. Serves-append j key q.active _ other (v.serves j));
          })
    | inr (i, w, ws, p, l) ↦
        rw (l, enqueue)
          (record {
            bounded = omega arith;
            counted = omega (
              arith,
              total-insert_old dec key (w ∷ (ws ++ value ∷ [])) (w ∷ ws) q.queues l,
              length-append ws (value ∷ []),
            );
            distinct = insert-Distinct dec key (w ∷ (ws ++ value ∷ [])) q.queues v.distinct;
            once = v.once;
            serves =
                Serves-insert q.active q.queues key i w (ws ++ value ∷ []) p (λ j _. v.serves j);
          })
  ]

  -- `push` keeps the invariant.
  pub push-IsValid :
      (q : FairQueue K V) (key : K) (value : V) (q' : FairQueue K V)
      → IsValid q
      → push dec q key value ≡ ok q'
      → IsValid q'
  unfolding push
  push-IsValid q key value q' v e = ground (arith, enqueue-IsValid q key value v)

  -- `push` refuses a value, and hands it back, exactly when as many items wait as the capacity says.
  pub push-eq-err_iff :
      (q : FairQueue K V) (key : K) (value : V)
      → IsValid q
      → (push dec q key value ≡ err value) ↔ (total q.queues ≡ q.capacity)
  unfolding push
  push-eq-err_iff q key value v = ground arith
