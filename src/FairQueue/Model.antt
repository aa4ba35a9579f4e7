-- ===== src/FairQueue/Model.antt =====
-- `BoundedFairQueue` and its methods. A `VecDeque` is a list with its front first, the `HashMap`
-- of queues a dictionary. `panicked` stands for the two calls of `expect` in `pop`.
use mathlib.Core.List.{lookup}
use tunnel_proxy.Common.{
  ℕ, ◌+◌, ◌-◌, Bool, Option, none, some, List, [], ◌∷◌, ◌++◌, ◌==◌, if◌then◌else◌, length,
}
use tunnel_proxy.Common.Results.{Result, ok, err}
use tunnel_proxy.Common.Dict.{insert, remove}

pub record FairQueue {ℓ} (K V : Type ℓ) : Type ℓ where
  pub capacity : ℕ
  pub len : ℕ
  pub active : List K
  pub queues : List (K × List V)

pub data Popped {ℓ} (K V : Type ℓ) : Type ℓ where
  nothing : Popped K V
  item : V → FairQueue K V → Popped K V
  panicked : Popped K V

unfoldable pub new {ℓ} : {K V : Type ℓ} → ℕ → FairQueue K V
new capacity = record { capacity = capacity; len = 0; active = []; queues = [] }

abbrev pub is_empty {ℓ} : {K V : Type ℓ} → FairQueue K V → Bool
is_empty q = q.len == 0

abbrev pub active_keys {ℓ} : {K V : Type ℓ} → FairQueue K V → ℕ
active_keys q = length q.active

module _ {ℓ} {K V : Type ℓ} (dec : Discrete K) where
  -- The `match` of `push` on the queue of the key.
  unfoldable pub enqueue : FairQueue K V → K → V → Option (List V) → FairQueue K V
  enqueue q key value (some queue) = record q {
    queues = insert dec key (queue ++ value ∷ []) q.queues;
    len = q.len + 1;
  }
  enqueue q key value none = record q {
    active = q.active ++ key ∷ [];
    queues = insert dec key (value ∷ []) q.queues;
    len = q.len + 1;
  }

  -- The error is the rejected value; the queue is then as it was.
  unfoldable pub push : FairQueue K V → K → V → Result V (FairQueue K V)
  push q key value =
      if q.len == q.capacity then err value else ok (enqueue q key value (lookup dec key q.queues))

  unfoldable pub dequeue : FairQueue K V → K → List K → Option (List V) → Popped K V
  dequeue q key rest none = panicked
  dequeue q key rest (some []) = panicked
  dequeue q key rest (some (value ∷ [])) =
      item value (record q { len = q.len - 1; active = rest; queues = remove dec key q.queues })
  dequeue q key rest (some (value ∷ next ∷ more)) = item value (record q {
    len = q.len - 1;
    active = rest ++ key ∷ [];
    queues = insert dec key (next ∷ more) q.queues;
  })

  unfoldable pub pop_active : FairQueue K V → List K → Popped K V
  pop_active q [] = nothing
  pop_active q (key ∷ rest) = dequeue q key rest (lookup dec key q.queues)

  unfoldable pub pop : FairQueue K V → Popped K V
  pop q = pop_active q q.active
