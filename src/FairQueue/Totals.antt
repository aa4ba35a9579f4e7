-- ===== src/FairQueue/Totals.antt =====
-- How many items the queues hold.
use mathlib.Core.List.{lookup}
use tunnel_proxy.Common.{ℕ, ◌+◌, ◌≡◌, none, some, List, [], ◌∷◌, arith, length}
use tunnel_proxy.Common.Dict.{insert, remove, Distinct, remove_absent}

unfoldable pub total {ℓ} : {K V : Type ℓ} → List (K × List V) → ℕ
total [] = 0
total ((k, vs) ∷ m) = length vs + total m

module _ {ℓ} {K V : Type ℓ} (dec : Discrete K) where
  pub total-insert_new :
      (k : K) (vs : List V) (m : List (K × List V))
      → lookup dec k m ≡ none
      → total (insert dec k vs m) ≡ total m + length vs
  unfolding lookup insert total
  total-insert_new k vs [] h = omega arith
  total-insert_new k vs ((j, us) ∷ m) h = ground (arith, total-insert_new k vs m)

  pub total-insert_old :
      (k : K) (vs us : List V) (m : List (K × List V))
      → lookup dec k m ≡ some us
      → total (insert dec k vs m) + length us ≡ total m + length vs
  unfolding lookup insert total
  total-insert_old k vs us [] h = cc
  total-insert_old k vs us ((j, ws) ∷ m) h = ground (arith, total-insert_old k vs us m)

  pub total-remove :
      (k : K) (us : List V) (m : List (K × List V))
      → Distinct dec m
      → lookup dec k m ≡ some us
      → total (remove dec k m) + length us ≡ total m
  unfolding lookup remove total
  total-remove k us [] d h = cc
  total-remove k us ((j, ws) ∷ m) d h =
      ground (arith, total-remove k us m d.1, remove_absent dec k m)
