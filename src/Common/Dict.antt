-- ===== src/Common/Dict.antt =====
-- `HashMap` and `BTreeMap` as association lists with distinct keys.
use Prim.Native.Nat.{suc, ◌≤◌}
use mathlib.Core.Path.{◌≡◌, refl, sym, ◌∙◌}
use mathlib.Core.Logic.{◌≢◌, ◌⊎◌, inl, inr, ite}
use mathlib.Core.List.{List, [], ◌∷◌, lookup}
use mathlib.Core.Option.{none, some}
use native.Mathlib.Omega.{arith}
use tunnel_proxy.Common.Lists.{length}

module _ {ℓ} {K V : Type ℓ} (dec : Discrete K) where
  -- `insert`: overwrites the value of a key that is present.
  unfoldable pub insert : K → V → List (K × V) → List (K × V)
  insert k v [] = (k, v) ∷ []
  insert k v ((j, w) ∷ m) = ite (dec k j) ((k, v) ∷ m) ((j, w) ∷ insert k v m)

  unfoldable pub remove : K → List (K × V) → List (K × V)
  remove k [] = []
  remove k ((j, w) ∷ m) = ite (dec k j) (remove k m) ((j, w) ∷ remove k m)

  -- No key stands twice.
  abbrev pub Distinct : List (K × V) → Type ℓ
  Distinct [] = Unit {ℓ}
  Distinct ((j, w) ∷ m) = (lookup dec j m ≡ none) × Distinct m

  pub lookup-insert_self : (k : K) (v : V) (m : List (K × V)) → lookup dec k (insert k v m) ≡ some v
  unfolding lookup insert
  lookup-insert_self k v [] = ground arith
  lookup-insert_self k v ((j, w) ∷ m) = ground (arith, lookup-insert_self k v m)

  pub lookup-insert_ne :
      (k j : K) (v : V) (m : List (K × V)) → j ≢ k → lookup dec j (insert k v m) ≡ lookup dec j m
  unfolding lookup insert
  lookup-insert_ne k j v [] h = ground arith
  lookup-insert_ne k j v ((i, w) ∷ m) h = ground (arith, lookup-insert_ne k j v m)

  pub lookup-remove_self : (k : K) (m : List (K × V)) → lookup dec k (remove k m) ≡ none
  unfolding lookup remove
  lookup-remove_self k [] = refl
  lookup-remove_self k ((j, w) ∷ m) = ground (arith, lookup-remove_self k m)

  pub lookup-remove_ne :
      (k j : K) (m : List (K × V)) → j ≢ k → lookup dec j (remove k m) ≡ lookup dec j m
  unfolding lookup remove
  lookup-remove_ne k j [] h = refl
  lookup-remove_ne k j ((i, w) ∷ m) h = ground (arith, lookup-remove_ne k j m)

  pub insert-Distinct : (k : K) (v : V) (m : List (K × V)) → Distinct m → Distinct (insert k v m)
  unfolding lookup insert
  insert-Distinct k v [] d = ground arith
  insert-Distinct k v ((j, w) ∷ m) d =
      ground (arith, insert-Distinct k v m d.1, lookup-insert_ne k j v m)

  pub remove-Distinct : (k : K) (m : List (K × V)) → Distinct m → Distinct (remove k m)
  unfolding lookup remove
  remove-Distinct k [] d = d
  remove-Distinct k ((j, w) ∷ m) d = ground (arith, remove-Distinct k m d.1, lookup-remove_ne k j m)

  pub length-insert_new :
      (k : K) (v : V) (m : List (K × V))
      → lookup dec k m ≡ none
      → length (insert k v m) ≡ suc (length m)
  unfolding lookup insert
  length-insert_new k v [] h = refl
  length-insert_new k v ((j, w) ∷ m) h = ground (arith, length-insert_new k v m)

  pub length-insert_old :
      (k : K) (v w : V) (m : List (K × V))
      → lookup dec k m ≡ some w
      → length (insert k v m) ≡ length m
  unfolding lookup insert
  length-insert_old k v w [] h = cc
  length-insert_old k v w ((j, u) ∷ m) h = ground (arith, length-insert_old k v w m)

  pub remove_absent : (k : K) (m : List (K × V)) → lookup dec k m ≡ none → remove k m ≡ m
  unfolding lookup remove
  remove_absent k [] h = refl
  remove_absent k ((j, w) ∷ m) h = ground (arith, remove_absent k m)

  pub length-remove :
      (k : K) (v : V) (m : List (K × V))
      → Distinct m
      → lookup dec k m ≡ some v
      → suc (length (remove k m)) ≡ length m
  unfolding lookup remove
  length-remove k v [] d h = cc
  length-remove k v ((j, w) ∷ m) d h = elim (dec k j) [
    | yes p ↦ ground (arith, remove_absent k m)
    | no p ↦ ground (arith, length-remove k v m d.1)
  ]

  pub length-remove-le : (k : K) (m : List (K × V)) → length (remove k m) ≤ length m
  unfolding remove
  length-remove-le k [] = omega arith
  length-remove-le k ((j, v) ∷ m) = ground (arith, length-remove-le k m)

  pub lookup-remove-none :
      (k j : K) (m : List (K × V)) → lookup dec k m ≡ none → lookup dec k (remove j m) ≡ none
  lookup-remove-none k j m h = elim (dec k j) [
    | yes same ↦ rw same (lookup-remove_self j m)
    | no other ↦ rw (lookup-remove_ne j k m other) h
  ]

  -- Where a value of an updated map comes from.
  pub lookup-insert-cases :
      (k j : K) (v w : V) (m : List (K × V))
      → lookup dec j (insert k v m) ≡ some w
      → ((j ≡ k) × (w ≡ v)) ⊎ ((j ≢ k) × (lookup dec j m ≡ some w))
  lookup-insert-cases k j v w m e = elim (dec j k) [
    | yes same ↦
        let here = rw (same, lookup-insert_self k v m) at e in
        let mine : w ≡ v = cc here in inl (same, mine)
    | no other ↦ inr (other, sym (lookup-insert_ne k j v m other) ∙ e)
  ]

  pub lookup-remove-cases :
      (k j : K) (w : V) (m : List (K × V))
      → lookup dec j (remove k m) ≡ some w
      → (j ≢ k) × (lookup dec j m ≡ some w)
  lookup-remove-cases k j w m e = elim (dec j k) [
    | yes same ↦ absurd (let here = rw (same, lookup-remove_self k m) at e in cc here)
    | no other ↦ (other, sym (lookup-remove_ne k j m other) ∙ e)
  ]
