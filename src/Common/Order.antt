-- ===== src/Common/Order.antt =====
-- The place of a key in a list of keys, and keys listed once beside a dictionary.
use mathlib.Core.List.{lookup}
use mathlib.Core.Option
use tunnel_proxy.Common.{
  ℕ, zero, suc, ◌≡◌, ◌≢◌, refl, ◌⊎◌, inl, inr, ite, Option, none, some, List, [], ◌∷◌, ◌++◌, arith,
  length,
}
use tunnel_proxy.Common.Dict.{
  insert, remove, lookup-insert_self, lookup-insert_ne, lookup-remove_self, lookup-remove_ne,
}

module _ {ℓ} {K : Type ℓ} (dec : Discrete K) where
  unfoldable pub position : K → List K → Option ℕ
  position k [] = none
  position k (j ∷ ks) = ite (dec k j) (some 0) (Option.map suc (position k ks))

  -- No key stands twice in the order.
  abbrev pub Once : List K → Type 0
  Once [] = Unit {0}
  Once (k ∷ ks) = (position k ks ≡ none) × Once ks

  pub position_head : (k : K) (ks : List K) → position k (k ∷ ks) ≡ some 0
  unfolding position
  position_head k ks = ground arith

  pub position_tail :
      (k j : K) (ks : List K) (i : ℕ) → position k (j ∷ ks) ≡ some (suc i) → position k ks ≡ some i
  unfolding position
  position_tail k j ks i h = ground arith

  pub position_skip :
      (k j : K) (ks : List K) → k ≢ j → position k (j ∷ ks) ≡ Option.map suc (position k ks)
  unfolding position
  position_skip k j ks h = ground arith

  pub position_zero : (k j : K) (ks : List K) → position k (j ∷ ks) ≡ some 0 → k ≡ j
  unfolding position
  position_zero k j ks h = ground arith

  pub position-append :
      (k j : K) (ks : List K) (i : ℕ) → position k ks ≡ some i → position k (ks ++ j ∷ []) ≡ some i
  unfolding position
  position-append k j [] i h = cc
  position-append k j (l ∷ ks) zero h = ground arith
  position-append k j (l ∷ ks) (suc i) h = ground (arith, position-append k j ks i)

  pub position-append_new :
      (k : K) (ks : List K) → position k ks ≡ none → position k (ks ++ k ∷ []) ≡ some (length ks)
  unfolding position
  position-append_new k [] h = ground arith
  position-append_new k (l ∷ ks) h = ground (arith, position-append_new k ks)

  pub position-append_ne :
      (k j : K) (ks : List K) → k ≢ j → position k ks ≡ none → position k (ks ++ j ∷ []) ≡ none
  unfolding position
  position-append_ne k j [] n h = ground arith
  position-append_ne k j (l ∷ ks) n h = ground (arith, position-append_ne k j ks n)

  pub append-Once : (k : K) (ks : List K) → position k ks ≡ none → Once ks → Once (ks ++ k ∷ [])
  unfolding position
  append-Once k [] h o = ground arith
  append-Once k (l ∷ ks) h o = ground (arith, append-Once k ks, position-append_ne l k ks)

-- A key is listed exactly if it is in the dictionary.
abbrev pub Agree {ℓ} : {A : Type ℓ} → Option ℕ → Option A → Type 0
Agree none none = Unit {0}
Agree (some i) (some a) = Unit {0}
Agree _ _ = ⊥

module _ {ℓ} {A : Type ℓ} where
  pub Agree-cases :
      (o : Option ℕ) (l : Option A)
      → Agree o l
      → ((o ≡ none) × (l ≡ none)) ⊎ ((i : ℕ) × (a : A) × (o ≡ some i) × (l ≡ some a))
  Agree-cases none none h = inl (refl, refl)
  Agree-cases (some i) (some a) h = inr (i, a, refl, refl)
  Agree-cases none (some a) h = absurd h
  Agree-cases (some i) none h = absurd h

  Agree-by : (o : Option ℕ) (l : Option A) (i : ℕ) (a : A) → o ≡ some i → l ≡ some a → Agree o l
  Agree-by o l i a p q = rw (p, q) tt

  Agree-pred : (o : Option ℕ) (l : Option A) → Agree (Option.map suc o) l → Agree o l
  Agree-pred none none h = tt
  Agree-pred (some i) (some a) h = tt
  Agree-pred (some i) none h = h
  Agree-pred none (some a) h = h

module _ {ℓ} {K V : Type ℓ} (dec : Discrete K) where
  abbrev pub AllAgree : List K → List (K × V) → Type ℓ
  AllAgree ks m = (k : K) → Agree (position dec k ks) (lookup dec k m)

  Agree-append :
      (j k : K) (ks : List K) (l : Option V)
      → j ≢ k
      → Agree (position dec j ks) l
      → Agree (position dec j (ks ++ k ∷ [])) l
  Agree-append j k ks l ne h = elim (Agree-cases (position dec j ks) l h) [
    | inl (p, q) ↦ rw (position-append_ne dec j k ks ne p, q) tt
    | inr (i, a, p, q) ↦ Agree-by _ l i a (position-append dec j k ks i p) q
  ]

  Agree-tail :
      (j k : K) (ks : List K) (l : Option V)
      → j ≢ k
      → Agree (position dec j (k ∷ ks)) l
      → Agree (position dec j ks) l
  Agree-tail j k ks l ne h = Agree-pred _ l (rw (position_skip dec j k ks ne) at h)

  -- A new key goes to the end, and into the dictionary.
  pub append-AllAgree :
      (ks : List K) (m : List (K × V)) (k : K) (v : V)
      → AllAgree ks m
      → position dec k ks ≡ none
      → AllAgree (ks ++ k ∷ []) (insert dec k v m)
  append-AllAgree ks m k v h new j = elim (dec j k) [
    | yes same ↦ rw same (
        Agree-by _ _ (length ks) v (position-append_new dec k ks new)
          (lookup-insert_self dec k v m))
    | no other ↦ rw (lookup-insert_ne dec k j v m other) (Agree-append j k ks _ other (h j))
  ]

  -- The first key goes to the end.
  pub rotate-AllAgree :
      (ks : List K) (m : List (K × V)) (k : K)
      → AllAgree (k ∷ ks) m
      → Once dec (k ∷ ks)
      → AllAgree (ks ++ k ∷ []) m
  rotate-AllAgree ks m k h o j = elim (dec j k) [
    | yes same ↦ elim (Agree-cases _ _ (h k)) [
      | inl (p, q) ↦ absurd (cc (p, position_head dec k ks))
      | inr (i, a, p, q) ↦ rw same (Agree-by _ _ (length ks) a (position-append_new dec k ks o.0) q)
    ]
    | no other ↦ Agree-append j k ks _ other (Agree-tail j k ks _ other (h j))
  ]

  -- The first key goes, and its entry.
  pub tail-AllAgree :
      (ks : List K) (m : List (K × V)) (k : K)
      → AllAgree (k ∷ ks) m
      → Once dec (k ∷ ks)
      → AllAgree ks (remove dec k m)
  tail-AllAgree ks m k h o j = elim (dec j k) [
    | yes same ↦ rw (same, o.0, lookup-remove_self dec k m) tt
    | no other ↦ rw (lookup-remove_ne dec k j m other) (Agree-tail j k ks _ other (h j))
  ]

  -- A key that is there gets another value.
  pub update-AllAgree :
      (ks : List K) (m : List (K × V)) (k : K) (v w : V)
      → AllAgree ks m
      → lookup dec k m ≡ some w
      → AllAgree ks (insert dec k v m)
  update-AllAgree ks m k v w h old j = elim (dec j k) [
    | yes same ↦ elim (Agree-cases _ _ (h k)) [
      | inl (p, q) ↦ absurd (cc (q, old))
      | inr (i, a, p, q) ↦ rw same (Agree-by _ _ i v p (lookup-insert_self dec k v m))
    ]
    | no other ↦ rw (lookup-insert_ne dec k j v m other) (h j)
  ]
