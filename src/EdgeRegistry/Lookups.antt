-- ===== src/EdgeRegistry/Lookups.antt =====
-- What the loops of the registry do to its maps.
use mathlib.Core.List.{lookup}
use tunnel_proxy.Common.{
  ℕ, ◌≡◌, ◌≢◌, refl, ap, sym, ◌∙◌, if_pos, if_neg, Bool, true, false, not, Option, none, some, List,
  [], ◌∷◌, if◌then◌else◌, arith, ℕ_discrete, Bool-cases, inl, inr,
}
use tunnel_proxy.Common.Dict.{
  Distinct, remove, remove-Distinct, lookup-remove_self, lookup-remove_ne, lookup-remove-none,
}
use tunnel_proxy.EdgeRegistry.Model.{
  LiveSession, contains, retain_bindings, remove_all, revoked_ids,
}

contains_same : (id j : ℕ) (ids : List ℕ) → id ≡ j → contains id (j ∷ ids) ≡ true
unfolding contains
contains_same id j ids h = ground arith

contains_other : (id j : ℕ) (ids : List ℕ) → id ≢ j → contains id (j ∷ ids) ≡ contains id ids
unfolding contains
contains_other id j ids h = ground arith

module _ {P : Type 0} (authorized : P → Bool) where
  pub contains-revoked_none :
      (id : ℕ) (m : List (ℕ × LiveSession P))
      → lookup ℕ_discrete id m ≡ none
      → contains id (revoked_ids authorized m) ≡ false
  unfolding lookup revoked_ids contains
  contains-revoked_none id [] h = refl
  contains-revoked_none id ((j, s) ∷ m) h = elim (ℕ_discrete id j) [
    | yes same ↦ absurd (ground arith)
    | no other ↦
        let rest = contains-revoked_none id m (ground arith) in
        elim (Bool-cases (authorized s.authorization)) [
          | inl good ↦ rw good rest
          | inr bad ↦ rw bad (contains_other id j (revoked_ids authorized m) other ∙ rest)
        ]
  ]

  -- A session is revoked exactly if it is not authorized.
  pub contains-revoked_some :
      (id : ℕ) (live : LiveSession P) (m : List (ℕ × LiveSession P))
      → Distinct ℕ_discrete m
      → lookup ℕ_discrete id m ≡ some live
      → contains id (revoked_ids authorized m) ≡ not (authorized live.authorization)
  unfolding lookup revoked_ids
  contains-revoked_some id live [] d h = absurd (cc h)
  contains-revoked_some id live ((j, s) ∷ m) d h = elim (ℕ_discrete id j) [
    | yes same ↦
        let found : s ≡ live = ground arith in
        let rest = contains-revoked_none id m (rw same d.0) in
        let by_authorization : authorized live.authorization ≡ authorized s.authorization =
          ap (λ (l : LiveSession P). authorized l.authorization) (sym found) in
        elim (Bool-cases (authorized s.authorization)) [
          | inl good ↦ rw good (rest ∙ sym (ap not (by_authorization ∙ good)))
          | inr bad ↦ rw bad (
              contains_same id j (revoked_ids authorized m) same
              ∙ sym (ap not (by_authorization ∙ bad)))
        ]
    | no other ↦
        let rest = contains-revoked_some id live m d.1 (ground arith) in
        elim (Bool-cases (authorized s.authorization)) [
          | inl good ↦ rw good rest
          | inr bad ↦ rw bad (contains_other id j (revoked_ids authorized m) other ∙ rest)
        ]
  ]

module _ {A : Type 0} where
  pub lookup-remove_all-none :
      (id : ℕ) (ids : List ℕ) (m : List (ℕ × A))
      → lookup ℕ_discrete id m ≡ none
      → lookup ℕ_discrete id (remove_all ids m) ≡ none
  unfolding remove_all
  lookup-remove_all-none id [] m h = h
  lookup-remove_all-none id (j ∷ ids) m h =
      lookup-remove_all-none id ids (remove ℕ_discrete j m) (lookup-remove-none ℕ_discrete id j m h)

  -- The sessions of the list go, the others stay.
  pub lookup-remove_all :
      (id : ℕ) (ids : List ℕ) (m : List (ℕ × A))
      → lookup ℕ_discrete id (remove_all ids m)
        ≡ (if contains id ids then none else lookup ℕ_discrete id m)
  unfolding remove_all contains
  lookup-remove_all id [] m = refl
  lookup-remove_all id (j ∷ ids) m = elim (ℕ_discrete id j) [
    | yes same ↦ rw (if_pos (ℕ_discrete id j) same) (
        lookup-remove_all-none id ids (remove ℕ_discrete j m)
          (rw same (lookup-remove_self ℕ_discrete j m)))
    | no other ↦ rw (if_neg (ℕ_discrete id j) other) (
        lookup-remove_all id ids (remove ℕ_discrete j m)
        ∙ ap (λ (o : Option A). if contains id ids then none else o)
            (lookup-remove_ne ℕ_discrete j id m other))
  ]

  pub remove_all-Distinct :
      (ids : List ℕ) (m : List (ℕ × A))
      → Distinct ℕ_discrete m
      → Distinct ℕ_discrete (remove_all ids m)
  unfolding remove_all
  remove_all-Distinct [] m d = d
  remove_all-Distinct (id ∷ ids) m d =
      remove_all-Distinct ids (remove ℕ_discrete id m) (remove-Distinct ℕ_discrete id m d)

-- What is left of the binding of a tunnel.
abbrev pub kept : List ℕ → Option ℕ → Option ℕ
kept ids none = none
kept ids (some id) = if contains id ids then none else some id

module _ {T : Type 0} (tunnel_dec : Discrete T) where
  pub lookup-retain-none :
      (tunnel : T) (ids : List ℕ) (m : List (T × ℕ))
      → lookup tunnel_dec tunnel m ≡ none
      → lookup tunnel_dec tunnel (retain_bindings ids m) ≡ none
  unfolding retain_bindings lookup
  lookup-retain-none tunnel ids [] h = refl
  lookup-retain-none tunnel ids ((t, id) ∷ m) h = ground (arith, lookup-retain-none tunnel ids m)

  pub lookup-retain :
      (tunnel : T) (ids : List ℕ) (m : List (T × ℕ))
      → Distinct tunnel_dec m
      → lookup tunnel_dec tunnel (retain_bindings ids m) ≡ kept ids (lookup tunnel_dec tunnel m)
  unfolding retain_bindings lookup
  lookup-retain tunnel ids [] d = refl
  lookup-retain tunnel ids ((t, id) ∷ m) d =
      ground (arith, lookup-retain tunnel ids m d.1, lookup-retain-none tunnel ids m)

  pub retain-Distinct :
      (ids : List ℕ) (m : List (T × ℕ))
      → Distinct tunnel_dec m
      → Distinct tunnel_dec (retain_bindings ids m)
  unfolding retain_bindings
  retain-Distinct ids [] d = d
  retain-Distinct ids ((t, id) ∷ m) d =
      ground (arith, retain-Distinct ids m d.1, lookup-retain-none t ids m d.0)
