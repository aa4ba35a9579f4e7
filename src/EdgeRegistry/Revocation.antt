-- ===== src/EdgeRegistry/Revocation.antt =====
-- `reconcile_authorization_snapshot`: what a new snapshot does to the registry.
use mathlib.Core.List.{lookup}
use tunnel_proxy.Common.{
  ℕ, ◌≡◌, ◌↔◌, refl, ap, sym, ◌∙◌, Bool, true, false, not, Option, none, some, List, [], ◌∷◌,
  if◌then◌else◌, arith, ℕ_discrete, Bool-cases, inl, inr,
}
use tunnel_proxy.Common.Dict.{Distinct}
use tunnel_proxy.EdgeRegistry.Model.{
  LiveSession, EdgeRegistry, AuthorizationSourceStatus, keys, contains, revoked_ids, revoke,
  reconcile,
}
use tunnel_proxy.EdgeRegistry.Lookups.{
  kept, contains-revoked_some, lookup-remove_all, remove_all-Distinct, lookup-retain,
  retain-Distinct,
}
use tunnel_proxy.EdgeRegistry.Consistent.{IsConsistent}

module _ {P T : Type 0} (tunnel_of : P → T) (tunnel_dec : Discrete T) (sort_ids : List ℕ → List ℕ)
    (sort_bindings : List (T × ℕ) → List (T × ℕ)) where
  revoke_sessions :
      (ids : List ℕ) (r : EdgeRegistry P T) (id : ℕ)
      → lookup ℕ_discrete id (revoke tunnel_dec sort_ids sort_bindings ids r).sessions
        ≡ (if contains id ids then none else lookup ℕ_discrete id r.sessions)
  unfolding revoke contains
  revoke_sessions [] r id = refl
  revoke_sessions (j ∷ ids) r id = lookup-remove_all id (j ∷ ids) r.sessions

  kept_all : (o : Option ℕ) → o ≡ kept [] o
  unfolding contains
  kept_all none = refl
  kept_all (some id) = refl

  revoke_tunnels :
      (ids : List ℕ) (r : EdgeRegistry P T) (tunnel : T)
      → Distinct tunnel_dec r.tunnels
      → lookup tunnel_dec tunnel (revoke tunnel_dec sort_ids sort_bindings ids r).tunnels
        ≡ kept ids (lookup tunnel_dec tunnel r.tunnels)
  unfolding revoke
  revoke_tunnels [] r tunnel d = kept_all (lookup tunnel_dec tunnel r.tunnels)
  revoke_tunnels (j ∷ ids) r tunnel d = lookup-retain tunnel_dec tunnel (j ∷ ids) r.tunnels d

  kept-some :
      (ids : List ℕ) (o : Option ℕ) (id : ℕ)
      → kept ids o ≡ some id
      → (o ≡ some id) × (contains id ids ≡ false)
  kept-some ids none id e = absurd (cc e)
  kept-some ids (some j) id e = elim (Bool-cases (contains j ids)) [
    | inl gone ↦ absurd (let f = rw gone at e in cc f)
    | inr stays ↦
        let f = rw stays at e in
        let same : j ≡ id = cc f in (ap some same, ap (λ k. contains k ids) (sym same) ∙ stays)
  ]

  -- The session is not in the list of those revoked.
  session-kept :
      (ids : List ℕ) (r : EdgeRegistry P T) (id : ℕ) (live : LiveSession P)
      → lookup ℕ_discrete id (revoke tunnel_dec sort_ids sort_bindings ids r).sessions ≡ some live
      → (lookup ℕ_discrete id r.sessions ≡ some live) × (contains id ids ≡ false)
  session-kept ids r id live e = elim (Bool-cases (contains id ids)) [
    | inl gone ↦ absurd (let f = rw (revoke_sessions ids r id, gone) at e in cc f)
    | inr stays ↦ let f = rw (revoke_sessions ids r id, stays) at e in (f, stays)
  ]

  revoke-IsConsistent :
      (ids : List ℕ) (r : EdgeRegistry P T)
      → IsConsistent tunnel_of tunnel_dec sort_ids sort_bindings r
      → IsConsistent tunnel_of tunnel_dec sort_ids sort_bindings
          (revoke tunnel_dec sort_ids sort_bindings ids r)
  revoke-IsConsistent ids r c = record {
    distinct_sessions = distinct ids;
    distinct_tunnels = distinct_too ids;
    shown_sessions = shown ids;
    shown_tunnels = shown_too ids;
    bound = λ t i e.
        let k =
          kept-some ids (lookup tunnel_dec t r.tunnels) i
            (sym (revoke_tunnels ids r t c.distinct_tunnels) ∙ e) in
        let old = c.bound t i k.0 in
        let stays : (if contains i ids then none else lookup ℕ_discrete i r.sessions) ≡ some old.0 =
          rw (k.1) old.1 in
        (old.0, revoke_sessions ids r i ∙ stays, old.2);
    serves = λ i l e.
        let k = session-kept ids r i l e in
        let old = c.serves i l k.0 in
        revoke_tunnels ids r (tunnel_of l.authorization) c.distinct_tunnels
        ∙ ap (kept ids) old
        ∙ kept_one i k.1;
  }
    where
      kept_one : (i : ℕ) → contains i ids ≡ false → kept ids (some i) ≡ some i
      kept_one i e = rw e refl

      distinct :
          (ids : List ℕ)
          → Distinct ℕ_discrete (revoke tunnel_dec sort_ids sort_bindings ids r).sessions
      distinct [] = unfold revoke in c.distinct_sessions
      distinct (j ∷ js) =
          unfold revoke in remove_all-Distinct (j ∷ js) r.sessions c.distinct_sessions

      distinct_too :
          (ids : List ℕ)
          → Distinct tunnel_dec (revoke tunnel_dec sort_ids sort_bindings ids r).tunnels
      distinct_too [] = unfold revoke in c.distinct_tunnels
      distinct_too (j ∷ js) =
          unfold revoke in retain-Distinct tunnel_dec (j ∷ js) r.tunnels c.distinct_tunnels

      shown :
          (ids : List ℕ)
          → (revoke tunnel_dec sort_ids sort_bindings ids r).session_updates
            ≡ sort_ids (keys (revoke tunnel_dec sort_ids sort_bindings ids r).sessions)
      shown [] = unfold revoke in c.shown_sessions
      shown (j ∷ js) = unfold revoke in refl

      shown_too :
          (ids : List ℕ)
          → (revoke tunnel_dec sort_ids sort_bindings ids r).tunnel_updates
            ≡ sort_bindings (revoke tunnel_dec sort_ids sort_bindings ids r).tunnels
      shown_too [] = unfold revoke in c.shown_tunnels
      shown_too (j ∷ js) = unfold revoke in refl

  -- The registry stays consistent when a snapshot is applied.
  pub reconcile-IsConsistent :
      (authorized : P → Bool) (version : ℕ) (source : AuthorizationSourceStatus)
      (r : EdgeRegistry P T)
      → IsConsistent tunnel_of tunnel_dec sort_ids sort_bindings r
      → IsConsistent tunnel_of tunnel_dec sort_ids sort_bindings
          (reconcile tunnel_dec sort_ids sort_bindings authorized version source r)
  unfolding reconcile
  reconcile-IsConsistent authorized version source r c =
      let v = revoke-IsConsistent (revoked_ids authorized r.sessions) r c in
      record {
        distinct_sessions = v.distinct_sessions;
        distinct_tunnels = v.distinct_tunnels;
        bound = v.bound;
        serves = v.serves;
        shown_sessions = v.shown_sessions;
        shown_tunnels = v.shown_tunnels;
      }

  -- After a snapshot was applied, the live sessions are exactly those that were live and that it
  -- authorizes, with the same queues and identities.
  pub reconcile-sessions_iff :
      (authorized : P → Bool) (version : ℕ) (source : AuthorizationSourceStatus)
      (r : EdgeRegistry P T) (id : ℕ) (live : LiveSession P)
      → IsConsistent tunnel_of tunnel_dec sort_ids sort_bindings r
      → (lookup ℕ_discrete id
            (reconcile tunnel_dec sort_ids sort_bindings authorized version source r).sessions
          ≡ some live)
        ↔ ((lookup ℕ_discrete id r.sessions ≡ some live) × (authorized live.authorization ≡ true))
  unfolding reconcile
  reconcile-sessions_iff authorized version source r id live c =
      let ids = revoked_ids authorized r.sessions in
      let listed = λ (e : lookup ℕ_discrete id r.sessions ≡ some live).
        contains-revoked_some authorized id live r.sessions c.distinct_sessions e in
      (
        λ e. let k = session-kept ids r id live e in (k.0, ground (arith, k.1, listed k.0)),
        λ (e, good).
            let stays : contains id ids ≡ false = listed e ∙ ap not good in
            rw (revoke_sessions ids r id, stays) e,
      )
