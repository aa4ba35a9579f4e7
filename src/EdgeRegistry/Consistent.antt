-- ===== src/EdgeRegistry/Consistent.antt =====
-- Sessions and tunnels of the registry match, through publication, removal and revocation.
use mathlib.Core.List.{lookup}
use tunnel_proxy.Common.{
  ℕ, ◌≡◌, ◌≢◌, refl, ap, sym, ◌∙◌, ◌==◌, ◌⊎◌, Bool, true, false, none, some, List, arith,
  ℕ_discrete, Bool-cases, Option-cases, inl, inr,
}
use tunnel_proxy.Common.Dict.{
  Distinct, insert, remove, insert-Distinct, remove-Distinct, lookup-insert_self, lookup-insert_ne,
  lookup-remove_self, lookup-remove_ne,
}
use tunnel_proxy.EdgeRegistry.Model.{
  LiveSession, EdgeRegistry, keys, remove_binding, publish_session, remove_session,
}

module _ {P T : Type 0} (tunnel_of : P → T) (tunnel_dec : Discrete T) (sort_ids : List ℕ → List ℕ)
    (sort_bindings : List (T × ℕ) → List (T × ℕ)) where
  -- A tunnel is bound to a live session that registered it, a live session is bound to its tunnel,
  -- and the watch channels show both maps.
  pub record IsConsistent (r : EdgeRegistry P T) : Type 0 where
    pub distinct_sessions : Distinct ℕ_discrete r.sessions
    pub distinct_tunnels : Distinct tunnel_dec r.tunnels
    pub bound :
        (tunnel : T) (id : ℕ)
        → lookup tunnel_dec tunnel r.tunnels ≡ some id
        → (live : LiveSession P) × (lookup ℕ_discrete id r.sessions ≡ some live)
          × (tunnel_of live.authorization ≡ tunnel)
    pub serves :
        (id : ℕ) (live : LiveSession P)
        → lookup ℕ_discrete id r.sessions ≡ some live
        → lookup tunnel_dec (tunnel_of live.authorization) r.tunnels ≡ some id
    pub shown_sessions : r.session_updates ≡ sort_ids (keys r.sessions)
    pub shown_tunnels : r.tunnel_updates ≡ sort_bindings r.tunnels

  unfoldable pub published : ℕ → T → LiveSession P → EdgeRegistry P T → EdgeRegistry P T
  published id tunnel live r = record r {
    sessions = insert ℕ_discrete id live r.sessions;
    session_updates = sort_ids (keys (insert ℕ_discrete id live r.sessions));
    tunnels = insert tunnel_dec tunnel id r.tunnels;
    tunnel_updates = sort_bindings (insert tunnel_dec tunnel id r.tunnels);
  }

  published-IsConsistent :
      (id : ℕ) (live : LiveSession P) (r : EdgeRegistry P T)
      → IsConsistent r
      → lookup ℕ_discrete id r.sessions ≡ none
      → lookup tunnel_dec (tunnel_of live.authorization) r.tunnels ≡ none
      → IsConsistent (published id (tunnel_of live.authorization) live r)
  unfolding published
  published-IsConsistent id live r c fresh free =
      let t = tunnel_of live.authorization in
      record {
        distinct_sessions = insert-Distinct ℕ_discrete id live r.sessions c.distinct_sessions;
        distinct_tunnels = insert-Distinct tunnel_dec t id r.tunnels c.distinct_tunnels;
        shown_sessions = refl;
        shown_tunnels = refl;
        bound = λ t' i e. elim (tunnel_dec t' t) [
          | yes same ↦
              let here = rw (same, lookup-insert_self tunnel_dec t id r.tunnels) at e in
              let mine : i ≡ id = cc here in
              (live, rw mine (lookup-insert_self ℕ_discrete id live r.sessions), sym same)
          | no other ↦
              let old =
                c.bound t' i (sym (lookup-insert_ne tunnel_dec t t' id r.tunnels other) ∙ e) in
              let apart : i ≢ id = λ same. absurd (cc (fresh, same, old.1)) in
              (old.0, lookup-insert_ne ℕ_discrete id i live r.sessions apart ∙ old.1, old.2)
        ];
        serves = λ i l e. elim (ℕ_discrete i id) [
          | yes same ↦
              let here = rw (same, lookup-insert_self ℕ_discrete id live r.sessions) at e in
              let mine : l ≡ live = cc here in
              rw (mine, same) (lookup-insert_self tunnel_dec t id r.tunnels)
          | no other ↦
              let old =
                c.serves i l (sym (lookup-insert_ne ℕ_discrete id i live r.sessions other) ∙ e) in
              let apart : tunnel_of l.authorization ≢ t = λ same. absurd (cc (free, same, old)) in
              lookup-insert_ne tunnel_dec t (tunnel_of l.authorization) id r.tunnels apart ∙ old
        ];
      }

  pub publish_session-eq :
      (b : Bool) (id : ℕ) (tunnel : T) (live : LiveSession P) (r r' : EdgeRegistry P T)
      → publish_session tunnel_dec sort_ids sort_bindings b id tunnel live r ≡ (true, r')
      → r' ≡ published id tunnel live r
  unfolding publish_session published
  publish_session-eq true id tunnel live r r' e = cc e
  publish_session-eq false id tunnel live r r' e = cc e

  -- A session that is published joins both maps.
  pub publish_session-IsConsistent :
      (b : Bool) (id : ℕ) (live : LiveSession P) (r r' : EdgeRegistry P T)
      → IsConsistent r
      → lookup ℕ_discrete id r.sessions ≡ none
      → lookup tunnel_dec (tunnel_of live.authorization) r.tunnels ≡ none
      → publish_session tunnel_dec sort_ids sort_bindings b id (tunnel_of live.authorization) live r
        ≡ (true, r')
      → IsConsistent r'
  publish_session-IsConsistent b id live r r' c fresh free e =
      rw (publish_session-eq b id (tunnel_of live.authorization) live r r' e)
        (published-IsConsistent id live r c fresh free)

  -- The binding of a tunnel goes with its session.
  remove_binding-cases :
      (id : ℕ) (tunnel : T) (r : EdgeRegistry P T)
      → ((lookup tunnel_dec tunnel r.tunnels ≡ some id)
          × (remove_binding tunnel_dec id tunnel r.tunnels (lookup tunnel_dec tunnel r.tunnels)
              ≡ remove tunnel_dec tunnel r.tunnels))
        ⊎ ((lookup tunnel_dec tunnel r.tunnels ≢ some id)
            × (remove_binding tunnel_dec id tunnel r.tunnels (lookup tunnel_dec tunnel r.tunnels)
                ≡ r.tunnels))
  unfolding remove_binding
  remove_binding-cases id tunnel r = elim (Option-cases (lookup tunnel_dec tunnel r.tunnels)) [
    | inl e ↦ inr (λ f. cc (e, f), simp e refl)
    | inr (i, e) ↦ elim (Bool-cases (i == id)) [
      | inl same ↦ let eq : i ≡ id = ground arith in inl (e ∙ ap some eq, simp (e, same) refl)
      | inr other ↦
          inr (λ f. let eq : i ≡ id = cc (e, f) in absurd (ground arith), simp (e, other) refl)
    ]
  ]

  -- A session that ends leaves both maps, with the tunnel it registered.
  pub remove_session-IsConsistent :
      (id : ℕ) (tunnel : T) (r : EdgeRegistry P T)
      → IsConsistent r
      → ((live : LiveSession P)
          → lookup ℕ_discrete id r.sessions ≡ some live
          → tunnel_of live.authorization ≡ tunnel)
      → IsConsistent (remove_session tunnel_dec sort_ids sort_bindings id tunnel r)
  unfolding remove_session
  remove_session-IsConsistent id tunnel r c own = elim (remove_binding-cases id tunnel r) [
    | inl (mine, e) ↦ record {
      distinct_sessions = remove-Distinct ℕ_discrete id r.sessions c.distinct_sessions;
      distinct_tunnels = rw e (remove-Distinct tunnel_dec tunnel r.tunnels c.distinct_tunnels);
      shown_sessions = refl;
      shown_tunnels = refl;
      bound = λ t i f.
          let f' = rw e at f in
          let apart : t ≢ tunnel = λ same.
            absurd
              (let g = rw (same, lookup-remove_self tunnel_dec tunnel r.tunnels) at f' in cc g) in
          let old = c.bound t i (sym (lookup-remove_ne tunnel_dec tunnel t r.tunnels apart) ∙ f') in
          let other : i ≢ id = λ same. absurd (
            apart (
              sym old.2
              ∙ own old.0 (ap (λ j. lookup ℕ_discrete j r.sessions) (sym same) ∙ old.1))) in
          (old.0, lookup-remove_ne ℕ_discrete id i r.sessions other ∙ old.1, old.2);
      serves = λ i l f.
          let other : i ≢ id = λ same.
            absurd (let g = rw (same, lookup-remove_self ℕ_discrete id r.sessions) at f in cc g) in
          let old = c.serves i l (sym (lookup-remove_ne ℕ_discrete id i r.sessions other) ∙ f) in
          let apart : tunnel_of l.authorization ≢ tunnel =
            λ same. absurd (other (let g : some i ≡ some id = cc (mine, same, old) in cc g)) in
          rw e
            (lookup-remove_ne tunnel_dec tunnel (tunnel_of l.authorization) r.tunnels apart ∙ old);
    }
    | inr (else_bound, e) ↦
        let gone : (l : LiveSession P) → lookup ℕ_discrete id r.sessions ≢ some l = λ l f. absurd (
          else_bound (ap (λ t. lookup tunnel_dec t r.tunnels) (sym (own l f)) ∙ c.serves id l f)) in
        record {
          distinct_sessions = remove-Distinct ℕ_discrete id r.sessions c.distinct_sessions;
          distinct_tunnels = rw e c.distinct_tunnels;
          shown_sessions = refl;
          shown_tunnels = refl;
          bound = λ t i f.
              let old = c.bound t i (rw e at f) in
              let other : i ≢ id = λ same.
                absurd (gone old.0 (ap (λ j. lookup ℕ_discrete j r.sessions) (sym same) ∙ old.1)) in
              (old.0, lookup-remove_ne ℕ_discrete id i r.sessions other ∙ old.1, old.2);
          serves = λ i l f.
              let other : i ≢ id = λ same.
                absurd
                  (let g = rw (same, lookup-remove_self ℕ_discrete id r.sessions) at f in cc g) in
              rw e (c.serves i l (sym (lookup-remove_ne ℕ_discrete id i r.sessions other) ∙ f));
        }
  ]
