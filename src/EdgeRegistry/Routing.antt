-- ===== src/EdgeRegistry/Routing.antt =====
-- What holds of the registry in every order of the sessions' steps, and what routing relies on.
use mathlib.Core.List.{lookup}
use tunnel_proxy.Common.{
  ℕ, ◌+◌, ◌≡◌, refl, ap, sym, subst, ◌∙◌, ◌⊎◌, Bool, true, none, some, List, [], ◌∷◌, ℕ_discrete,
  Option-cases, inl, inr,
}
use tunnel_proxy.Common.Results.{err}
use tunnel_proxy.Common.Dict.{insert, remove, lookup-insert-cases, lookup-remove-cases}
use tunnel_proxy.Multiplex.Errors as Errors
use tunnel_proxy.Multiplex.Errors.{RouteError}
use tunnel_proxy.Multiplex.Session.Model.{Sender, TrySend}
use tunnel_proxy.EdgeRegistry.Model.{
  LiveSession, EdgeRegistry, AuthorizationSourceStatus, drop_claim, publish_session, remove_session,
  revoke, reconcile, mark_snapshot_source_stale, resolve_tunnel, queued, enqueue_to, enqueue_io,
  open_resolved, open_tunnel_io, revoked_ids,
}
use tunnel_proxy.EdgeRegistry.Consistent.{
  published, publish_session-eq, publish_session-IsConsistent, remove_session-IsConsistent,
}
use tunnel_proxy.EdgeRegistry.Revocation.{reconcile-IsConsistent, reconcile-sessions_iff}
use tunnel_proxy.EdgeRegistry.System.{
  Reaches, starts, registers, publishes, refused, leaves, reconciles, turns_stale, IsSound,
  IsConsistent-same, starts-IsSound, claim-eq, next_id-eq, registers-IsSound, releases-IsSound,
}

module _ {P T : Type 0} (tunnel_of : P → T) (tunnel_dec : Discrete T) (sort_ids : List ℕ → List ℕ)
    (sort_bindings : List (T × ℕ) → List (T × ℕ)) where
  -- The session of a claim, that is not live, finds its tunnel unbound.
  tunnel_is_free :
      (r : EdgeRegistry P T) (hs : List (ℕ × P)) (id : ℕ) (p : P)
      → IsSound tunnel_of tunnel_dec sort_ids sort_bindings r hs
      → lookup ℕ_discrete id hs ≡ some p
      → lookup ℕ_discrete id r.sessions ≡ none
      → lookup tunnel_dec (tunnel_of p) r.tunnels ≡ none
  tunnel_is_free r hs id p v mine fresh =
      elim (Option-cases (lookup tunnel_dec (tunnel_of p) r.tunnels)) [
        | inl e ↦ e
        | inr (j, e) ↦
            let live = v.consistent.bound (tunnel_of p) j e in
            let same : j ≡ id =
              v.exclusive j id live.0.authorization p (v.held j live.0 live.1) mine live.2 in
            absurd (cc (fresh, same, live.1))
      ]

  publishes-IsSound :
      (r r' : EdgeRegistry P T) (hs : List (ℕ × P)) (b : Bool) (id : ℕ) (live : LiveSession P)
      → IsSound tunnel_of tunnel_dec sort_ids sort_bindings r hs
      → lookup ℕ_discrete id hs ≡ some live.authorization
      → lookup ℕ_discrete id r.sessions ≡ none
      → publish_session tunnel_dec sort_ids sort_bindings b id (tunnel_of live.authorization) live r
        ≡ (true, r')
      → IsSound tunnel_of tunnel_dec sort_ids sort_bindings r' hs
  unfolding published
  publishes-IsSound r r' hs b id live v mine fresh e =
      let free = tunnel_is_free r hs id live.authorization v mine fresh in
      let next =
        publish_session-eq tunnel_of tunnel_dec sort_ids sort_bindings b id
          (tunnel_of live.authorization) live r r' e in
      record {
        consistent =
            publish_session-IsConsistent tunnel_of tunnel_dec sort_ids sort_bindings b id live r r'
              v.consistent fresh free e;
        issued = λ j q f.
            let known = v.issued j q f in
            (
              rw (ap (λ (x : EdgeRegistry P T). x.counter) next) known.0,
              rw (ap (λ (x : EdgeRegistry P T). x.claims) next) known.1,
            );
        exclusive = v.exclusive;
        held = λ i l f.
            let f' = rw (ap (λ (x : EdgeRegistry P T). x.sessions) next) at f in
            elim (lookup-insert-cases ℕ_discrete id i live l r.sessions f') [
              | inl (same, it) ↦ rw (same, it) mine
              | inr (other, old) ↦ v.held i l old
            ];
      }

  revoke-keeps :
      (ids : List ℕ) (r : EdgeRegistry P T)
      → ((revoke tunnel_dec sort_ids sort_bindings ids r).counter ≡ r.counter)
        × ((revoke tunnel_dec sort_ids sort_bindings ids r).claims ≡ r.claims)
  unfolding revoke
  revoke-keeps [] r = (refl, refl)
  revoke-keeps (id ∷ ids) r = (refl, refl)

  reconciles-IsSound :
      (r : EdgeRegistry P T) (hs : List (ℕ × P)) (authorized : P → Bool) (version : ℕ)
      (source : AuthorizationSourceStatus)
      → IsSound tunnel_of tunnel_dec sort_ids sort_bindings r hs
      → IsSound tunnel_of tunnel_dec sort_ids sort_bindings
          (reconcile tunnel_dec sort_ids sort_bindings authorized version source r)
          hs
  reconciles-IsSound r hs authorized version source v = record {
    consistent =
        reconcile-IsConsistent tunnel_of tunnel_dec sort_ids sort_bindings authorized version source
          r v.consistent;
    issued = λ j q f.
        let known = v.issued j q f in
        let k = revoke-keeps (revoked_ids authorized r.sessions) r in
        (unfold reconcile in rw (k.0) known.0, unfold reconcile in rw (k.1) known.1);
    exclusive = v.exclusive;
    held = λ i l f.
        v.held i l
          ((reconcile-sessions_iff tunnel_of tunnel_dec sort_ids sort_bindings authorized version
              source r i l v.consistent).0
            f).0;
  }

  leaves-IsSound :
      (r : EdgeRegistry P T) (hs : List (ℕ × P)) (id : ℕ) (p : P)
      → IsSound tunnel_of tunnel_dec sort_ids sort_bindings r hs
      → lookup ℕ_discrete id hs ≡ some p
      → IsSound tunnel_of tunnel_dec sort_ids sort_bindings
          (drop_claim tunnel_dec
            (tunnel_of p)
            (remove_session tunnel_dec sort_ids sort_bindings id (tunnel_of p) r))
          (remove ℕ_discrete id hs)
  unfolding drop_claim remove_session
  leaves-IsSound r hs id p v mine =
      let own = λ (l : LiveSession P) (e : lookup ℕ_discrete id r.sessions ≡ some l).
        let held = v.held id l e in
        let same : l.authorization ≡ p = cc (held, mine) in ap tunnel_of same in
      let removed =
        remove_session-IsConsistent tunnel_of tunnel_dec sort_ids sort_bindings id (tunnel_of p) r
          v.consistent own in
      releases-IsSound tunnel_of tunnel_dec sort_ids sort_bindings r _ hs id p v mine
        (IsConsistent-same tunnel_of tunnel_dec sort_ids sort_bindings _ _ removed refl refl refl
          refl)
        refl refl (λ i l e. lookup-remove-cases ℕ_discrete id i l r.sessions e)

  refused-IsSound :
      (r : EdgeRegistry P T) (hs : List (ℕ × P)) (id : ℕ) (p : P)
      → IsSound tunnel_of tunnel_dec sort_ids sort_bindings r hs
      → lookup ℕ_discrete id hs ≡ some p
      → lookup ℕ_discrete id r.sessions ≡ none
      → IsSound tunnel_of tunnel_dec sort_ids sort_bindings
          (drop_claim tunnel_dec (tunnel_of p) r)
          (remove ℕ_discrete id hs)
  unfolding drop_claim
  refused-IsSound r hs id p v mine fresh =
      releases-IsSound tunnel_of tunnel_dec sort_ids sort_bindings r _ hs id p v mine
        (IsConsistent-same tunnel_of tunnel_dec sort_ids sort_bindings r _ v.consistent refl refl
          refl refl)
        refl refl (λ i l e. (λ same. absurd (cc (fresh, same, e)), e))

  turns_stale-IsSound :
      (r : EdgeRegistry P T) (hs : List (ℕ × P))
      → IsSound tunnel_of tunnel_dec sort_ids sort_bindings r hs
      → IsSound tunnel_of tunnel_dec sort_ids sort_bindings (mark_snapshot_source_stale r) hs
  unfolding mark_snapshot_source_stale
  turns_stale-IsSound r hs v = record {
    consistent =
        IsConsistent-same tunnel_of tunnel_dec sort_ids sort_bindings r _ v.consistent refl refl
          refl refl;
    issued = v.issued;
    exclusive = v.exclusive;
    held = v.held;
  }

  -- In whatever order sessions claim their tunnels, are published or refused, are revoked by
  -- snapshots and end: no tunnel has two sessions; every tunnel that is bound is bound to a live
  -- session that registered it, and every live session has its tunnel bound to it; the watch
  -- channels show just these; every session keeps its claim, and its identifier was issued.
  pub Reaches-IsSound :
      (r : EdgeRegistry P T) (hs : List (ℕ × P))
      → Reaches tunnel_of tunnel_dec sort_ids sort_bindings r hs
      → IsSound tunnel_of tunnel_dec sort_ids sort_bindings r hs
  Reaches-IsSound _ _ (starts status a b) =
      starts-IsSound tunnel_of tunnel_dec sort_ids sort_bindings status a b
  Reaches-IsSound _ _ (registers r r1 r2 hs p tunnel id before claimed allocated) =
      let v = Reaches-IsSound r hs before in
      let c =
        claim-eq tunnel_of tunnel_dec sort_ids sort_bindings (tunnel_of p) tunnel r r1 claimed in
      let n = next_id-eq tunnel_of tunnel_dec sort_ids sort_bindings id r1 r2 allocated in
      let from_r1 = registers-IsSound tunnel_of tunnel_dec sort_ids sort_bindings r hs p id v c.0 in
      let new_id : id ≡ r.counter + 1 = n.0 ∙ ap (λ (x : EdgeRegistry P T). x.counter + 1) (c.1) in
      let state = n.1 ∙ ap (λ (x : EdgeRegistry P T). record x { counter = x.counter + 1 }) (c.1) in
      subst (λ x. IsSound tunnel_of tunnel_dec sort_ids sort_bindings x (insert ℕ_discrete id p hs))
        (sym state) (from_r1 new_id)
  Reaches-IsSound _ _ (publishes r r' hs b id live before mine fresh e) =
      publishes-IsSound r r' hs b id live (Reaches-IsSound r hs before) mine fresh e
  Reaches-IsSound _ _ (refused r hs id p before mine fresh) =
      refused-IsSound r hs id p (Reaches-IsSound r hs before) mine fresh
  Reaches-IsSound _ _ (leaves r hs id p before mine) =
      leaves-IsSound r hs id p (Reaches-IsSound r hs before) mine
  Reaches-IsSound _ _ (reconciles r hs authorized version source before) =
      reconciles-IsSound r hs authorized version source (Reaches-IsSound r hs before)
  Reaches-IsSound _ _ (turns_stale r hs before) =
      turns_stale-IsSound r hs (Reaches-IsSound r hs before)

  -- While the edge accepts streams, a stream for a tunnel is refused as not connected exactly if no
  -- session is bound to the tunnel; otherwise the command goes to the queue of a live session that
  -- registered this very tunnel. It never goes to another tunnel's session, nor to one that is gone.
  pub open_tunnel_io-cases :
      (r : EdgeRegistry P T) (hs : List (ℕ × P)) (try_send : Sender → TrySend) (tunnel : T)
      → Reaches tunnel_of tunnel_dec sort_ids sort_bindings r hs
      → r.accepting_streams ≡ true
      → ((resolve_tunnel tunnel_dec tunnel r ≡ none)
          × (open_tunnel_io tunnel_dec try_send tunnel r
              ≡ err (Errors.RouteError.tunnel_not_connected tunnel)))
        ⊎ ((id : ℕ) × (live : LiveSession P) × (lookup ℕ_discrete id r.sessions ≡ some live)
            × (tunnel_of live.authorization ≡ tunnel)
            × (open_tunnel_io tunnel_dec try_send tunnel r
                ≡ queued id live.commands (try_send live.commands)))
  unfolding open_tunnel_io resolve_tunnel open_resolved enqueue_io enqueue_to
  open_tunnel_io-cases r hs try_send tunnel reached accepting =
      elim (Option-cases (lookup tunnel_dec tunnel r.tunnels)) [
        | inl e ↦ inl (e, simp e refl)
        | inr (id, e) ↦
            let live = (Reaches-IsSound r hs reached).consistent.bound tunnel id e in
            inr (id, live.0, live.1, live.2, simp (e, accepting, live.1) refl)
      ]
