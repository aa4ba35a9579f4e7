-- ===== src/EdgeRegistry/System.antt =====
-- The edge with its accepted sessions, in any order of their steps: each session claims its tunnel,
-- gets an identifier, is published or refused, may be revoked, and ends.
use mathlib.Core.List.{lookup}
use tunnel_proxy.Common.{
  ℕ, ◌+◌, ◌-◌, ◌^◌, ◌≤◌, ◌≡◌, ◌≢◌, refl, sym, ◌∙◌, Bool, true, false, none, some, List, [], ltb,
  arith, ℕ_discrete, ◌==◌, Bool-cases, Option-cases, inl, inr,
}
use tunnel_proxy.Common.Dict.{
  insert, remove, lookup-insert_self, lookup-insert_ne, lookup-remove_ne, lookup-insert-cases,
  lookup-remove-cases,
}
use tunnel_proxy.Codes.Sequence.{session_id_new}
use tunnel_proxy.EdgeRegistry.Model.{
  LiveSession, EdgeRegistry, EdgeAuthorizationStatus, AuthorizationSourceStatus, keys, next_id,
  claim_unless, claim, drop_claim, publish_session, remove_session, reconcile,
  mark_snapshot_source_stale,
}
use tunnel_proxy.EdgeRegistry.Consistent.{IsConsistent}

-- No session, before the first connection.
abbrev pub empty_registry : {P T : Type 0} → EdgeAuthorizationStatus → EdgeRegistry P T
empty_registry status = record {
  sessions = [];
  tunnels = [];
  claims = [];
  counter = 0;
  authorization_status = status;
  session_updates = [];
  tunnel_updates = [];
  accepting_streams = true;
}

module _ {P T : Type 0} (tunnel_of : P → T) (tunnel_dec : Discrete T) (sort_ids : List ℕ → List ℕ)
    (sort_bindings : List (T × ℕ) → List (T × ℕ)) where
  -- The registry, and the sessions that hold a claim, published or not.
  pub data Reaches : EdgeRegistry P T → List (ℕ × P) → Type 0 where
    starts :
        (status : EdgeAuthorizationStatus)
        → sort_ids [] ≡ []
        → sort_bindings [] ≡ []
        → Reaches (empty_registry status) []
    registers :
        (r r1 r2 : EdgeRegistry P T) (hs : List (ℕ × P)) (p : P) (tunnel : T) (id : ℕ)
        → Reaches r hs
        → claim tunnel_dec (tunnel_of p) r ≡ (some tunnel, r1)
        → next_id r1 ≡ (some id, r2)
        → Reaches r2 (insert ℕ_discrete id p hs)
    publishes :
        (r r' : EdgeRegistry P T) (hs : List (ℕ × P)) (b : Bool) (id : ℕ) (live : LiveSession P)
        → Reaches r hs
        → lookup ℕ_discrete id hs ≡ some live.authorization
        → lookup ℕ_discrete id r.sessions ≡ none
        → publish_session tunnel_dec sort_ids sort_bindings b id
            (tunnel_of live.authorization)
            live
            r
          ≡ (true, r')
        → Reaches r' hs
    refused :
        (r : EdgeRegistry P T) (hs : List (ℕ × P)) (id : ℕ) (p : P)
        → Reaches r hs
        → lookup ℕ_discrete id hs ≡ some p
        → lookup ℕ_discrete id r.sessions ≡ none
        → Reaches (drop_claim tunnel_dec (tunnel_of p) r) (remove ℕ_discrete id hs)
    leaves :
        (r : EdgeRegistry P T) (hs : List (ℕ × P)) (id : ℕ) (p : P)
        → Reaches r hs
        → lookup ℕ_discrete id hs ≡ some p
        → Reaches
            (drop_claim tunnel_dec
              (tunnel_of p)
              (remove_session tunnel_dec sort_ids sort_bindings id (tunnel_of p) r))
            (remove ℕ_discrete id hs)
    reconciles :
        (r : EdgeRegistry P T) (hs : List (ℕ × P)) (authorized : P → Bool) (version : ℕ)
        (source : AuthorizationSourceStatus)
        → Reaches r hs
        → Reaches (reconcile tunnel_dec sort_ids sort_bindings authorized version source r) hs
    turns_stale :
        (r : EdgeRegistry P T) (hs : List (ℕ × P))
        → Reaches r hs
        → Reaches (mark_snapshot_source_stale r) hs

  pub record IsSound (r : EdgeRegistry P T) (hs : List (ℕ × P)) : Type 0 where
    pub consistent : IsConsistent tunnel_of tunnel_dec sort_ids sort_bindings r
    -- identifiers come from the counter, and the tunnel is claimed
    pub issued :
        (id : ℕ) (p : P)
        → lookup ℕ_discrete id hs ≡ some p
        → (id ≤ r.counter) × (lookup tunnel_dec (tunnel_of p) r.claims ≡ some tt)
    -- one session for each tunnel
    pub exclusive :
        (i j : ℕ) (p q : P)
        → lookup ℕ_discrete i hs ≡ some p
        → lookup ℕ_discrete j hs ≡ some q
        → tunnel_of p ≡ tunnel_of q
        → i ≡ j
    pub held :
        (id : ℕ) (live : LiveSession P)
        → lookup ℕ_discrete id r.sessions ≡ some live
        → lookup ℕ_discrete id hs ≡ some live.authorization

  -- What depends on the two maps and what they show only.
  pub IsConsistent-same :
      (r r' : EdgeRegistry P T)
      → IsConsistent tunnel_of tunnel_dec sort_ids sort_bindings r
      → r'.sessions ≡ r.sessions
      → r'.tunnels ≡ r.tunnels
      → r'.session_updates ≡ r.session_updates
      → r'.tunnel_updates ≡ r.tunnel_updates
      → IsConsistent tunnel_of tunnel_dec sort_ids sort_bindings r'
  IsConsistent-same r r' c a b d e = record {
    distinct_sessions = rw a c.distinct_sessions;
    distinct_tunnels = rw b c.distinct_tunnels;
    bound = λ t i f. let old = c.bound t i (rw b at f) in (old.0, rw a old.1, old.2);
    serves = λ i l f. rw b (c.serves i l (rw a at f));
    shown_sessions = rw (d, a) c.shown_sessions;
    shown_tunnels = rw (e, b) c.shown_tunnels;
  }

  pub starts-IsSound :
      (status : EdgeAuthorizationStatus)
      → sort_ids [] ≡ []
      → sort_bindings [] ≡ []
      → IsSound (empty_registry status) []
  unfolding lookup keys
  starts-IsSound status a b = record {
    consistent = record {
      distinct_sessions = tt;
      distinct_tunnels = tt;
      bound = λ t i e. absurd (cc e);
      serves = λ i l e. absurd (cc e);
      shown_sessions = sym a;
      shown_tunnels = sym b;
    };
    issued = λ id p e. absurd (cc e);
    exclusive = λ i j p q e f g. absurd (cc e);
    held = λ id l e. absurd (cc e);
  }

  pub claim-eq :
      (tunnel u : T) (r r' : EdgeRegistry P T)
      → claim tunnel_dec tunnel r ≡ (some u, r')
      → (lookup tunnel_dec tunnel r.claims ≡ none)
        × (r' ≡ record r { claims = insert tunnel_dec tunnel tt r.claims })
  unfolding claim claim_unless
  claim-eq tunnel u r r' e = elim (Option-cases (lookup tunnel_dec tunnel r.claims)) [
    | inl f ↦ let g = simp f at e in (f, cc g)
    | inr (x, f) ↦ absurd (let g = simp f at e in cc g)
  ]

  pub next_id-eq :
      (id : ℕ) (r r' : EdgeRegistry P T)
      → next_id r ≡ (some id, r')
      → (id ≡ r.counter + 1) × (r' ≡ record r { counter = r.counter + 1 })
  unfolding next_id session_id_new
  next_id-eq id r r' e = elim (Bool-cases (ltb r.counter (2 ^ 64 - 1))) [
    | inl room ↦
        let g = simp room at e in
        let positive : (r.counter + 1 == 0) ≡ false = ground arith in
        let h = simp positive at g in (let same : r.counter + 1 ≡ id = cc h in sym same, cc h)
    | inr over ↦ absurd (let g = simp over at e in cc g)
  ]

  pub registers-IsSound :
      (r : EdgeRegistry P T) (hs : List (ℕ × P)) (p : P) (id : ℕ)
      → IsSound r hs
      → lookup tunnel_dec (tunnel_of p) r.claims ≡ none
      → id ≡ r.counter + 1
      → IsSound
          (record r {
            claims = insert tunnel_dec (tunnel_of p) tt r.claims;
            counter = r.counter + 1;
          })
          (insert ℕ_discrete id p hs)
  registers-IsSound r hs p id v free new_id = record {
    consistent = IsConsistent-same r _ v.consistent refl refl refl refl;
    issued = λ j q e. elim (lookup-insert-cases ℕ_discrete id j p q hs e) [
      | inl (same, mine) ↦ (
        omega (arith, same, new_id),
        rw mine (lookup-insert_self tunnel_dec (tunnel_of p) tt r.claims),
      )
      | inr (other, old) ↦
          let known = v.issued j q old in
          let apart : tunnel_of q ≢ tunnel_of p = λ same. absurd (cc (free, same, known.1)) in
          (
            omega (arith, known.0),
            lookup-insert_ne tunnel_dec (tunnel_of p) (tunnel_of q) tt r.claims apart ∙ known.1,
          )
    ];
    exclusive = λ i j q q' e f same. elim (lookup-insert-cases ℕ_discrete id i p q hs e) [
      | inl (ei, qi) ↦ elim (lookup-insert-cases ℕ_discrete id j p q' hs f) [
        | inl (ej, qj) ↦ ei ∙ sym ej
        | inr (_, old) ↦ absurd (cc (free, qi, same, (v.issued j q' old).1))
      ]
      | inr (_, old) ↦ elim (lookup-insert-cases ℕ_discrete id j p q' hs f) [
        | inl (ej, qj) ↦ absurd (cc (free, qj, same, (v.issued i q old).1))
        | inr (_, old') ↦ v.exclusive i j q q' old old' same
      ]
    ];
    held = λ i l e.
        let old = v.held i l e in
        let known = v.issued i l.authorization old in
        let apart : i ≢ id = λ same. absurd (omega (arith, same, known.0, new_id)) in
        lookup-insert_ne ℕ_discrete id i p hs apart ∙ old;
  }

  -- A session lets go of its claim and is forgotten.
  pub releases-IsSound :
      (r r' : EdgeRegistry P T) (hs : List (ℕ × P)) (id : ℕ) (p : P)
      → IsSound r hs
      → lookup ℕ_discrete id hs ≡ some p
      → IsConsistent tunnel_of tunnel_dec sort_ids sort_bindings r'
      → r'.counter ≡ r.counter
      → r'.claims ≡ remove tunnel_dec (tunnel_of p) r.claims
      → ((i : ℕ) (l : LiveSession P)
          → lookup ℕ_discrete i r'.sessions ≡ some l
          → (i ≢ id) × (lookup ℕ_discrete i r.sessions ≡ some l))
      → IsSound r' (remove ℕ_discrete id hs)
  releases-IsSound r r' hs id p v mine c same_counter fewer_claims others = record {
    consistent = c;
    issued = λ j q e.
        let old = lookup-remove-cases ℕ_discrete id j q hs e in
        let known = v.issued j q old.1 in
        let apart : tunnel_of q ≢ tunnel_of p =
          λ same. absurd (old.0 (v.exclusive j id q p old.1 mine same)) in
        (
          omega (arith, known.0, same_counter),
          rw fewer_claims
              (lookup-remove_ne tunnel_dec (tunnel_of p) (tunnel_of q) r.claims apart ∙ known.1),
        );
    exclusive = λ i j q q' e f same.
        v.exclusive i j q q' (lookup-remove-cases ℕ_discrete id i q hs e).1
          (lookup-remove-cases ℕ_discrete id j q' hs f).1 same;
    held = λ i l e.
        let old = others i l e in lookup-remove_ne ℕ_discrete id i hs old.0 ∙ v.held i l old.1;
  }
