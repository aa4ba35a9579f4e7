-- ===== src/Authorization/Grants.antt =====
-- `new` and `authorize` against the list of grants that they are given.
use mathlib.Core.List.{lookup, Memᴰ}
use tunnel_proxy.Common.{
  ◌≡◌, refl, sym, ap, subst, ◌∙◌, inl, inr, ◌↔◌, Option, none, some, List, [], arith,
}
use tunnel_proxy.Common.Results.{ok}
use tunnel_proxy.Common.Collect.{Collects-has, Collects-from}
use tunnel_proxy.Authorization.Loading.{collect_tunnels-IsTunnels, IsAgent, new-IsAgents}
use tunnel_proxy.Authorization.Snapshot.{
  TunnelStatus, enabled, disabled, TunnelGrant, AgentGrant, AuthorizedAgent, AuthorizationSnapshot,
  collect_tunnels, new, check_status, check_agent, authorize,
}

module _ {Certificate AgentId TunnelId : Type 0} (certificate_dec : Discrete Certificate)
    (agent_dec : Discrete AgentId) (tunnel_dec : Discrete TunnelId) where
  -- A grant names the certificate with the agent, and the tunnel among those enabled for it.
  abbrev pub Permits :
      List (AgentGrant Certificate AgentId TunnelId) → Certificate → AgentId → TunnelId → Type 0
  Permits gs c a t =
      (g : AgentGrant Certificate AgentId TunnelId) × Memᴰ g gs
      × (g.certificate ≡ c)
      × (g.agent_id ≡ a)
      × Memᴰ (record { tunnel_id = t; status = enabled }) g.tunnels

  check_status-ok : (o : Option TunnelStatus) → check_status o ≡ ok tt → o ≡ some enabled
  unfolding check_status
  check_status-ok none h = cc
  check_status-ok (some enabled) h = refl
  check_status-ok (some disabled) h = cc

  -- The entry of the agent, and its answer.
  check_agent-ok :
      (a : AgentId) (t : TunnelId) (o : Option (AuthorizedAgent AgentId TunnelId))
      → check_agent certificate_dec agent_dec tunnel_dec a t o ≡ ok tt
      → (w : AuthorizedAgent AgentId TunnelId) × (o ≡ some w)
        × (w.agent_id ≡ a)
        × (lookup tunnel_dec t w.tunnels ≡ some enabled)
  unfolding check_agent
  check_agent-ok a t none h = absurd (cc h)
  check_agent-ok a t (some w) h = elim (agent_dec w.agent_id a) [
    | yes same ↦ (w, refl, same, check_status-ok _ (ground arith))
    | no ne ↦ absurd (ground arith)
  ]

  grant_by :
      (g : TunnelGrant TunnelId) (t : TunnelId) (s : TunnelStatus)
      → g.tunnel_id ≡ t
      → g.status ≡ s
      → g ≡ record { tunnel_id = t; status = s }
  grant_by g t s e f = rw (sym e, sym f) refl

  -- A status found in the map of an agent is one of its grant.
  tunnels-listed :
      (agent : AgentId) (ts : List (TunnelGrant TunnelId)) (m : List (TunnelId × TunnelStatus))
      (t : TunnelId) (s : TunnelStatus)
      → collect_tunnels certificate_dec agent_dec tunnel_dec agent ts [] ≡ ok m
      → lookup tunnel_dec t m ≡ some s
      → Memᴰ (record { tunnel_id = t; status = s }) ts
  unfolding lookup
  tunnels-listed agent ts m t s p l =
      elim (Collects-from tunnel_dec _ _ ts [] m t s
        (collect_tunnels-IsTunnels certificate_dec agent_dec tunnel_dec agent ts [] m p) l) [
          | inl none_there ↦ absurd (cc none_there)
          | inr (g, i, e, f) ↦ subst (λ x. Memᴰ x ts) (grant_by g t s e f) i
        ]

  listed-tunnels :
      (agent : AgentId) (ts : List (TunnelGrant TunnelId)) (m : List (TunnelId × TunnelStatus))
      (t : TunnelId) (s : TunnelStatus)
      → collect_tunnels certificate_dec agent_dec tunnel_dec agent ts [] ≡ ok m
      → Memᴰ (record { tunnel_id = t; status = s }) ts
      → lookup tunnel_dec t m ≡ some s
  listed-tunnels agent ts m t s p i =
      let (s', e, l) =
        Collects-has tunnel_dec _ _ ts [] m _
          (collect_tunnels-IsTunnels certificate_dec agent_dec tunnel_dec agent ts [] m p) i in
      l ∙ ap some (sym e)

  authorize-Permits :
      (gs : List (AgentGrant Certificate AgentId TunnelId))
      (s : AuthorizationSnapshot Certificate AgentId TunnelId) (c : Certificate) (a : AgentId)
      (t : TunnelId)
      → new certificate_dec agent_dec tunnel_dec gs ≡ ok s
      → authorize certificate_dec agent_dec tunnel_dec s c a t ≡ ok tt
      → Permits gs c a t
  unfolding authorize lookup
  authorize-Permits gs s c a t made h =
      let (w, l, same, l') = check_agent-ok a t _ h in
      elim (Collects-from certificate_dec _ (IsAgent certificate_dec agent_dec tunnel_dec) gs []
        s.agents c w (new-IsAgents certificate_dec agent_dec tunnel_dec gs s made) l) [
          | inl none_there ↦ absurd (cc none_there)
          | inr (g, i, e, (ts, p, q)) ↦
              let l'' : lookup tunnel_dec t ts ≡ some enabled =
                subst (λ x. lookup tunnel_dec t x.tunnels ≡ some enabled) q l' in
              let named : g.agent_id ≡ a = subst (λ x. x.agent_id ≡ a) q same in
              (g, i, e, named, tunnels-listed g.agent_id g.tunnels ts t enabled p l'')
        ]

  check_agent-named :
      (w : AuthorizedAgent AgentId TunnelId) (a : AgentId) (t : TunnelId)
      → w.agent_id ≡ a
      → check_agent certificate_dec agent_dec tunnel_dec a t (some w)
        ≡ check_status (lookup tunnel_dec t w.tunnels)
  unfolding check_agent
  check_agent-named w a t e = ground arith

  Permits-authorize :
      (gs : List (AgentGrant Certificate AgentId TunnelId))
      (s : AuthorizationSnapshot Certificate AgentId TunnelId) (c : Certificate) (a : AgentId)
      (t : TunnelId)
      → new certificate_dec agent_dec tunnel_dec gs ≡ ok s
      → Permits gs c a t
      → authorize certificate_dec agent_dec tunnel_dec s c a t ≡ ok tt
  unfolding authorize check_status
  Permits-authorize gs s c a t made (g, i, e, f, j) =
      let (w, (ts, p, q), l) =
        Collects-has certificate_dec _ (IsAgent certificate_dec agent_dec tunnel_dec) gs [] s.agents
          g (new-IsAgents certificate_dec agent_dec tunnel_dec gs s made) i in
      let found : lookup certificate_dec c s.agents ≡ some w =
        subst (λ x. lookup certificate_dec x s.agents ≡ some w) e l in
      let named : w.agent_id ≡ a = subst (λ x. x.agent_id ≡ a) (sym q) f in
      let on : lookup tunnel_dec t w.tunnels ≡ some enabled =
        subst (λ x. lookup tunnel_dec t x.tunnels ≡ some enabled) (sym q)
          (listed-tunnels g.agent_id g.tunnels ts t enabled p j) in
      rw (found, check_agent-named w a t named, on) refl

  -- A snapshot made from grants authorizes exactly what the grants say: an agent may open a tunnel
  -- with a certificate if and only if one of the grants names that certificate with that agent and
  -- lists the tunnel as enabled. A grant that is missing is therefore revoked.
  pub authorize-Permits_iff :
      (gs : List (AgentGrant Certificate AgentId TunnelId))
      (s : AuthorizationSnapshot Certificate AgentId TunnelId) (c : Certificate) (a : AgentId)
      (t : TunnelId)
      → new certificate_dec agent_dec tunnel_dec gs ≡ ok s
      → (authorize certificate_dec agent_dec tunnel_dec s c a t ≡ ok tt) ↔ Permits gs c a t
  authorize-Permits_iff gs s c a t made =
      (authorize-Permits gs s c a t made, Permits-authorize gs s c a t made)
