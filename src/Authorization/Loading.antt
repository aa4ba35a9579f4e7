-- ===== src/Authorization/Loading.antt =====
-- The two loops of `AuthorizationSnapshot::new`, and when they meet a duplicate.
use mathlib.Core.List.{lookup}
use tunnel_proxy.Common.{
  ◌≡◌, refl, sym, subst, inl, inr, ◌↔◌, List, [], ◌∷◌, All, All-map, All-intro, Option-cases,
}
use tunnel_proxy.Common.Results.{ok, Result-cases}
use tunnel_proxy.Common.Dict.{insert}
use tunnel_proxy.Common.Collect.{
  Collects, ends, loads, AllApart, Collects-AllApart, AllApart-Collects, Collects-vals,
}
use tunnel_proxy.Authorization.Snapshot.{
  TunnelStatus, TunnelGrant, AgentGrant, AuthorizedAgent, AuthorizationSnapshot, collect_tunnels,
  collect_agents, new,
}

module _ {Certificate AgentId TunnelId : Type 0} (certificate_dec : Discrete Certificate)
    (agent_dec : Discrete AgentId) (tunnel_dec : Discrete TunnelId) where
  abbrev pub IsTunnels :
      List (TunnelGrant TunnelId)
      → List (TunnelId × TunnelStatus)
      → List (TunnelId × TunnelStatus)
      → Type 0
  IsTunnels ts m m' =
      Collects tunnel_dec (λ (t : TunnelGrant TunnelId). t.tunnel_id) (λ t s. t.status ≡ s) ts m m'

  pub collect_tunnels-IsTunnels :
      (agent : AgentId) (ts : List (TunnelGrant TunnelId)) (m m' : List (TunnelId × TunnelStatus))
      → collect_tunnels certificate_dec agent_dec tunnel_dec agent ts m ≡ ok m'
      → IsTunnels ts m m'
  unfolding collect_tunnels
  collect_tunnels-IsTunnels agent [] m m' h =
      let e : m ≡ m' = cc h in subst (IsTunnels [] m) e (ends m)
  collect_tunnels-IsTunnels agent (t ∷ ts) m m' h =
      elim (Option-cases (lookup tunnel_dec t.tunnel_id m)) [
        | inr (s, there) ↦ absurd (let h' = rw there at h in cc h')
        | inl fresh ↦ loads t ts t.status m m' fresh refl (
            collect_tunnels-IsTunnels agent ts (insert tunnel_dec t.tunnel_id t.status m) m'
              (rw fresh at h))
      ]

  pub IsTunnels-collect_tunnels :
      (agent : AgentId) (ts : List (TunnelGrant TunnelId)) (m m' : List (TunnelId × TunnelStatus))
      → IsTunnels ts m m'
      → collect_tunnels certificate_dec agent_dec tunnel_dec agent ts m ≡ ok m'
  unfolding collect_tunnels
  IsTunnels-collect_tunnels agent _ _ _ (ends m) = refl
  IsTunnels-collect_tunnels agent _ _ _ (loads t ts s m m' fresh is rest) =
      rw (fresh, is) (IsTunnels-collect_tunnels agent ts _ m' rest)

  -- The entry that a grant becomes.
  abbrev pub IsAgent :
      AgentGrant Certificate AgentId TunnelId → AuthorizedAgent AgentId TunnelId → Type 0
  IsAgent g w =
      (m : List (TunnelId × TunnelStatus)) × (collect_tunnels certificate_dec agent_dec tunnel_dec
          g.agent_id g.tunnels []
        ≡ ok m)
      × (w ≡ record { agent_id = g.agent_id; tunnels = m })

  abbrev pub IsAgents :
      List (AgentGrant Certificate AgentId TunnelId)
      → List (Certificate × AuthorizedAgent AgentId TunnelId)
      → List (Certificate × AuthorizedAgent AgentId TunnelId)
      → Type 0
  IsAgents gs m m' =
      Collects certificate_dec (λ (g : AgentGrant Certificate AgentId TunnelId). g.certificate)
        IsAgent gs m m'

  pub collect_agents-IsAgents :
      (gs : List (AgentGrant Certificate AgentId TunnelId))
      (m m' : List (Certificate × AuthorizedAgent AgentId TunnelId))
      → collect_agents certificate_dec agent_dec tunnel_dec gs m ≡ ok m'
      → IsAgents gs m m'
  unfolding collect_agents
  collect_agents-IsAgents [] m m' h = let e : m ≡ m' = cc h in subst (IsAgents [] m) e (ends m)
  collect_agents-IsAgents (g ∷ gs) m m' h =
      elim (Result-cases
        (collect_tunnels certificate_dec agent_dec tunnel_dec g.agent_id g.tunnels [])) [
          | inr (e, p) ↦ absurd (let h' = rw p at h in cc h')
          | inl (ts, p) ↦
              let h₁ = rw p at h in
              elim (Option-cases (lookup certificate_dec g.certificate m)) [
                | inr (s, there) ↦ absurd (let h' = rw there at h₁ in cc h')
                | inl fresh ↦
                    let w : AuthorizedAgent AgentId TunnelId = record {
                      agent_id = g.agent_id;
                      tunnels = ts;
                    } in
                    loads g gs w m m' fresh (ts, p, refl)
                      (collect_agents-IsAgents gs (insert certificate_dec g.certificate w m) m'
                        (rw fresh at h₁))
              ]
        ]

  pub IsAgents-collect_agents :
      (gs : List (AgentGrant Certificate AgentId TunnelId))
      (m m' : List (Certificate × AuthorizedAgent AgentId TunnelId))
      → IsAgents gs m m'
      → collect_agents certificate_dec agent_dec tunnel_dec gs m ≡ ok m'
  unfolding collect_agents
  IsAgents-collect_agents _ _ _ (ends m) = refl
  IsAgents-collect_agents _ _ _ (loads g gs w m m' fresh (ts, p, e) rest) =
      rw (p, fresh, sym e) (IsAgents-collect_agents gs _ m' rest)

  pub new-IsAgents :
      (gs : List (AgentGrant Certificate AgentId TunnelId))
      (s : AuthorizationSnapshot Certificate AgentId TunnelId)
      → new certificate_dec agent_dec tunnel_dec gs ≡ ok s
      → IsAgents gs [] s.agents
  unfolding new
  new-IsAgents gs s h =
      elim (Result-cases (collect_agents certificate_dec agent_dec tunnel_dec gs [])) [
        | inr (e, p) ↦ absurd (let h' = rw p at h in cc h')
        | inl (m, p) ↦
            let same : record { agents = m } ≡ s = let h' = rw p at h in cc h' in
            subst (λ t. IsAgents gs [] t.agents) same (collect_agents-IsAgents gs [] m p)
      ]

  -- No certificate stands twice, and within a grant no tunnel does.
  pub record IsUnambiguous (gs : List (AgentGrant Certificate AgentId TunnelId)) : Type 0 where
    pub certificates : AllApart certificate_dec (λ g. g.certificate) IsAgent gs
    pub tunnels :
        All
          (λ g.
            AllApart tunnel_dec
              (λ (t : TunnelGrant TunnelId). t.tunnel_id)
              (λ t s. t.status ≡ s)
              g.tunnels)
          gs

  vals_of_tunnels :
      (ts : List (TunnelGrant TunnelId)) → All (λ t. (s : TunnelStatus) × (t.status ≡ s)) ts
  vals_of_tunnels [] = tt
  vals_of_tunnels (t ∷ ts) = ((t.status, refl), vals_of_tunnels ts)

  -- The grant of one agent loads if no tunnel stands twice.
  grant-IsAgent :
      (g : AgentGrant Certificate AgentId TunnelId)
      → AllApart tunnel_dec
          (λ (t : TunnelGrant TunnelId). t.tunnel_id)
          (λ t s. t.status ≡ s)
          g.tunnels
      → (w : AuthorizedAgent AgentId TunnelId) × IsAgent g w
  unfolding lookup
  grant-IsAgent g apart =
      let (m, load) =
        AllApart-Collects tunnel_dec _ (λ t s. t.status ≡ s) g.tunnels [] apart
          (vals_of_tunnels g.tunnels) (All-intro _ g.tunnels (λ t. refl)) in
      (_, (m, IsTunnels-collect_tunnels g.agent_id g.tunnels [] m load, refl))

  IsAgent-AllApart :
      (g : AgentGrant Certificate AgentId TunnelId) (w : AuthorizedAgent AgentId TunnelId)
      → IsAgent g w
      → AllApart tunnel_dec
          (λ (t : TunnelGrant TunnelId). t.tunnel_id)
          (λ t s. t.status ≡ s)
          g.tunnels
  IsAgent-AllApart g w (m, p, q) =
      Collects-AllApart tunnel_dec _ _ g.tunnels [] m
        (collect_tunnels-IsTunnels g.agent_id g.tunnels [] m p)

  new-IsUnambiguous :
      (gs : List (AgentGrant Certificate AgentId TunnelId))
      (s : AuthorizationSnapshot Certificate AgentId TunnelId)
      → new certificate_dec agent_dec tunnel_dec gs ≡ ok s
      → IsUnambiguous gs
  new-IsUnambiguous gs s made =
      let load = new-IsAgents gs s made in
      record {
        certificates = Collects-AllApart certificate_dec _ IsAgent gs [] s.agents load;
        tunnels =
            All-map (λ g h. IsAgent-AllApart g h.0 h.1) gs
              (Collects-vals certificate_dec _ IsAgent gs [] s.agents load);
      }

  -- `new` accepts a list of grants if and only if no certificate stands in two of them and none of
  -- them lists a tunnel twice.
  pub new-IsUnambiguous_iff :
      (gs : List (AgentGrant Certificate AgentId TunnelId))
      → ((s : AuthorizationSnapshot Certificate AgentId TunnelId) × (new certificate_dec agent_dec
              tunnel_dec gs
            ≡ ok s))
        ↔ IsUnambiguous gs
  unfolding new lookup
  new-IsUnambiguous_iff gs = (
    λ made. new-IsUnambiguous gs made.0 made.1,
    λ u.
        let (m, load) =
          AllApart-Collects certificate_dec _ IsAgent gs [] u.certificates
            (All-map grant-IsAgent gs u.tunnels) (All-intro _ gs (λ g. refl)) in
        (record { agents = m }, rw (IsAgents-collect_agents gs [] m load) refl),
  )
