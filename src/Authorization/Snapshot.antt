-- ===== src/Authorization/Snapshot.antt =====
-- `AuthorizationSnapshot`: `new` and `authorize`. An error drops the maps under construction, so
-- the tests of `insert(..).is_some()` stand before the insertions.
use mathlib.Core.List.{lookup}
use tunnel_proxy.Common.{Bool, true, false, Option, none, some, List, [], ◌∷◌, ◌||◌, ℕ, length}
use tunnel_proxy.Common.Results.{Result, ok, err, ◌>>=◌, ◌>>◌, reject_if}
use tunnel_proxy.Common.Dict.{insert}

pub data TunnelStatus : Type 0 where
  enabled disabled : TunnelStatus

pub record TunnelGrant (TunnelId : Type 0) : Type 0 where
  pub tunnel_id : TunnelId
  pub status : TunnelStatus

pub record AgentGrant (Certificate AgentId TunnelId : Type 0) : Type 0 where
  pub certificate : Certificate
  pub agent_id : AgentId
  pub tunnels : List (TunnelGrant TunnelId)

pub record AuthorizedAgent (AgentId TunnelId : Type 0) : Type 0 where
  pub agent_id : AgentId
  pub tunnels : List (TunnelId × TunnelStatus)

pub record AuthorizationSnapshot (Certificate AgentId TunnelId : Type 0) : Type 0 where
  pub agents : List (Certificate × AuthorizedAgent AgentId TunnelId)

pub data SnapshotError (Certificate AgentId TunnelId : Type 0) : Type 0 where
  duplicate_certificate : Certificate → SnapshotError Certificate AgentId TunnelId
  duplicate_tunnel : AgentId → TunnelId → SnapshotError Certificate AgentId TunnelId

pub data AuthorizationError : Type 0 where
  unknown_certificate agent_mismatch tunnel_not_authorized tunnel_disabled : AuthorizationError

abbrev pub any : {A : Type 0} → (A → Bool) → List A → Bool
any p [] = false
any p (x ∷ xs) = p x || any p xs

abbrev pub is_some : {A : Type 0} → Option A → Bool
is_some none = false
is_some (some a) = true

-- `agent_id != other`
abbrev pub differs : {A : Type 0} → Discrete A → A → A → Bool
differs dec a b = elim (dec a b) [ yes e ↦ false | no e ↦ true ]

unfoldable pub check_status : Option TunnelStatus → Result AuthorizationError (Unit {0})
check_status (some disabled) = err tunnel_disabled
check_status (some enabled) = ok tt
check_status none = err tunnel_not_authorized

module _ {Certificate AgentId TunnelId : Type 0} (certificate_dec : Discrete Certificate)
    (agent_dec : Discrete AgentId) (tunnel_dec : Discrete TunnelId) where
  -- The inner loop of `new`, for the grant of one agent.
  unfoldable pub collect_tunnels :
      AgentId
      → List (TunnelGrant TunnelId)
      → List (TunnelId × TunnelStatus)
      → Result (SnapshotError Certificate AgentId TunnelId) (List (TunnelId × TunnelStatus))
  collect_tunnels agent [] tunnels = ok tunnels
  collect_tunnels agent (tunnel ∷ rest) tunnels = do
    reject_if (is_some (lookup tunnel_dec tunnel.tunnel_id tunnels))
        (duplicate_tunnel agent tunnel.tunnel_id)
    collect_tunnels agent rest (insert tunnel_dec tunnel.tunnel_id tunnel.status tunnels)

  unfoldable pub collect_agents :
      List (AgentGrant Certificate AgentId TunnelId)
      → List (Certificate × AuthorizedAgent AgentId TunnelId)
      → Result
          (SnapshotError Certificate AgentId TunnelId)
          (List (Certificate × AuthorizedAgent AgentId TunnelId))
  collect_agents [] agents = ok agents
  collect_agents (grant ∷ rest) agents = do
    tunnels ← collect_tunnels grant.agent_id grant.tunnels []
    reject_if (is_some (lookup certificate_dec grant.certificate agents))
        (duplicate_certificate grant.certificate)
    collect_agents rest (
        insert certificate_dec grant.certificate
          (record { agent_id = grant.agent_id; tunnels = tunnels }) agents)

  unfoldable pub new :
      List (AgentGrant Certificate AgentId TunnelId)
      → Result
          (SnapshotError Certificate AgentId TunnelId)
          (AuthorizationSnapshot Certificate AgentId TunnelId)
  new grants = do agents ← collect_agents grants []; ok (record { agents = agents })

  unfoldable pub check_agent :
      AgentId
      → TunnelId
      → Option (AuthorizedAgent AgentId TunnelId)
      → Result AuthorizationError (Unit {0})
  check_agent agent_id tunnel_id none = err unknown_certificate
  check_agent agent_id tunnel_id (some agent) = do
    reject_if (differs agent_dec agent.agent_id agent_id) agent_mismatch
    check_status (lookup tunnel_dec tunnel_id agent.tunnels)

  unfoldable pub authorize :
      AuthorizationSnapshot Certificate AgentId TunnelId
      → Certificate
      → AgentId
      → TunnelId
      → Result AuthorizationError (Unit {0})
  authorize s certificate agent_id tunnel_id =
      check_agent agent_id tunnel_id (lookup certificate_dec certificate s.agents)

  -- The tunnel is in the map of some agent.
  unfoldable pub contains_tunnel :
      AuthorizationSnapshot Certificate AgentId TunnelId → TunnelId → Bool
  contains_tunnel s tunnel_id =
      any (λ entry. is_some (lookup tunnel_dec tunnel_id entry.1.tunnels)) s.agents

unfoldable pub certificate_count :
    {Certificate AgentId TunnelId : Type 0} → AuthorizationSnapshot Certificate AgentId TunnelId → ℕ
certificate_count s = length s.agents

abbrev pub agent_grant_new :
    {Certificate AgentId TunnelId : Type 0}
    → Certificate
    → AgentId
    → List (TunnelGrant TunnelId)
    → AgentGrant Certificate AgentId TunnelId
agent_grant_new certificate agent_id tunnels = record {
  certificate = certificate;
  agent_id = agent_id;
  tunnels = tunnels;
}

abbrev pub tunnel_grant_new : {TunnelId : Type 0} → TunnelId → TunnelStatus → TunnelGrant TunnelId
tunnel_grant_new tunnel_id status = record { tunnel_id = tunnel_id; status = status }
