-- ===== src/Authorization/Tests.antt =====
-- Concrete grants and publications; certificates, agents and tunnels are numbers.
use mathlib.Core.List.{lookup}
use tunnel_proxy.Common.{ℕ, ◌≡◌, refl, ◌↔◌, List, [], ◌∷◌, ◌==◌, ℕ_discrete, true, false}
use tunnel_proxy.Common.Results.{ok, err}
use tunnel_proxy.Common.Dict.{insert}
use tunnel_proxy.Authorization.Snapshot.{
  enabled, disabled, TunnelGrant, AgentGrant, AuthorizationSnapshot, duplicate_certificate,
  unknown_certificate, agent_mismatch, tunnel_disabled, tunnel_not_authorized, collect_tunnels,
  collect_agents, new, check_status, check_agent, authorize, contains_tunnel, certificate_count,
}
use tunnel_proxy.Authorization.Loading.{IsUnambiguous, new-IsUnambiguous_iff}
use tunnel_proxy.Authorization.Grants.{Permits, authorize-Permits_iff}
use tunnel_proxy.Authorization.Publisher.{
  Watch, live, stale, VersionedAuthorizationSnapshot, SnapshotPublisherState,
  authorization_snapshot_channel, publish, set_source_health, stale_version, conflicting_version,
  unchanged, applied, Call, publishes, sets_health, step, run,
}
use tunnel_proxy.Authorization.Versions.{
  Follows, run-Follows, authorization_snapshot_channel-IsSynced,
}

program : Unit {0}
unfolding ℕ_discrete lookup insert collect_tunnels collect_agents new check_status check_agent
    authorize authorization_snapshot_channel publish set_source_health step run
program = tt

abbrev tunnels : List (TunnelGrant ℕ)
tunnels =
    record { tunnel_id = 10; status = enabled } ∷ record { tunnel_id = 11; status = disabled } ∷ []

abbrev grants : List (AgentGrant ℕ ℕ ℕ)
grants = record { certificate = 7; agent_id = 1; tunnels = tunnels } ∷ []

abbrev made : AuthorizationSnapshot ℕ ℕ ℕ
made = record {
  agents = (7, record { agent_id = 1; tunnels = (10, enabled) ∷ (11, disabled) ∷ [] }) ∷ [];
}

new-grants : new ℕ_discrete ℕ_discrete ℕ_discrete grants ≡ ok made
unfolding program
new-grants = refl

answers :
    (authorize ℕ_discrete ℕ_discrete ℕ_discrete made 8 1 10 ≡ err unknown_certificate)
    × (authorize ℕ_discrete ℕ_discrete ℕ_discrete made 7 2 10 ≡ err agent_mismatch)
    × (authorize ℕ_discrete ℕ_discrete ℕ_discrete made 7 1 12 ≡ err tunnel_not_authorized)
    × (authorize ℕ_discrete ℕ_discrete ℕ_discrete made 7 1 11 ≡ err tunnel_disabled)
    × (authorize ℕ_discrete ℕ_discrete ℕ_discrete made 7 1 10 ≡ ok tt)
unfolding program
answers = (refl, refl, refl, refl, refl)

abbrev one_grant : AgentGrant ℕ ℕ ℕ
one_grant = record { certificate = 7; agent_id = 2; tunnels = [] }

rejects_duplicate :
    new ℕ_discrete ℕ_discrete ℕ_discrete (one_grant ∷ grants) ≡ err (duplicate_certificate 7)
unfolding program
rejects_duplicate = refl

authorize-Permits_iff_example :
    (authorize ℕ_discrete ℕ_discrete ℕ_discrete made 7 1 10 ≡ ok tt)
    ↔ Permits ℕ_discrete ℕ_discrete ℕ_discrete grants 7 1 10
authorize-Permits_iff_example =
    authorize-Permits_iff ℕ_discrete ℕ_discrete ℕ_discrete grants made 7 1 10 new-grants

new-IsUnambiguous_iff_example :
    ((s : AuthorizationSnapshot ℕ ℕ ℕ) × (new ℕ_discrete ℕ_discrete ℕ_discrete grants ≡ ok s))
    ↔ IsUnambiguous ℕ_discrete ℕ_discrete ℕ_discrete grants
new-IsUnambiguous_iff_example = new-IsUnambiguous_iff ℕ_discrete ℕ_discrete ℕ_discrete grants

-- A channel that is its latest value.
abbrev latest : Watch (VersionedAuthorizationSnapshot ℕ) (VersionedAuthorizationSnapshot ℕ)
latest = record {
  channel = λ v. v;
  send_replace = λ c v. v;
  borrow = λ c. c;
  borrow-channel = λ v. refl;
  borrow-send_replace = λ c v. refl;
}

abbrev versioned : ℕ → ℕ → VersionedAuthorizationSnapshot ℕ
versioned version snapshot = record { version = version; snapshot = snapshot }

abbrev first : SnapshotPublisherState ℕ (VersionedAuthorizationSnapshot ℕ)
first = record { current = versioned 3 30; updates = versioned 3 30; health = live }

abbrev calls : List (Call latest ◌==◌)
calls = publishes (versioned 2 20) ∷ publishes (versioned 5 50) ∷ sets_health stale ∷ []

outcomes :
    ((publish latest ◌==◌ first (versioned 2 20)).0 ≡ err (stale_version 3 2))
    × ((publish latest ◌==◌ first (versioned 3 31)).0 ≡ err (conflicting_version 3))
    × ((publish latest ◌==◌ first (versioned 3 30)).0 ≡ ok (unchanged 3))
    × ((publish latest ◌==◌ first (versioned 5 50)).0 ≡ ok (applied 3 5))
    × ((run latest ◌==◌ first calls).current ≡ versioned 5 50)
unfolding program
outcomes = (refl, refl, refl, refl, refl)

run-Follows_example :
    Follows latest ◌==◌
      (authorization_snapshot_channel latest ◌==◌ (versioned 3 30))
      (run latest ◌==◌ (authorization_snapshot_channel latest ◌==◌ (versioned 3 30)) calls)
run-Follows_example =
    run-Follows latest ◌==◌ (authorization_snapshot_channel latest ◌==◌ (versioned 3 30)) calls
      (authorization_snapshot_channel-IsSynced latest ◌==◌ (versioned 3 30))

contains :
    (contains_tunnel ℕ_discrete ℕ_discrete ℕ_discrete made 11 ≡ true)
    × (contains_tunnel ℕ_discrete ℕ_discrete ℕ_discrete made 12 ≡ false)
    × (certificate_count made ≡ 1)
unfolding program contains_tunnel certificate_count
contains = (refl, refl, refl)
