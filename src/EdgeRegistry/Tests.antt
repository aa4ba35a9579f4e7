-- ===== src/EdgeRegistry/Tests.antt =====
-- An edge with one session, and the theorems at it. Certificates, agents and tunnels are numbers.
use mathlib.Core.List.{lookup}
use tunnel_proxy.Common.{ℕ, ◌≡◌, ◌⊎◌, ◌↔◌, refl, true, false, none, some, [], ◌∷◌, ℕ_discrete}
use tunnel_proxy.Common.Results.{err}
use tunnel_proxy.Common.Dict.{insert, remove}
use tunnel_proxy.Codes.Sequence.{session_id_new}
use tunnel_proxy.Authorization.Snapshot as Snapshot
use tunnel_proxy.Authorization.Snapshot.{AuthorizationSnapshot, enabled}
use tunnel_proxy.Authorization.Publisher.{VersionedAuthorizationSnapshot, SnapshotSourceHealth}
use tunnel_proxy.Multiplex.Errors as Errors
use tunnel_proxy.Multiplex.Session.Model.{sent}
use tunnel_proxy.EdgeRegistry.Policy.{
  AuthorizedRegistration, mutual_tls, handshake_code, has_code, is_authorized_by,
  principal_is_authorized, reauthorize, reauthorize-principal_is_authorized,
}
use tunnel_proxy.EdgeRegistry.Model.{
  LiveSession, EdgeRegistry, EdgeAuthorizationStatus, live, next_id, claim_unless, claim,
  publish_session, keys, resolve_tunnel, open_tunnel_io, queued, reconcile, revoke, revoked_ids,
  remove_all, retain_bindings, contains,
}
use tunnel_proxy.EdgeRegistry.Revocation.{reconcile-sessions_iff}
use tunnel_proxy.EdgeRegistry.System.{
  empty_registry, Reaches, starts, registers, publishes, IsSound,
}
use tunnel_proxy.EdgeRegistry.Routing.{Reaches-IsSound, open_tunnel_io-cases}

abbrev Principal : Type 0
Principal = AuthorizedRegistration ℕ ℕ ℕ

program : Unit {0}
unfolding ℕ_discrete lookup insert remove session_id_new next_id claim_unless claim publish_session
    keys reconcile revoke revoked_ids remove_all retain_bindings contains Snapshot.check_status
    Snapshot.check_agent Snapshot.authorize has_code handshake_code is_authorized_by
    principal_is_authorized
program = tt

abbrev as_is : {A : Type 0} → A → A
as_is a = a

abbrev tunnel_of : Principal → ℕ
tunnel_of p = p.tunnel_id

abbrev first_status : EdgeAuthorizationStatus
first_status = record { version = some 1; source = live; revoked_sessions = 0 }

abbrev principal : Principal
principal = record {
  certificate = some 40;
  agent_id = 50;
  tunnel_id = 60;
  snapshot_version = some 1;
}

abbrev session : LiveSession Principal
session = record { commands = 70; authorization = principal }

abbrev claimed : EdgeRegistry Principal ℕ
claimed = record (empty_registry first_status) { claims = (60, tt) ∷ [] }

abbrev allocated : EdgeRegistry Principal ℕ
allocated = record claimed { counter = 1 }

abbrev one_live : EdgeRegistry Principal ℕ
one_live = record allocated {
  sessions = (1, session) ∷ [];
  tunnels = (60, 1) ∷ [];
  session_updates = 1 ∷ [];
  tunnel_updates = (60, 1) ∷ [];
}

one_live-Reaches : Reaches tunnel_of ℕ_discrete as_is as_is one_live ((1, principal) ∷ [])
unfolding program
one_live-Reaches =
    publishes allocated one_live ((1, principal) ∷ []) true 1 session
      (registers (empty_registry first_status) claimed allocated [] principal 60 1
        (starts first_status refl refl) refl refl)
      refl refl refl

abbrev granting : VersionedAuthorizationSnapshot (AuthorizationSnapshot ℕ ℕ ℕ)
granting = record {
  version = 2;
  snapshot = record { agents = (40, record { agent_id = 50; tunnels = (60, enabled) ∷ [] }) ∷ [] };
}

abbrev denying : VersionedAuthorizationSnapshot (AuthorizationSnapshot ℕ ℕ ℕ)
denying = record { version = 3; snapshot = record { agents = [] } }

kept_by_grant :
    (reconcile ℕ_discrete as_is as_is
      (principal_is_authorized ℕ_discrete ℕ_discrete ℕ_discrete granting)
      2
      live
      one_live).sessions
    ≡ (1, session) ∷ []
unfolding program
kept_by_grant = refl

revoked_without :
    (reconcile ℕ_discrete as_is as_is
      (principal_is_authorized ℕ_discrete ℕ_discrete ℕ_discrete denying)
      3
      live
      one_live).tunnels
    ≡ []
unfolding program
revoked_without = refl

Reaches-IsSound_example : IsSound tunnel_of ℕ_discrete as_is as_is one_live ((1, principal) ∷ [])
Reaches-IsSound_example =
    Reaches-IsSound tunnel_of ℕ_discrete as_is as_is one_live ((1, principal) ∷ []) one_live-Reaches

open_tunnel_io-cases_example :
    ((resolve_tunnel ℕ_discrete 60 one_live ≡ none)
      × (open_tunnel_io ℕ_discrete (λ sender. sent) 60 one_live
          ≡ err (Errors.RouteError.tunnel_not_connected 60)))
    ⊎ ((id : ℕ) × (found : LiveSession Principal) × (lookup ℕ_discrete id one_live.sessions
          ≡ some found)
        × (tunnel_of found.authorization ≡ 60)
        × (open_tunnel_io ℕ_discrete (λ sender. sent) 60 one_live ≡ queued id found.commands sent))
open_tunnel_io-cases_example =
    open_tunnel_io-cases tunnel_of ℕ_discrete as_is as_is one_live ((1, principal) ∷ [])
      (λ sender. sent) 60 one_live-Reaches refl

reconcile-sessions_iff_example :
    (lookup ℕ_discrete 1
        (reconcile ℕ_discrete as_is as_is
          (principal_is_authorized ℕ_discrete ℕ_discrete ℕ_discrete granting)
          2
          live
          one_live).sessions
      ≡ some session)
    ↔ ((lookup ℕ_discrete 1 one_live.sessions ≡ some session)
        × (principal_is_authorized ℕ_discrete ℕ_discrete ℕ_discrete granting principal ≡ true))
reconcile-sessions_iff_example =
    reconcile-sessions_iff tunnel_of ℕ_discrete as_is as_is
      (principal_is_authorized ℕ_discrete ℕ_discrete ℕ_discrete granting) 2 live one_live 1 session
      (Reaches-IsSound tunnel_of ℕ_discrete as_is as_is one_live ((1, principal) ∷ [])
        one_live-Reaches).consistent

reauthorize-principal_is_authorized_example :
    reauthorize ℕ_discrete ℕ_discrete ℕ_discrete
      (mutual_tls granting SnapshotSourceHealth.live false false)
      principal
    ≡ principal_is_authorized ℕ_discrete ℕ_discrete ℕ_discrete granting principal
reauthorize-principal_is_authorized_example =
    reauthorize-principal_is_authorized ℕ_discrete ℕ_discrete ℕ_discrete granting
      SnapshotSourceHealth.live false false principal
