-- ===== src/EdgeRegistry/Policy.antt =====
-- `EdgeRegistrationPolicy` of crates/edge/src/tls.rs: who may register which tunnel.
use tunnel_proxy.Common.{
  ℕ, Bool, true, false, not, ◌&&◌, ◌||◌, ◌≡◌, refl, Option, none, some, List, if◌then◌else◌,
}
use tunnel_proxy.Common.Results.{Result, ok, err, ◌>>=◌}
use tunnel_proxy.Authorization.Snapshot as Snapshot
use tunnel_proxy.Authorization.Snapshot.{
  AuthorizationSnapshot, AuthorizationError, unknown_certificate, agent_mismatch,
  tunnel_not_authorized, tunnel_disabled, any,
}
use tunnel_proxy.Authorization.Publisher.{VersionedAuthorizationSnapshot, SnapshotSourceHealth}
use tunnel_proxy.Codes.Handshake as Handshake
use tunnel_proxy.Codes.Handshake.{HandshakeErrorCode, unauthorized_agent, unauthorized_tunnel}

pub record RegistrationRequest (AgentId TunnelId : Type 0) : Type 0 where
  pub agent_id : AgentId
  pub tunnel_id : TunnelId

-- The identity that a registration has established.
pub record AuthorizedRegistration (Certificate AgentId TunnelId : Type 0) : Type 0 where
  pub certificate : Option Certificate
  pub agent_id : AgentId
  pub tunnel_id : TunnelId
  pub snapshot_version : Option ℕ

-- A subscription is what it holds when it is asked: the current snapshot and the source's health.
-- Of the retained publisher only its presence matters.
pub data EdgeRegistrationMode (Certificate AgentId TunnelId : Type 0) : Type 0 where
  loopback_development :
      List (RegistrationRequest AgentId TunnelId)
      → EdgeRegistrationMode Certificate AgentId TunnelId
  mutual_tls :
      VersionedAuthorizationSnapshot (AuthorizationSnapshot Certificate AgentId TunnelId)
      → SnapshotSourceHealth
      → (static_source local_updates : Bool) → EdgeRegistrationMode Certificate AgentId TunnelId

unfoldable pub handshake_code : AuthorizationError → HandshakeErrorCode
handshake_code unknown_certificate = unauthorized_agent
handshake_code agent_mismatch = unauthorized_agent
handshake_code tunnel_not_authorized = unauthorized_tunnel
handshake_code tunnel_disabled = Handshake.tunnel_disabled

unfoldable pub has_code :
    Result AuthorizationError (Unit {0}) → Result HandshakeErrorCode (Unit {0})
unfolding handshake_code
has_code (ok u) = ok u
has_code (err e) = err (handshake_code e)

abbrev pub is_ok : {E A : Type 0} → Result E A → Bool
is_ok (ok a) = true
is_ok (err e) = false

module _ {Certificate AgentId TunnelId : Type 0} where
  unfoldable pub is_mutual_tls : EdgeRegistrationMode Certificate AgentId TunnelId → Bool
  is_mutual_tls (mutual_tls current health static_source local_updates) = true
  is_mutual_tls (loopback_development registrations) = false

  -- Whether there is a subscription whose updates are applied to live sessions.
  unfoldable pub has_live_updates : EdgeRegistrationMode Certificate AgentId TunnelId → Bool
  has_live_updates (mutual_tls current health static_source local_updates) =
      not static_source || local_updates
  has_live_updates (loopback_development registrations) = false

  unfoldable pub is_dynamic_snapshot_authorization :
      EdgeRegistrationMode Certificate AgentId TunnelId → Bool
  is_dynamic_snapshot_authorization (mutual_tls current health static_source local_updates) =
      not static_source
  is_dynamic_snapshot_authorization (loopback_development registrations) = false

  unfoldable pub policy_snapshot_version :
      EdgeRegistrationMode Certificate AgentId TunnelId → Option ℕ
  policy_snapshot_version (mutual_tls current health static_source local_updates) =
      some current.version
  policy_snapshot_version (loopback_development registrations) = none

  unfoldable pub snapshot_source_health :
      EdgeRegistrationMode Certificate AgentId TunnelId → Option SnapshotSourceHealth
  snapshot_source_health (mutual_tls current health static_source local_updates) = some health
  snapshot_source_health (loopback_development registrations) = none

module _ {Certificate AgentId TunnelId : Type 0} (certificate_dec : Discrete Certificate)
    (agent_dec : Discrete AgentId) (tunnel_dec : Discrete TunnelId) where
  -- `==` on agents, tunnels and requests.
  abbrev pub same_agent : AgentId → AgentId → Bool
  same_agent a b = elim (agent_dec a b) [ yes e ↦ true | no e ↦ false ]

  abbrev pub same_tunnel : TunnelId → TunnelId → Bool
  same_tunnel a b = elim (tunnel_dec a b) [ yes e ↦ true | no e ↦ false ]

  abbrev pub same_request :
      RegistrationRequest AgentId TunnelId → RegistrationRequest AgentId TunnelId → Bool
  same_request a b = same_agent a.agent_id b.agent_id && same_tunnel a.tunnel_id b.tunnel_id

  unfoldable pub policy_contains_tunnel :
      EdgeRegistrationMode Certificate AgentId TunnelId → TunnelId → Bool
  policy_contains_tunnel (loopback_development registrations) tunnel =
      any (λ registration. same_tunnel registration.tunnel_id tunnel) registrations
  policy_contains_tunnel (mutual_tls current health static_source local_updates) tunnel =
      Snapshot.contains_tunnel certificate_dec agent_dec tunnel_dec current.snapshot tunnel

  abbrev pub loopback_registration :
      RegistrationRequest AgentId TunnelId → AuthorizedRegistration Certificate AgentId TunnelId
  loopback_registration request = record {
    certificate = none;
    agent_id = request.agent_id;
    tunnel_id = request.tunnel_id;
    snapshot_version = none;
  }

  unfoldable pub authorize_certificate :
      VersionedAuthorizationSnapshot (AuthorizationSnapshot Certificate AgentId TunnelId)
      → Option Certificate
      → RegistrationRequest AgentId TunnelId
      → Result HandshakeErrorCode (AuthorizedRegistration Certificate AgentId TunnelId)
  unfolding has_code
  authorize_certificate current none request = err unauthorized_agent
  authorize_certificate current (some certificate) request = do
    accepted ← has_code (
        Snapshot.authorize certificate_dec agent_dec tunnel_dec current.snapshot certificate
          request.agent_id request.tunnel_id)
    ok (record {
      certificate = some certificate;
      agent_id = request.agent_id;
      tunnel_id = request.tunnel_id;
      snapshot_version = some current.version;
    })

  unfoldable pub policy_authorize :
      EdgeRegistrationMode Certificate AgentId TunnelId
      → Option Certificate
      → RegistrationRequest AgentId TunnelId
      → Result HandshakeErrorCode (AuthorizedRegistration Certificate AgentId TunnelId)
  unfolding authorize_certificate
  policy_authorize (loopback_development registrations) peer_certificate request =
      if any (λ allowed. same_request allowed request) registrations
      then ok (loopback_registration request)
      else if any (λ allowed. same_agent allowed.agent_id request.agent_id) registrations
      then err unauthorized_tunnel
      else err unauthorized_agent
  policy_authorize (mutual_tls current health static_source local_updates) peer_certificate
        request =
      authorize_certificate current peer_certificate request

  unfoldable pub reauthorize :
      EdgeRegistrationMode Certificate AgentId TunnelId
      → AuthorizedRegistration Certificate AgentId TunnelId
      → Bool
  unfolding policy_authorize
  reauthorize mode principal = is_ok (
      policy_authorize mode principal.certificate
        (record { agent_id = principal.agent_id; tunnel_id = principal.tunnel_id }))

  -- A principal without a certificate is never authorized by a snapshot.
  unfoldable pub is_authorized_by :
      AuthorizationSnapshot Certificate AgentId TunnelId
      → AgentId
      → TunnelId
      → Option Certificate
      → Bool
  is_authorized_by snapshot agent tunnel none = false
  is_authorized_by snapshot agent tunnel (some certificate) =
      is_ok
        (Snapshot.authorize certificate_dec agent_dec tunnel_dec snapshot certificate agent tunnel)

  unfoldable pub principal_is_authorized :
      VersionedAuthorizationSnapshot (AuthorizationSnapshot Certificate AgentId TunnelId)
      → AuthorizedRegistration Certificate AgentId TunnelId
      → Bool
  unfolding is_authorized_by
  principal_is_authorized current principal =
      is_authorized_by current.snapshot principal.agent_id principal.tunnel_id principal.certificate

  coded-is_ok :
      {A : Type 0} (r : Result AuthorizationError (Unit {0}))
      (k : Unit {0} → Result HandshakeErrorCode A)
      → ((u : Unit {0}) → is_ok (k u) ≡ true)
      → is_ok (has_code r >>= k) ≡ is_ok r
  unfolding has_code
  coded-is_ok (ok u) k h = h u
  coded-is_ok (err e) k h = refl

  agree :
      (current : VersionedAuthorizationSnapshot
        (AuthorizationSnapshot Certificate AgentId TunnelId))
      (agent : AgentId) (tunnel : TunnelId) (c : Option Certificate)
      → is_ok (authorize_certificate current c (record { agent_id = agent; tunnel_id = tunnel }))
        ≡ is_authorized_by current.snapshot agent tunnel c
  unfolding authorize_certificate is_authorized_by
  agree current agent tunnel none = refl
  agree current agent tunnel (some certificate) =
      coded-is_ok
        (Snapshot.authorize certificate_dec agent_dec tunnel_dec current.snapshot certificate agent
          tunnel)
        _ (λ u. refl)

  -- Under mutual TLS the check before a session is published and the check of a live session against
  -- a snapshot agree: who is published under the current snapshot is not revoked by it, and who is
  -- revoked by it would not be published under it.
  pub reauthorize-principal_is_authorized :
      (current : VersionedAuthorizationSnapshot
        (AuthorizationSnapshot Certificate AgentId TunnelId))
      (health : SnapshotSourceHealth) (static_source local_updates : Bool)
      (principal : AuthorizedRegistration Certificate AgentId TunnelId)
      → reauthorize (mutual_tls current health static_source local_updates) principal
        ≡ principal_is_authorized current principal
  unfolding reauthorize policy_authorize principal_is_authorized
  reauthorize-principal_is_authorized current health static_source local_updates principal =
      agree current principal.agent_id principal.tunnel_id principal.certificate
