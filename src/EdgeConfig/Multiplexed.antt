-- ===== src/EdgeConfig/Multiplexed.antt =====
-- `MultiplexedEdgeConfig` of crates/edge/src/multiplex.rs, and the kinds of transport security.
use tunnel_proxy.Common.{ℕ, Bool, true, false, not, ◌&&◌, ◌<◌, ◌≡◌, ◌↔◌, arith, ◌==◌}
use tunnel_proxy.Common.Results.{Result, ok, ◌>>◌, reject_if}
use tunnel_proxy.Registration.Payload.{map_err}
use tunnel_proxy.EdgeRegistry.Policy.{EdgeRegistrationMode, is_mutual_tls}
use tunnel_proxy.EdgeConfig.AgentListener.{
  AgentListenerConfig, AgentListenerConfigError, validate_listener, IsUsable, validate_listener_iff,
}

-- The TLS configuration is only passed on.
pub data EdgeTransportSecurity (Tls : Type 0) : Type 0 where
  plaintext_loopback : EdgeTransportSecurity Tls
  mutual_tls : Tls → EdgeTransportSecurity Tls

unfoldable pub is_tls : {Tls : Type 0} → EdgeTransportSecurity Tls → Bool
is_tls plaintext_loopback = false
is_tls (mutual_tls config) = true

-- `matches!(self.security, EdgeTransportSecurity::PlaintextLoopback)`
unfoldable pub is_plaintext : {Tls : Type 0} → EdgeTransportSecurity Tls → Bool
is_plaintext plaintext_loopback = true
is_plaintext (mutual_tls config) = false

-- `!=` on `bool`
abbrev pub differ : Bool → Bool → Bool
differ true b = not b
differ false b = b

pub record MultiplexedEdgeConfig (Address Tls Certificate AgentId TunnelId : Type 0) : Type 0 where
  pub agent_listener : AgentListenerConfig Address
  pub security : EdgeTransportSecurity Tls
  pub registration : EdgeRegistrationMode Certificate AgentId TunnelId
  pub max_streams_per_session : ℕ
  pub session_command_capacity : ℕ
  pub per_stream_queue_capacity : ℕ
  pub control_queue_capacity : ℕ
  pub data_queue_capacity : ℕ
  pub stream_open_timeout : ℕ
  pub stream_idle_timeout : ℕ

pub data MultiplexedEdgeConfigError (Address : Type 0) : Type 0 where
  agent_listener : AgentListenerConfigError → MultiplexedEdgeConfigError Address
  non_loopback_agent_listener : Address → MultiplexedEdgeConfigError Address
  security_registration_mismatch : MultiplexedEdgeConfigError Address
  zero_max_streams zero_session_command_queue : MultiplexedEdgeConfigError Address
  zero_per_stream_queue zero_control_queue zero_data_queue : MultiplexedEdgeConfigError Address
  zero_open_timeout zero_idle_timeout : MultiplexedEdgeConfigError Address

module _ {Address Tls Certificate AgentId TunnelId : Type 0} (is_loopback : Address → Bool) where
  unfoldable pub validate :
      MultiplexedEdgeConfig Address Tls Certificate AgentId TunnelId
      → Result (MultiplexedEdgeConfigError Address) (Unit {0})
  validate c = do
    map_err agent_listener (validate_listener c.agent_listener)
    reject_if (is_plaintext c.security && not (is_loopback c.agent_listener.listen_addr))
        (non_loopback_agent_listener c.agent_listener.listen_addr)
    reject_if (differ (is_tls c.security) (is_mutual_tls c.registration))
        security_registration_mismatch
    reject_if (c.max_streams_per_session == 0) zero_max_streams
    reject_if (c.session_command_capacity == 0) zero_session_command_queue
    reject_if (c.per_stream_queue_capacity == 0) zero_per_stream_queue
    reject_if (c.control_queue_capacity == 0) zero_control_queue
    reject_if (c.data_queue_capacity == 0) zero_data_queue
    reject_if (c.stream_open_timeout == 0) zero_open_timeout
    reject_if (c.stream_idle_timeout == 0) zero_idle_timeout
    ok tt

  -- What the runtime relies on. `trusted` says that agents without certificates are served on a
  -- loopback address only, and `matched` that certificates are asked for exactly when the policy
  -- decides by them.
  pub record IsServable (c : MultiplexedEdgeConfig Address Tls Certificate AgentId TunnelId)
      : Type 0 where
    pub usable : IsUsable c.agent_listener
    pub trusted :
        is_mutual_tls c.registration ≡ false → is_loopback c.agent_listener.listen_addr ≡ true
    pub matched : is_tls c.security ≡ is_mutual_tls c.registration
    pub streams : 0 < c.max_streams_per_session
    pub commands : 0 < c.session_command_capacity
    pub per_stream : 0 < c.per_stream_queue_capacity
    pub control : 0 < c.control_queue_capacity
    pub scheduled : 0 < c.data_queue_capacity
    pub opening : 0 < c.stream_open_timeout
    pub idle : 0 < c.stream_idle_timeout

  -- The two tests on security, taken together.
  trust_iff :
      (security : EdgeTransportSecurity Tls)
      (mode : EdgeRegistrationMode Certificate AgentId TunnelId) (local : Bool)
      → ((is_plaintext security && not local) ≡ false)
          × (differ (is_tls security) (is_mutual_tls mode) ≡ false)
        ↔ ((is_mutual_tls mode ≡ false → local ≡ true) × (is_tls security ≡ is_mutual_tls mode))
  unfolding is_tls is_plaintext is_mutual_tls
  trust_iff security mode local = ground arith

  -- `MultiplexedEdgeConfig::validate` accepts exactly the configurations with a usable listener
  -- and without a limit or time of zero, that ask for client certificates exactly when the
  -- registration policy decides by them, and otherwise listen for agents on a loopback address.
  pub validate_iff :
      (c : MultiplexedEdgeConfig Address Tls Certificate AgentId TunnelId)
      → (validate c ≡ ok tt) ↔ IsServable c
  unfolding validate map_err
  validate_iff c =
      let listens = validate_listener_iff c.agent_listener in
      let trusts = trust_iff c.security c.registration (is_loopback c.agent_listener.listen_addr) in
      (λ h. ground arith, λ s. ground arith)
