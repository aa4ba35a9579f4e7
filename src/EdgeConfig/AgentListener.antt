-- ===== src/EdgeConfig/AgentListener.antt =====
-- `AgentListenerConfig` and `SingleStreamEdgeConfig` of crates/edge/src/agent_transport.rs.
use tunnel_proxy.Common.{ℕ, Bool, true, not, ◌<◌, ◌≡◌, ◌↔◌, arith, ◌==◌}
use tunnel_proxy.Common.Results.{Result, ok, ◌>>◌, reject_if}
use tunnel_proxy.Registration.Payload.{map_err}

-- An address is a parameter; a duration is a number of nanoseconds.
pub record AgentListenerConfig (Address : Type 0) : Type 0 where
  pub listen_addr : Address
  pub max_agent_sessions : ℕ
  pub handshake_timeout : ℕ
  pub heartbeat_interval : ℕ
  pub pong_timeout : ℕ

pub data AgentListenerConfigError : Type 0 where
  zero_max_sessions zero_handshake_timeout zero_heartbeat_interval : AgentListenerConfigError
  zero_pong_timeout : AgentListenerConfigError

unfoldable pub validate_listener :
    {Address : Type 0} → AgentListenerConfig Address → Result AgentListenerConfigError (Unit {0})
validate_listener c = do
  reject_if (c.max_agent_sessions == 0) zero_max_sessions
  reject_if (c.handshake_timeout == 0) zero_handshake_timeout
  reject_if (c.heartbeat_interval == 0) zero_heartbeat_interval
  reject_if (c.pong_timeout == 0) zero_pong_timeout
  ok tt

pub record IsUsable {Address : Type 0} (c : AgentListenerConfig Address) : Type 0 where
  pub sessions : 0 < c.max_agent_sessions
  pub handshake : 0 < c.handshake_timeout
  pub heartbeat : 0 < c.heartbeat_interval
  pub pong : 0 < c.pong_timeout

-- `AgentListenerConfig::validate` accepts exactly the configurations with at least one session and
-- no time of zero.
pub validate_listener_iff :
    {Address : Type 0} (c : AgentListenerConfig Address)
    → (validate_listener c ≡ ok tt) ↔ IsUsable c
unfolding validate_listener
validate_listener_iff c = (λ h. ground arith, λ u. ground arith)

pub record SingleStreamEdgeConfig (Address : Type 0) : Type 0 where
  pub agent_listener : AgentListenerConfig Address
  pub ingress_listen_addr : Address
  pub stream_open_timeout : ℕ
  pub stream_idle_timeout : ℕ

pub data SingleStreamEdgeConfigError (Address : Type 0) : Type 0 where
  agent_listener : AgentListenerConfigError → SingleStreamEdgeConfigError Address
  agent_capacity_must_be_one : SingleStreamEdgeConfigError Address
  non_loopback_agent_listener : Address → SingleStreamEdgeConfigError Address
  non_loopback_ingress : Address → SingleStreamEdgeConfigError Address
  zero_stream_open_timeout zero_stream_idle_timeout : SingleStreamEdgeConfigError Address

module _ {Address : Type 0} (is_loopback : Address → Bool) where
  unfoldable pub validate_single_stream :
      SingleStreamEdgeConfig Address → Result (SingleStreamEdgeConfigError Address) (Unit {0})
  validate_single_stream c = do
    map_err agent_listener (validate_listener c.agent_listener)
    reject_if (not (c.agent_listener.max_agent_sessions == 1)) agent_capacity_must_be_one
    reject_if (not (is_loopback c.agent_listener.listen_addr))
        (non_loopback_agent_listener c.agent_listener.listen_addr)
    reject_if (not (is_loopback c.ingress_listen_addr)) (non_loopback_ingress c.ingress_listen_addr)
    reject_if (c.stream_open_timeout == 0) zero_stream_open_timeout
    reject_if (c.stream_idle_timeout == 0) zero_stream_idle_timeout
    ok tt

  pub record IsLocal (c : SingleStreamEdgeConfig Address) : Type 0 where
    pub usable : IsUsable c.agent_listener
    pub one_agent : c.agent_listener.max_agent_sessions ≡ 1
    pub agents_local : is_loopback c.agent_listener.listen_addr ≡ true
    pub clients_local : is_loopback c.ingress_listen_addr ≡ true
    pub opening : 0 < c.stream_open_timeout
    pub idle : 0 < c.stream_idle_timeout

  -- `SingleStreamEdgeConfig::validate` accepts exactly the configurations of one agent whose two
  -- addresses are loopback addresses, with a usable listener and no time of zero.
  pub validate_single_stream_iff :
      (c : SingleStreamEdgeConfig Address) → (validate_single_stream c ≡ ok tt) ↔ IsLocal c
  unfolding validate_single_stream map_err
  validate_single_stream_iff c =
      let listens = validate_listener_iff c.agent_listener in (λ h. ground arith, λ l. ground arith)
