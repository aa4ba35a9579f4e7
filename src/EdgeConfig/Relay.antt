-- ===== src/EdgeConfig/Relay.antt =====
-- `EchoConfig` and `ForwardConfig` of crates/edge/src/lib.rs.
use tunnel_proxy.Common.{ℕ, ◌*◌, ◌≤◌, ◌<◌, ◌≡◌, ◌↔◌, arith, ltb, ◌==◌}
use tunnel_proxy.Common.Results.{Result, ok, ◌>>◌, reject_if}

-- Durations are numbers of nanoseconds.
abbrev pub min_relay_idle_timeout : ℕ
min_relay_idle_timeout = 1_000_000

abbrev pub max_relay_idle_timeout : ℕ
max_relay_idle_timeout = 60 * 60 * 1_000_000_000

pub record EchoConfig : Type 0 where
  pub max_connections : ℕ
  pub idle_timeout : ℕ

pub data EchoConfigError : Type 0 where
  zero_max_connections too_many_connections : EchoConfigError
  idle_timeout_too_small idle_timeout_too_large : EchoConfigError

pub record ForwardConfig (Address : Type 0) : Type 0 where
  pub listen_addr : Address
  pub upstream_addr : Address
  pub max_connections : ℕ
  pub connect_timeout : ℕ
  pub relay_idle_timeout : ℕ

pub data ForwardConfigError : Type 0 where
  max_connections_too_large zero_max_connections zero_connect_timeout : ForwardConfigError
  relay_idle_timeout_too_small relay_idle_timeout_too_large : ForwardConfigError
  zero_max_connections_per_ip per_ip_limit_exceeds_global : ForwardConfigError

-- The argument is `Semaphore::MAX_PERMITS`.
module _ (max_permits : ℕ) where
  unfoldable pub validate_echo : EchoConfig → Result EchoConfigError (Unit {0})
  validate_echo c = do
    reject_if (c.max_connections == 0) zero_max_connections
    reject_if (ltb max_permits c.max_connections) too_many_connections
    reject_if (ltb c.idle_timeout min_relay_idle_timeout) idle_timeout_too_small
    reject_if (ltb max_relay_idle_timeout c.idle_timeout) idle_timeout_too_large
    ok tt

  -- `EchoConfig::validate` accepts exactly 1 to `MAX_PERMITS` connections and an idle time from a
  -- millisecond to an hour.
  pub validate_echo_iff :
      (c : EchoConfig)
      → (validate_echo c ≡ ok tt) ↔ (
          (0 < c.max_connections)
          × (c.max_connections ≤ max_permits)
          × (min_relay_idle_timeout ≤ c.idle_timeout)
          × (c.idle_timeout ≤ max_relay_idle_timeout))
  unfolding validate_echo
  validate_echo_iff c = ground arith

  module _ {Address : Type 0} where
    unfoldable pub validate_forward : ForwardConfig Address → Result ForwardConfigError (Unit {0})
    validate_forward c = do
      reject_if (c.max_connections == 0) zero_max_connections
      reject_if (ltb max_permits c.max_connections) max_connections_too_large
      reject_if (c.connect_timeout == 0) zero_connect_timeout
      reject_if (ltb c.relay_idle_timeout min_relay_idle_timeout) relay_idle_timeout_too_small
      reject_if (ltb max_relay_idle_timeout c.relay_idle_timeout) relay_idle_timeout_too_large
      ok tt

    pub record IsForwardable (c : ForwardConfig Address) : Type 0 where
      pub connections : 0 < c.max_connections
      pub permits : c.max_connections ≤ max_permits
      pub connect : 0 < c.connect_timeout
      pub idle_min : min_relay_idle_timeout ≤ c.relay_idle_timeout
      pub idle_max : c.relay_idle_timeout ≤ max_relay_idle_timeout

    -- `ForwardConfig::validate` accepts exactly 1 to `MAX_PERMITS` connections, a positive time to
    -- connect and an idle time from a millisecond to an hour.
    pub validate_forward_iff :
        (c : ForwardConfig Address) → (validate_forward c ≡ ok tt) ↔ IsForwardable c
    unfolding validate_forward
    validate_forward_iff c = (λ h. ground arith, λ f. ground arith)
