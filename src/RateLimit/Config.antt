-- ===== src/RateLimit/Config.antt =====
-- `HttpRequestRateLimitConfig` and its `validate`.
use tunnel_proxy.Common.{ℕ, ◌*◌, ◌≤◌, ◌<◌, ◌≡◌, ◌↔◌, ◌||◌, arith, ltb, ◌==◌}
use tunnel_proxy.Common.Results.{Result, ok, ◌>>◌, reject_if}

abbrev pub max_http_requests_per_second : ℕ
max_http_requests_per_second = 1_000_000

abbrev pub max_http_request_burst : ℕ
max_http_request_burst = 1_000_000

abbrev pub max_http_rate_limit_peers : ℕ
max_http_rate_limit_peers = 65_536

abbrev pub min_http_rate_limit_idle : ℕ
min_http_rate_limit_idle = 1_000_000

abbrev pub max_http_rate_limit_idle : ℕ
max_http_rate_limit_idle = 24 * 60 * 60 * 1_000_000_000

pub record HttpRequestRateLimitConfig : Type 0 where
  pub global_requests_per_second : ℕ
  pub global_burst : ℕ
  pub per_ip_requests_per_second : ℕ
  pub per_ip_burst : ℕ
  pub max_tracked_ips : ℕ
  pub peer_idle_ttl : ℕ

pub data ConfigError : Type 0 where
  invalid_global_rate invalid_global_burst : ConfigError
  invalid_per_ip_rate invalid_per_ip_burst : ConfigError
  per_ip_rate_exceeds_global per_ip_burst_exceeds_global : ConfigError
  invalid_tracked_ip_limit invalid_peer_idle_ttl : ConfigError

unfoldable pub validate_quota : ℕ → ℕ → ConfigError → ConfigError → Result ConfigError (Unit {0})
validate_quota rate burst invalid_rate invalid_burst = do
  reject_if (rate == 0 || ltb max_http_requests_per_second rate) invalid_rate
  reject_if (ltb burst rate || ltb max_http_request_burst burst) invalid_burst
  ok tt

unfoldable pub validate : HttpRequestRateLimitConfig → Result ConfigError (Unit {0})
validate c = do
  validate_quota c.global_requests_per_second c.global_burst invalid_global_rate
      invalid_global_burst
  validate_quota c.per_ip_requests_per_second c.per_ip_burst invalid_per_ip_rate
      invalid_per_ip_burst
  reject_if (ltb c.global_requests_per_second c.per_ip_requests_per_second)
      per_ip_rate_exceeds_global
  reject_if (ltb c.global_burst c.per_ip_burst) per_ip_burst_exceeds_global
  reject_if (c.max_tracked_ips == 0 || ltb max_http_rate_limit_peers c.max_tracked_ips)
      invalid_tracked_ip_limit
  reject_if
      (ltb c.peer_idle_ttl min_http_rate_limit_idle || ltb max_http_rate_limit_idle c.peer_idle_ttl)
      invalid_peer_idle_ttl
  ok tt

-- The ranges that the messages of `HttpRequestRateLimitConfigError` state.
pub record IsAllowed (c : HttpRequestRateLimitConfig) : Type 0 where
  pub global_rate : 0 < c.global_requests_per_second
  pub global_burst : c.global_requests_per_second ≤ c.global_burst
  pub burst_max : c.global_burst ≤ max_http_request_burst
  pub per_ip_rate : 0 < c.per_ip_requests_per_second
  pub per_ip_burst : c.per_ip_requests_per_second ≤ c.per_ip_burst
  pub rate_le : c.per_ip_requests_per_second ≤ c.global_requests_per_second
  pub burst_le : c.per_ip_burst ≤ c.global_burst
  pub peers_min : 0 < c.max_tracked_ips
  pub peers_max : c.max_tracked_ips ≤ max_http_rate_limit_peers
  pub idle_min : min_http_rate_limit_idle ≤ c.peer_idle_ttl
  pub idle_max : c.peer_idle_ttl ≤ max_http_rate_limit_idle

validate_quota_iff :
    (rate burst : ℕ) (e e' : ConfigError)
    → (validate_quota rate burst e e' ≡ ok tt)
      ↔ ((0 < rate) × (rate ≤ burst) × (burst ≤ max_http_request_burst))
unfolding validate_quota
validate_quota_iff rate burst e e' = ground arith

-- `validate` accepts exactly the configurations within the stated ranges: rates and bursts from 1
-- to a million with no burst below its rate, no per-address quota above the global one, 1 to
-- 65,536 tracked addresses, and an idle time from a millisecond to a day.
pub validate_iff : (c : HttpRequestRateLimitConfig) → (validate c ≡ ok tt) ↔ IsAllowed c
unfolding validate validate_quota
validate_iff c = (λ h. ground arith, λ a. ground arith)

abbrev pub default_config : HttpRequestRateLimitConfig
default_config = record {
  global_requests_per_second = 100;
  global_burst = 200;
  per_ip_requests_per_second = 20;
  per_ip_burst = 40;
  max_tracked_ips = 4_096;
  peer_idle_ttl = 5 * 60 * 1_000_000_000;
}
