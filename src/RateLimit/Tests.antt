-- ===== src/RateLimit/Tests.antt =====
-- A run of the limiter, and its theorems at a concrete configuration.
use mathlib.Core.List.{lookup}
use tunnel_proxy.Common.{
  ℕ, ◌+◌, ◌*◌, ◌-◌, ◌≤◌, ◌<◌, ◌≡◌, ◌≢◌, refl, none, List, [], ◌∷◌, arith, ℕ_discrete,
}
use tunnel_proxy.Common.Results.{ok}
use tunnel_proxy.Common.Dict.{insert, remove}
use tunnel_proxy.RateLimit.Bucket.{
  TokenBucket, token_scale, bucket_new, refill, retry_after, consume, retry_after-refill,
}
use tunnel_proxy.RateLimit.Bucket
use tunnel_proxy.RateLimit.Config.{
  HttpRequestRateLimitConfig, validate, validate_quota, default_config,
}
use tunnel_proxy.RateLimit.Limiter.{
  RateLimiterState, Admission, global, per_ip, peer_table_full, admitted, rejected, limiter_at,
  expired, visit, visits, cleanup_idle_peers, track, take_peer_token, take_tokens, decide, charge,
  charge_tracked, admit_new, admit_peer, after_global, try_admit_at, rejection_retry_after, status,
}
use tunnel_proxy.RateLimit.Table.{IsFine, limiter_at-IsValid, try_admit_at-IsFine}
use tunnel_proxy.RateLimit.Rate.{admissions, admissions-le}

program : Unit {0}
unfolding ℕ_discrete lookup insert remove bucket_new refill retry_after consume limiter_at expired
    visit visits cleanup_idle_peers track take_peer_token take_tokens decide charge charge_tracked
    admit_new admit_peer after_global try_admit_at admissions validate validate_quota
program = tt

abbrev second : ℕ
second = 1_000_000_000

-- The configuration of the source's tests: addresses are numbers.
abbrev config : HttpRequestRateLimitConfig
config = record {
  global_requests_per_second = 2;
  global_burst = 2;
  per_ip_requests_per_second = 1;
  per_ip_burst = 1;
  max_tracked_ips = 2;
  peer_idle_ttl = 5 * second;
}

abbrev fresh : RateLimiterState ℕ
fresh = limiter_at config 0

abbrev calls : List (ℕ × ℕ)
calls = (1, 0) ∷ (1, 0) ∷ (2, 0) ∷ (3, 0) ∷ (3, second) ∷ (1, 6 * second) ∷ (3, 6 * second) ∷ []

answers : List (ℕ × ℕ) → RateLimiterState ℕ → List Admission
answers [] s = []
answers ((peer, now) ∷ rest) s =
    (try_admit_at ℕ_discrete config peer now s).0
    ∷ answers rest (try_admit_at ℕ_discrete config peer now s).1

answers_run :
    answers calls fresh
    ≡ admitted
      ∷ rejected (per_ip second)
      ∷ admitted
      ∷ rejected (global 500_000_000)
      ∷ rejected (peer_table_full (5 * second))
      ∷ admitted
      ∷ admitted
      ∷ []
unfolding program answers
answers_run = refl

abbrev drained : TokenBucket
drained = record { rate = 3; capacity = 5 * token_scale; tokens = 1; last_refill = 7 }

drained-IsValid : Bucket.IsValid drained
drained-IsValid = record {
  positive = omega arith;
  modest = omega arith;
  holds_one = omega arith;
  below_max = omega arith;
  filled = omega arith;
}

retry_after-refill_example :
    (retry_after (refill drained (7 + 333_333_333)) ≡ none)
    × (333_333_332 < 333_333_333 → retry_after (refill drained (7 + 333_333_332)) ≢ none)
unfolding retry_after
retry_after-refill_example = retry_after-refill drained 333_333_333 333_333_332 drained-IsValid refl

try_admit_at-IsFine_example :
    IsFine ℕ_discrete config (try_admit_at ℕ_discrete config 7 second fresh)
try_admit_at-IsFine_example =
    try_admit_at-IsFine ℕ_discrete config 7 second fresh (limiter_at-IsValid ℕ_discrete config 0)

admissions-le_example :
    admissions ℕ_discrete config calls fresh * token_scale ≤ 2 * token_scale + (6 * second - 0) * 2
unfolding limiter_at bucket_new
admissions-le_example =
    admissions-le ℕ_discrete config (6 * second) calls fresh (ground arith) (omega arith)

default_validates : validate default_config ≡ ok tt
unfolding program
default_validates = refl

waits : rejection_retry_after (peer_table_full second) ≡ second
unfolding rejection_retry_after
waits = refl

fresh_status : status fresh ≡ record { tracked_peer_ips = 0; peak_tracked_peer_ips = 0 }
unfolding program status
fresh_status = refl
