-- ===== src/RateLimit/Limiter.antt =====
-- `HttpRequestRateLimiter`: `at`, `try_admit_at` and `cleanup_idle_peers`. The mutex makes each
-- call one step on the state. `panicked` stands for the two calls of `expect`.
use mathlib.Core.List.{lookup}
use tunnel_proxy.Common.{
  ℕ, zero, suc, ◌-◌, ◌*◌, min, max, Bool, false, Option, none, some, List, [], ◌∷◌, ◌++◌, leb,
  if◌then◌else◌, length,
}
use tunnel_proxy.Common.Dict.{insert, remove}
use tunnel_proxy.RateLimit.Bucket.{TokenBucket, bucket_new, refill, retry_after, consume}
use tunnel_proxy.RateLimit.Config.{HttpRequestRateLimitConfig}

abbrev pub peer_cleanup_batch : ℕ
peer_cleanup_batch = 64

abbrev pub one_minute : ℕ
one_minute = 60 * 1_000_000_000

pub data Rejection : Type 0 where
  global per_ip peer_table_full : ℕ → Rejection

pub data Admission : Type 0 where
  admitted : Admission
  rejected : Rejection → Admission
  panicked : Admission

pub record PeerBucket : Type 0 where
  pub bucket : TokenBucket
  pub last_seen : ℕ

pub record RateLimiterState (Ip : Type 0) : Type 0 where
  pub global_bucket : TokenBucket
  pub peers : List (Ip × PeerBucket)
  pub peer_order : List Ip
  pub peak_tracked_peer_ips : ℕ

unfoldable pub limiter_at : {Ip : Type 0} → HttpRequestRateLimitConfig → ℕ → RateLimiterState Ip
limiter_at c now = record {
  global_bucket = bucket_new c.global_requests_per_second c.global_burst now;
  peers = [];
  peer_order = [];
  peak_tracked_peer_ips = 0;
}

-- `is_some_and` on the entry of the peer; the duration saturates at 0.
unfoldable pub expired : ℕ → ℕ → Option PeerBucket → Bool
expired now idle_ttl none = false
expired now idle_ttl (some p) = leb idle_ttl (now - p.last_seen)

module _ {Ip : Type 0} (dec : Discrete Ip) where
  -- One round of the loop, for the peer taken from the front of the order.
  unfoldable pub visit : ℕ → ℕ → RateLimiterState Ip → List Ip → RateLimiterState Ip
  visit now idle_ttl s [] = s
  visit now idle_ttl s (peer ∷ rest) =
      if expired now idle_ttl (lookup dec peer s.peers)
      then record s { peers = remove dec peer s.peers; peer_order = rest }
      else record s { peer_order = rest ++ peer ∷ [] }

  -- On an empty order `visit` changes nothing, as `break` does.
  unfoldable pub visits : ℕ → ℕ → ℕ → RateLimiterState Ip → RateLimiterState Ip
  visits zero now idle_ttl s = s
  visits (suc n) now idle_ttl s = visits n now idle_ttl (visit now idle_ttl s s.peer_order)

  unfoldable pub cleanup_idle_peers : ℕ → ℕ → RateLimiterState Ip → RateLimiterState Ip
  cleanup_idle_peers now idle_ttl s =
      visits (min (length s.peer_order) peer_cleanup_batch) now idle_ttl s

  unfoldable pub track :
      HttpRequestRateLimitConfig → Ip → ℕ → RateLimiterState Ip → RateLimiterState Ip
  track c peer now s =
      let peers =
        insert dec peer
          (record {
            bucket = bucket_new c.per_ip_requests_per_second c.per_ip_burst now;
            last_seen = now;
          })
          s.peers in
      record s {
        peers = peers;
        peer_order = s.peer_order ++ peer ∷ [];
        peak_tracked_peer_ips = max s.peak_tracked_peer_ips (length peers);
      }

  -- The second `expect`, and the token of the peer's bucket.
  unfoldable pub take_peer_token :
      Ip → RateLimiterState Ip → Option PeerBucket → Admission × RateLimiterState Ip
  take_peer_token peer s none = (panicked, s)
  take_peer_token peer s (some p) = (
    admitted,
    record s { peers = insert dec peer (record p { bucket = consume p.bucket }) s.peers },
  )

  -- Both buckets give a token, the global one first.
  unfoldable pub take_tokens : Ip → RateLimiterState Ip → Admission × RateLimiterState Ip
  unfolding take_peer_token
  take_tokens peer s =
      let s' : RateLimiterState Ip = record s { global_bucket = consume s.global_bucket } in
      take_peer_token peer s' (lookup dec peer s'.peers)

  unfoldable pub decide : Ip → RateLimiterState Ip → Option ℕ → Admission × RateLimiterState Ip
  decide peer s (some wait) = (rejected (per_ip wait), s)
  decide peer s none = take_tokens peer s

  -- The first `expect`, on the entry of the peer, and its refill.
  unfoldable pub charge :
      Ip → ℕ → RateLimiterState Ip → Option PeerBucket → Admission × RateLimiterState Ip
  charge peer now s none = (panicked, s)
  charge peer now s (some p) =
      let p' : PeerBucket = record { bucket = refill p.bucket now; last_seen = now } in
      decide peer (record s { peers = insert dec peer p' s.peers }) (retry_after p'.bucket)

  unfoldable pub charge_tracked : Ip → ℕ → RateLimiterState Ip → Admission × RateLimiterState Ip
  charge_tracked peer now s = charge peer now s (lookup dec peer s.peers)

  -- After the clean-up: a full table rejects, otherwise the peer is tracked from now on.
  unfoldable pub admit_new :
      HttpRequestRateLimitConfig → Ip → ℕ → RateLimiterState Ip → Admission × RateLimiterState Ip
  admit_new c peer now s =
      if leb c.max_tracked_ips (length s.peers)
      then (rejected (peer_table_full (min c.peer_idle_ttl one_minute)), s)
      else charge_tracked peer now (track c peer now s)

  unfoldable pub admit_peer :
      HttpRequestRateLimitConfig
      → Ip
      → ℕ
      → RateLimiterState Ip
      → Option PeerBucket
      → Admission × RateLimiterState Ip
  admit_peer c peer now s (some p) = charge_tracked peer now s
  admit_peer c peer now s none = admit_new c peer now (cleanup_idle_peers now c.peer_idle_ttl s)

  unfoldable pub after_global :
      HttpRequestRateLimitConfig
      → Ip
      → ℕ
      → RateLimiterState Ip
      → Option ℕ
      → Admission × RateLimiterState Ip
  after_global c peer now s (some wait) = (rejected (global wait), s)
  after_global c peer now s none = admit_peer c peer now s (lookup dec peer s.peers)

  unfoldable pub try_admit_at :
      HttpRequestRateLimitConfig → Ip → ℕ → RateLimiterState Ip → Admission × RateLimiterState Ip
  try_admit_at c peer now s =
      let s' : RateLimiterState Ip = record s { global_bucket = refill s.global_bucket now } in
      after_global c peer now s' (retry_after s'.global_bucket)

unfoldable pub rejection_retry_after : Rejection → ℕ
rejection_retry_after (global wait) = wait
rejection_retry_after (per_ip wait) = wait
rejection_retry_after (peer_table_full wait) = wait

pub record HttpRateLimiterStatus : Type 0 where
  pub tracked_peer_ips : ℕ
  pub peak_tracked_peer_ips : ℕ

unfoldable pub status : {Ip : Type 0} → RateLimiterState Ip → HttpRateLimiterStatus
status s = record {
  tracked_peer_ips = length s.peers;
  peak_tracked_peer_ips = s.peak_tracked_peer_ips;
}
