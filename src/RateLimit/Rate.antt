-- ===== src/RateLimit/Rate.antt =====
-- What the global bucket promises over a run of `try_admit_at`: the number of admissions.

use tunnel_proxy.Common.{
  ℕ, zero, suc, ◌+◌, ◌-◌, ◌*◌, ◌≤◌, ◌≡◌, ◌≢◌, refl, ◌∙◌, subst, inl, inr, ◌⊎◌, min, max, Bool-cases,
  Option-cases, Option, none, some, List, [], ◌∷◌, arith, leb, length,
}
use mathlib.Core.List.{lookup}
use tunnel_proxy.Common.Dict.{lookup-insert_self}
use tunnel_proxy.RateLimit.Bucket.{
  TokenBucket, token_scale, refill, retry_after, consume, refill-potential, retry_after-eq-none_iff,
}
use tunnel_proxy.RateLimit.Config.{HttpRequestRateLimitConfig}
use tunnel_proxy.RateLimit.Limiter.{
  RateLimiterState, PeerBucket, Admission, peer_cleanup_batch, admitted, rejected, panicked, visit,
  visits, cleanup_idle_peers, track, take_tokens, take_peer_token, decide, charge, charge_tracked,
  admit_new, admit_peer, after_global, try_admit_at,
}

-- An admission takes one token of the global bucket, and any other answer takes none.
abbrev pub Spends : {Ip : Type 0} → TokenBucket → Admission × RateLimiterState Ip → Type 0
Spends g (a, s) =
    ((a ≡ admitted) × (s.global_bucket ≡ consume g)) ⊎ ((a ≢ admitted) × (s.global_bucket ≡ g))

module _ {Ip : Type 0} (dec : Discrete Ip) where
  visit-global :
      (now ttl : ℕ) (s : RateLimiterState Ip) (ks : List Ip)
      → (visit dec now ttl s ks).global_bucket ≡ s.global_bucket
  unfolding visit
  visit-global now ttl s [] = refl
  visit-global now ttl s (k ∷ rest) = ground arith

  visits-global :
      (n now ttl : ℕ) (s : RateLimiterState Ip)
      → (visits dec n now ttl s).global_bucket ≡ s.global_bucket
  unfolding visits
  visits-global zero now ttl s = refl
  visits-global (suc n) now ttl s = visits-global n now ttl _ ∙ visit-global now ttl s s.peer_order

  decide-Spends :
      (peer : Ip) (p : PeerBucket) (s : RateLimiterState Ip) (o : Option ℕ)
      → lookup dec peer s.peers ≡ some p
      → Spends s.global_bucket (decide dec peer s o)
  unfolding decide take_tokens take_peer_token
  decide-Spends peer p s none h = rw h (inl (refl, refl))
  decide-Spends peer p s (some wait) h = inr (λ e. cc, refl)

  charge-Spends :
      (peer : Ip) (now : ℕ) (s : RateLimiterState Ip) (o : Option PeerBucket)
      → Spends s.global_bucket (charge dec peer now s o)
  unfolding charge
  charge-Spends peer now s none = inr (λ e. cc, refl)
  charge-Spends peer now s (some p) =
      decide-Spends peer _ _ _ (lookup-insert_self dec peer _ s.peers)

  admit_new-Spends :
      (c : HttpRequestRateLimitConfig) (peer : Ip) (now : ℕ) (s : RateLimiterState Ip)
      → Spends s.global_bucket (admit_new dec c peer now s)
  unfolding admit_new charge_tracked track
  admit_new-Spends c peer now s = elim (Bool-cases (leb c.max_tracked_ips (length s.peers))) [
    | inl full ↦ rw full (inr (λ e. cc, refl))
    | inr room ↦ rw room (charge-Spends peer now _ _)
  ]

  admit_peer-Spends :
      (c : HttpRequestRateLimitConfig) (peer : Ip) (now : ℕ) (s : RateLimiterState Ip)
      (o : Option PeerBucket)
      → Spends s.global_bucket (admit_peer dec c peer now s o)
  unfolding admit_peer charge_tracked cleanup_idle_peers
  admit_peer-Spends c peer now s (some p) = charge-Spends peer now s _
  admit_peer-Spends c peer now s none =
      let cleaned = cleanup_idle_peers dec now c.peer_idle_ttl s in
      subst (λ g. Spends g (admit_new dec c peer now cleaned))
        (visits-global (min (length s.peer_order) peer_cleanup_batch) now c.peer_idle_ttl s)
        (admit_new-Spends c peer now cleaned)

  after_global-Spends :
      (c : HttpRequestRateLimitConfig) (peer : Ip) (now : ℕ) (s : RateLimiterState Ip)
      (o : Option ℕ)
      → Spends s.global_bucket (after_global dec c peer now s o)
  unfolding after_global
  after_global-Spends c peer now s none = admit_peer-Spends c peer now s _
  after_global-Spends c peer now s (some wait) = inr (λ e. cc, refl)

  -- Whatever the answer, the global bucket is refilled first; then an admission takes exactly one
  -- token from it, and a rejection for any reason takes none.
  pub try_admit_at-Spends :
      (c : HttpRequestRateLimitConfig) (peer : Ip) (now : ℕ) (s : RateLimiterState Ip)
      → Spends (refill s.global_bucket now) (try_admit_at dec c peer now s)
  unfolding try_admit_at
  try_admit_at-Spends c peer now s = after_global-Spends c peer now _ _

  -- An admission found a token in the global bucket.
  try_admit_at-admitted :
      (c : HttpRequestRateLimitConfig) (peer : Ip) (now : ℕ) (s : RateLimiterState Ip)
      → (try_admit_at dec c peer now s).0 ≡ admitted
      → token_scale ≤ (refill s.global_bucket now).tokens
  unfolding try_admit_at after_global
  try_admit_at-admitted c peer now s h =
      elim (Option-cases (retry_after (refill s.global_bucket now))) [
        | inl free ↦ (retry_after-eq-none_iff _).0 free
        | inr (wait, e) ↦ absurd (let h' = rw e at h in cc h')
      ]

abbrev pub count : Admission → ℕ
count admitted = 1
count _ = 0

-- The calls of a run, each with its instant; what is admitted of them.
unfoldable pub admissions :
    {Ip : Type 0}
    → Discrete Ip
    → HttpRequestRateLimitConfig
    → List (Ip × ℕ)
    → RateLimiterState Ip
    → ℕ
admissions dec c [] s = 0
admissions dec c ((peer, now) ∷ calls) s =
    count (try_admit_at dec c peer now s).0
    + admissions dec c calls (try_admit_at dec c peer now s).1

abbrev pub AllBefore : {Ip : Type 0} → ℕ → List (Ip × ℕ) → Type 0
AllBefore t [] = Unit {0}
AllBefore t ((peer, now) ∷ calls) = (now ≤ t) × AllBefore t calls

-- What a step does to the global bucket, in numbers.
abbrev pub Pays : {Ip : Type 0} → TokenBucket → ℕ → Admission × RateLimiterState Ip → Type 0
Pays b now (a, s) =
    (count a * token_scale + s.global_bucket.tokens
      ≤ b.tokens + (s.global_bucket.last_refill - b.last_refill) * b.rate)
    × (b.last_refill ≤ s.global_bucket.last_refill)
    × (s.global_bucket.last_refill ≤ max b.last_refill now)
    × (s.global_bucket.rate ≡ b.rate)

count_zero : (a : Admission) → a ≢ admitted → count a ≡ 0
count_zero admitted h = absurd (h refl)
count_zero (rejected r) h = refl
count_zero panicked h = refl

-- Time split at an instant.
time_split : (l m t r : ℕ) → l ≤ m → m ≤ t → (m - l) * r + (t - m) * r ≡ (t - l) * r
time_split l m t r h k = let e : t - l ≡ (m - l) + (t - m) = omega arith in rw e (grind arith)

module _ {Ip : Type 0} (dec : Discrete Ip) where
  try_admit_at-Pays :
      (c : HttpRequestRateLimitConfig) (peer : Ip) (now : ℕ) (s : RateLimiterState Ip)
      → Pays s.global_bucket now (try_admit_at dec c peer now s)
  unfolding consume
  try_admit_at-Pays c peer now s =
      let facts = refill-potential s.global_bucket now in
      elim (try_admit_at-Spends dec c peer now s) [
        | inl (yes_one, g) ↦
            rw (g, yes_one) (omega (arith, facts, try_admit_at-admitted dec c peer now s yes_one))
        | inr (no_one, g) ↦ rw (g, count_zero _ no_one) (omega (arith, facts))
      ]

  -- However the clients behave, at any instants up to `t`, the requests admitted from a state are
  -- bounded by the tokens of the global bucket and its rate over the time since its last refill.
  pub admissions-le :
      (c : HttpRequestRateLimitConfig) (t : ℕ) (calls : List (Ip × ℕ)) (s : RateLimiterState Ip)
      → AllBefore t calls
      → s.global_bucket.last_refill ≤ t
      → admissions dec c calls s * token_scale
        ≤ s.global_bucket.tokens + (t - s.global_bucket.last_refill) * s.global_bucket.rate
  unfolding admissions
  admissions-le c t [] s h k = omega arith
  admissions-le c t ((peer, now) ∷ calls) s h k =
      let (pays, since, upto, same) = try_admit_at-Pays c peer now s in
      let s' = (try_admit_at dec c peer now s).1 in
      let rest = admissions-le c t calls s' h.1 (omega arith) in
      let split =
        time_split s.global_bucket.last_refill s'.global_bucket.last_refill t s.global_bucket.rate
          since (omega arith) in
      omega (arith, rw same at rest, split)
