-- ===== src/RateLimit/Table.antt =====
-- The table of source addresses stays bounded and consistent, and no `expect` of `try_admit_at`
-- fails.
use mathlib.Core.List.{lookup}
use tunnel_proxy.Common.{
  ℕ, zero, suc, ◌≤◌, ◌<◌, ◌≡◌, ◌≢◌, refl, ◌∙◌, subst, inl, inr, min, Bool-cases, Option, none, some,
  List, [], ◌∷◌, arith, leb, length,
}
use tunnel_proxy.Common.Dict.{
  insert, Distinct, insert-Distinct, remove-Distinct, length-insert_new, length-insert_old,
  length-remove-le, lookup-insert_self, lookup-remove-none,
}
use tunnel_proxy.Common.Order.{
  position, Once, append-Once, Agree-cases, AllAgree, append-AllAgree, rotate-AllAgree,
  tail-AllAgree, update-AllAgree,
}
use tunnel_proxy.RateLimit.Bucket.{bucket_new}
use tunnel_proxy.RateLimit.Config.{HttpRequestRateLimitConfig}
use tunnel_proxy.RateLimit.Limiter.{
  RateLimiterState, PeerBucket, Admission, panicked, limiter_at, expired, peer_cleanup_batch, visit,
  visits, cleanup_idle_peers, track, take_tokens, take_peer_token, decide, charge, charge_tracked,
  admit_new, admit_peer, after_global, try_admit_at,
}

module _ {Ip : Type 0} (dec : Discrete Ip) where
  -- Every tracked address stands in the clean-up order once, and no other does.
  pub record IsConsistent (s : RateLimiterState Ip) : Type 0 where
    pub distinct : Distinct dec s.peers
    pub once : Once dec s.peer_order
    pub agree : AllAgree dec s.peer_order s.peers

  pub record IsValid (c : HttpRequestRateLimitConfig) (s : RateLimiterState Ip) : Type 0 where
    pub consistent : IsConsistent s
    pub bounded : length s.peers ≤ c.max_tracked_ips
    pub peak : length s.peers ≤ s.peak_tracked_peer_ips

  unlisted :
      (ks : List Ip) (m : List (Ip × PeerBucket)) (peer : Ip)
      → AllAgree dec ks m
      → lookup dec peer m ≡ none
      → position dec peer ks ≡ none
  unlisted ks m peer a new = elim (Agree-cases _ _ (a peer)) [
    | inl (p, q) ↦ p
    | inr (i, b, p, q) ↦ absurd (cc (q, new))
  ]

  visit-peak :
      (now ttl : ℕ) (s : RateLimiterState Ip) (ks : List Ip)
      → (visit dec now ttl s ks).peak_tracked_peer_ips ≡ s.peak_tracked_peer_ips
  unfolding visit
  visit-peak now ttl s [] = refl
  visit-peak now ttl s (peer ∷ rest) = ground arith

  visit-IsConsistent :
      (now ttl : ℕ) (s : RateLimiterState Ip) (ks : List Ip)
      → s.peer_order ≡ ks
      → IsConsistent s
      → IsConsistent (visit dec now ttl s ks)
  unfolding visit
  visit-IsConsistent now ttl s [] e v = v
  visit-IsConsistent now ttl s (peer ∷ rest) e v =
      let o : Once dec (peer ∷ rest) = subst (Once dec) e v.once in
      let a : AllAgree dec (peer ∷ rest) s.peers =
        subst (λ ks. AllAgree dec ks s.peers) e v.agree in
      elim (Bool-cases (expired now ttl (lookup dec peer s.peers))) [
        | inl gone ↦ rw gone (record {
          distinct = remove-Distinct dec peer s.peers v.distinct;
          once = o.1;
          agree = tail-AllAgree dec rest s.peers peer a o;
        })
        | inr kept ↦ rw kept (record {
          distinct = v.distinct;
          once = append-Once dec peer rest o.0 o.1;
          agree = rotate-AllAgree dec rest s.peers peer a o;
        })
      ]

  visits-IsConsistent :
      (n now ttl : ℕ) (s : RateLimiterState Ip)
      → IsConsistent s
      → IsConsistent (visits dec n now ttl s)
  unfolding visits
  visits-IsConsistent zero now ttl s v = v
  visits-IsConsistent (suc n) now ttl s v =
      visits-IsConsistent n now ttl (visit dec now ttl s s.peer_order)
        (visit-IsConsistent now ttl s s.peer_order refl v)

  length-visit :
      (now ttl : ℕ) (s : RateLimiterState Ip) (ks : List Ip)
      → length (visit dec now ttl s ks).peers ≤ length s.peers
  unfolding visit
  length-visit now ttl s [] = omega arith
  length-visit now ttl s (peer ∷ rest) = ground (arith, length-remove-le dec peer s.peers)

  -- The clean-up touches neither the global bucket nor the peak.
  visits-rest :
      (n now ttl : ℕ) (s : RateLimiterState Ip)
      → (length (visits dec n now ttl s).peers ≤ length s.peers)
        × ((visits dec n now ttl s).peak_tracked_peer_ips ≡ s.peak_tracked_peer_ips)
  unfolding visits
  visits-rest zero now ttl s = (omega arith, refl)
  visits-rest (suc n) now ttl s =
      let (shorter, same) = visits-rest n now ttl (visit dec now ttl s s.peer_order) in
      (
        omega (arith, shorter, length-visit now ttl s s.peer_order),
        same ∙ visit-peak now ttl s s.peer_order,
      )

  cleanup-IsValid :
      (c : HttpRequestRateLimitConfig) (now ttl : ℕ) (s : RateLimiterState Ip)
      → IsValid c s
      → IsValid c (cleanup_idle_peers dec now ttl s)
  unfolding cleanup_idle_peers
  cleanup-IsValid c now ttl s v =
      let n = min (length s.peer_order) peer_cleanup_batch in
      let (shorter, same) = visits-rest n now ttl s in
      record {
        consistent = visits-IsConsistent n now ttl s v.consistent;
        bounded = omega arith;
        peak = omega arith;
      }

  track-IsValid :
      (c : HttpRequestRateLimitConfig) (peer : Ip) (now : ℕ) (s : RateLimiterState Ip)
      → IsValid c s
      → lookup dec peer s.peers ≡ none
      → length s.peers < c.max_tracked_ips
      → IsValid c (track dec c peer now s)
  unfolding track
  track-IsValid c peer now s v new room =
      let place : position dec peer s.peer_order ≡ none =
        unlisted s.peer_order s.peers peer v.consistent.agree new in
      record {
        consistent = record {
          distinct = insert-Distinct dec peer _ s.peers v.consistent.distinct;
          once = append-Once dec peer s.peer_order place v.consistent.once;
          agree = append-AllAgree dec s.peer_order s.peers peer _ v.consistent.agree place;
        };
        bounded = omega (arith, length-insert_new dec peer _ s.peers new);
        peak = omega arith;
      }

  lookup-track :
      (c : HttpRequestRateLimitConfig) (peer : Ip) (now : ℕ) (s : RateLimiterState Ip)
      → lookup dec peer (track dec c peer now s).peers
        ≡ some (record {
          bucket = bucket_new c.per_ip_requests_per_second c.per_ip_burst now;
          last_seen = now;
        })
  unfolding track
  lookup-track c peer now s = lookup-insert_self dec peer _ s.peers

  -- The entry of a tracked peer is replaced.
  update-IsValid :
      (c : HttpRequestRateLimitConfig) (peer : Ip) (p q : PeerBucket) (s s' : RateLimiterState Ip)
      → IsValid c s
      → lookup dec peer s.peers ≡ some q
      → s'.peers ≡ insert dec peer p s.peers
      → s'.peer_order ≡ s.peer_order
      → s'.peak_tracked_peer_ips ≡ s.peak_tracked_peer_ips
      → IsValid c s'
  update-IsValid c peer p q s s' v old e f g =
      let same : length s'.peers ≡ length s.peers =
        rw e (length-insert_old dec peer p q s.peers old) in
      record {
        consistent = record {
          distinct = rw e (insert-Distinct dec peer p s.peers v.consistent.distinct);
          once = rw f v.consistent.once;
          agree =
              rw (e, f) (update-AllAgree dec s.peer_order s.peers peer p q v.consistent.agree old);
        };
        bounded = omega (arith, same, v.bounded);
        peak = omega (arith, same, v.peak, g);
      }

  -- The clean-up tracks no address that was not tracked.
  visit-lookup :
      (now ttl : ℕ) (s : RateLimiterState Ip) (ks : List Ip) (peer : Ip)
      → lookup dec peer s.peers ≡ none
      → lookup dec peer (visit dec now ttl s ks).peers ≡ none
  unfolding visit
  visit-lookup now ttl s [] peer h = h
  visit-lookup now ttl s (k ∷ rest) peer h =
      elim (Bool-cases (expired now ttl (lookup dec k s.peers))) [
        | inl gone ↦ rw gone (lookup-remove-none dec peer k s.peers h)
        | inr kept ↦ rw kept h
      ]

  visits-lookup :
      (n now ttl : ℕ) (s : RateLimiterState Ip) (peer : Ip)
      → lookup dec peer s.peers ≡ none
      → lookup dec peer (visits dec n now ttl s).peers ≡ none
  unfolding visits
  visits-lookup zero now ttl s peer h = h
  visits-lookup (suc n) now ttl s peer h =
      visits-lookup n now ttl (visit dec now ttl s s.peer_order) peer
        (visit-lookup now ttl s s.peer_order peer h)

  cleanup-lookup :
      (now ttl : ℕ) (s : RateLimiterState Ip) (peer : Ip)
      → lookup dec peer s.peers ≡ none
      → lookup dec peer (cleanup_idle_peers dec now ttl s).peers ≡ none
  unfolding cleanup_idle_peers
  cleanup-lookup now ttl s peer h = visits-lookup _ now ttl s peer h

  -- What a step promises: a valid state, and no panic.
  abbrev pub IsFine : HttpRequestRateLimitConfig → Admission × RateLimiterState Ip → Type 0
  IsFine c (a, s) = (a ≢ panicked) × IsValid c s

  decide-IsFine :
      (c : HttpRequestRateLimitConfig) (peer : Ip) (p : PeerBucket) (s : RateLimiterState Ip)
      (o : Option ℕ)
      → IsValid c s
      → lookup dec peer s.peers ≡ some p
      → IsFine c (decide dec peer s o)
  unfolding decide take_tokens take_peer_token
  decide-IsFine c peer p s none v h =
      rw h (λ e. cc, update-IsValid c peer _ p s _ v h refl refl refl)
  decide-IsFine c peer p s (some wait) v h = (λ e. cc, v)

  charge-IsFine :
      (c : HttpRequestRateLimitConfig) (peer : Ip) (now : ℕ) (s : RateLimiterState Ip)
      (q : PeerBucket)
      → IsValid c s
      → lookup dec peer s.peers ≡ some q
      → IsFine c (charge dec peer now s (some q))
  unfolding charge
  charge-IsFine c peer now s q v h =
      decide-IsFine c peer _ _ _ (update-IsValid c peer _ q s _ v h refl refl refl)
        (lookup-insert_self dec peer _ s.peers)

  charge_tracked-IsFine :
      (c : HttpRequestRateLimitConfig) (peer : Ip) (now : ℕ) (s : RateLimiterState Ip)
      (q : PeerBucket)
      → IsValid c s
      → lookup dec peer s.peers ≡ some q
      → IsFine c (charge_tracked dec peer now s)
  unfolding charge_tracked
  charge_tracked-IsFine c peer now s q v h = rw h (charge-IsFine c peer now s q v h)

  admit_new-IsFine :
      (c : HttpRequestRateLimitConfig) (peer : Ip) (now : ℕ) (s : RateLimiterState Ip)
      → IsValid c s
      → lookup dec peer s.peers ≡ none
      → IsFine c (admit_new dec c peer now s)
  unfolding admit_new
  admit_new-IsFine c peer now s v new = elim (Bool-cases (leb c.max_tracked_ips (length s.peers))) [
    | inl full ↦ rw full (λ e. cc, v)
    | inr room ↦ rw room (
        charge_tracked-IsFine c peer now (track dec c peer now s) _
          (track-IsValid c peer now s v new (ground arith)) (lookup-track c peer now s))
  ]

  admit_peer-IsFine :
      (c : HttpRequestRateLimitConfig) (peer : Ip) (now : ℕ) (s : RateLimiterState Ip)
      (o : Option PeerBucket)
      → IsValid c s
      → lookup dec peer s.peers ≡ o
      → IsFine c (admit_peer dec c peer now s o)
  unfolding admit_peer
  admit_peer-IsFine c peer now s none v h =
      admit_new-IsFine c peer now _ (cleanup-IsValid c now c.peer_idle_ttl s v)
        (cleanup-lookup now c.peer_idle_ttl s peer h)
  admit_peer-IsFine c peer now s (some q) v h = charge_tracked-IsFine c peer now s q v h

  after_global-IsFine :
      (c : HttpRequestRateLimitConfig) (peer : Ip) (now : ℕ) (s : RateLimiterState Ip)
      (o : Option ℕ)
      → IsValid c s
      → IsFine c (after_global dec c peer now s o)
  unfolding after_global
  after_global-IsFine c peer now s none v = admit_peer-IsFine c peer now s _ v refl
  after_global-IsFine c peer now s (some wait) v = (λ e. cc, v)

  -- From a valid state, whatever the instant, an admission reaches a valid state, so that the table
  -- holds `max_tracked_ips` addresses at most and the clean-up order lists each of them once; and
  -- neither call of `expect` fails.
  pub try_admit_at-IsFine :
      (c : HttpRequestRateLimitConfig) (peer : Ip) (now : ℕ) (s : RateLimiterState Ip)
      → IsValid c s
      → IsFine c (try_admit_at dec c peer now s)
  unfolding try_admit_at
  try_admit_at-IsFine c peer now s v = after_global-IsFine c peer now _ _ (record {
    consistent = record {
      distinct = v.consistent.distinct;
      once = v.consistent.once;
      agree = v.consistent.agree;
    };
    bounded = v.bounded;
    peak = v.peak;
  })

  pub limiter_at-IsValid : (c : HttpRequestRateLimitConfig) (now : ℕ) → IsValid c (limiter_at c now)
  unfolding limiter_at position lookup
  limiter_at-IsValid c now = record {
    consistent = record { distinct = tt; once = tt; agree = λ k. tt };
    bounded = omega arith;
    peak = omega arith;
  }
