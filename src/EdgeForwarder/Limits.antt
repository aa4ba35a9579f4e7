-- ===== src/EdgeForwarder/Limits.antt =====
-- What a forwarder that was constructed promises to its clients.
use tunnel_proxy.Common.{
  ℕ, ◌+◌, ◌≤◌, ◌<◌, ◌≡◌, ◌↔◌, refl, ap, [], length, arith, false, ltb, ◌==◌, inl, inr, Bool-cases,
}
use tunnel_proxy.Common.Results.{ok, Result-cases}
use tunnel_proxy.PeerAdmission.Model as PeerAdmission
use tunnel_proxy.PeerAdmission.Model.{PeerAdmission, PeerAdmissionPermit, try_acquire}
use tunnel_proxy.PeerAdmission.Permits.{held, starts, Reaches-IsCounted}
use tunnel_proxy.EdgeConfig.Relay.{
  ForwardConfig, validate_forward, IsForwardable, validate_forward_iff,
}
use tunnel_proxy.EdgeForwarder.Model.{
  Semaphore, Forwarder, Connections, new_with_per_ip_limit, new, Serves,
}
use tunnel_proxy.EdgeForwarder.Bounds.{IsBounded, Serves-IsBounded}

module _ {S Address Ip : Type 0} {max_permits : ℕ} (permits : Semaphore S max_permits) where
  -- The forwarder of a configuration.
  abbrev pub made : ForwardConfig Address → ℕ → Forwarder S Address Ip
  made c limit = record {
    config = c;
    semaphore = permits.make c.max_connections;
    peer_admission = PeerAdmission.new limit;
    max_connections_per_ip = limit;
    ids = 0;
  }

  pub record Makes (c : ForwardConfig Address) (limit : ℕ) (f : Forwarder S Address Ip)
      : Type 0 where
    pub forwardable : IsForwardable max_permits c
    pub limit_min : 0 < limit
    pub limit_max : limit ≤ c.max_connections
    pub same : f ≡ made c limit

  pub new_with_per_ip_limit-Makes :
      (c : ForwardConfig Address) (limit : ℕ) (f : Forwarder S Address Ip)
      → new_with_per_ip_limit permits c limit ≡ ok f
      → Makes c limit f
  unfolding new_with_per_ip_limit
  new_with_per_ip_limit-Makes c limit f e = elim (Result-cases (validate_forward max_permits c)) [
    | inl (u, valid) ↦ elim (Bool-cases (limit == 0)) [
      | inl none_allowed ↦ absurd (let e' = rw (valid, none_allowed) at e in cc e')
      | inr some_allowed ↦ elim (Bool-cases (ltb c.max_connections limit)) [
        | inl too_many ↦ absurd (let e' = rw (valid, some_allowed, too_many) at e in cc e')
        | inr fits ↦
            let e' = rw (valid, some_allowed, fits) at e in
            record {
              forwardable = (validate_forward_iff max_permits c).0 valid;
              limit_min = ground arith;
              limit_max = ground arith;
              same = cc e';
            }
      ]
    ]
    | inr (e', invalid) ↦ absurd (let e'' = rw invalid at e in cc e'')
  ]

  made-eq :
      (c : ForwardConfig Address) (limit : ℕ)
      → validate_forward max_permits c ≡ ok tt
      → 0 < limit
      → limit ≤ c.max_connections
      → new_with_per_ip_limit permits c limit ≡ ok (made c limit)
  unfolding new_with_per_ip_limit
  made-eq c limit valid some_allowed fits =
      let some' : (limit == 0) ≡ false = ground arith in
      let fits' : ltb c.max_connections limit ≡ false = ground arith in
      rw (valid, some', fits') refl

  -- `Forwarder::new` accepts exactly the configurations that `ForwardConfig::validate` accepts: the
  -- limit for each address that it chooses is never refused.
  pub new-accepts_iff :
      (c : ForwardConfig Address)
      → ((f : Forwarder S Address Ip) × (new permits c ≡ ok f))
        ↔ (validate_forward max_permits c ≡ ok tt)
  unfolding new
  new-accepts_iff c = (
    λ (f, e).
        let m = new_with_per_ip_limit-Makes c _ f e in
        (validate_forward_iff max_permits c).1 m.forwardable,
    λ valid.
        let v = (validate_forward_iff max_permits c).0 valid in
        (_, made-eq c _ valid (ground (arith, v.connections)) (ground (arith, v.connections))),
  )

module _ {S Address Ip : Type 0} {max_permits : ℕ} (permits : Semaphore S max_permits)
    (dec : Discrete Ip) where
  made-IsBounded :
      (c : ForwardConfig Address) (limit : ℕ) (f : Forwarder S Address Ip)
      → Makes permits c limit f
      → IsBounded permits dec f (record { forwarder = f; running = []; closing = [] })
  unfolding held
  made-IsBounded c limit f m = rw m.same (record {
    all = [];
    reached = starts;
    split = λ peer. refl;
    capacity = omega (arith, permits.make_lem c.max_connections m.forwardable.permits);
    fits = m.forwardable.permits;
  })

  -- What holds of the connections of a forwarder at any time.
  pub record KeepsLimits (c : ForwardConfig Address) (limit : ℕ) (s : Connections S Address Ip)
      : Type 0 where
    pub connections : length s.running ≤ c.max_connections
    pub per_ip : (peer : Ip) → held dec peer s.running + held dec peer s.closing ≤ limit
    pub below : limit ≤ c.max_connections
    pub supported : c.max_connections ≤ max_permits

  pub served-IsBounded :
      (c : ForwardConfig Address) (limit : ℕ) (f : Forwarder S Address Ip)
      (s : Connections S Address Ip)
      → new_with_per_ip_limit permits c limit ≡ ok f
      → Serves permits dec f s
      → IsBounded permits dec f s
  served-IsBounded c limit f s e run =
      Serves-IsBounded permits dec f s
        (made-IsBounded c limit f (new_with_per_ip_limit-Makes permits c limit f e)) run

  -- A forwarder that `new_with_per_ip_limit` has made never has more connections open than its
  -- configuration allows, and no address ever holds more permits than the limit for each address,
  -- whatever the order in which connections are admitted, refused and end; the limit for each
  -- address is at most that for all, and this at most what the semaphore supports.
  pub Serves-KeepsLimits :
      (c : ForwardConfig Address) (limit : ℕ) (f : Forwarder S Address Ip)
      (s : Connections S Address Ip)
      → new_with_per_ip_limit permits c limit ≡ ok f
      → Serves permits dec f s
      → KeepsLimits c limit s
  Serves-KeepsLimits c limit f s e run =
      let m = new_with_per_ip_limit-Makes permits c limit f e in
      let b = served-IsBounded c limit f s e run in
      let same : f.config ≡ c = ap (λ g. g.config) m.same in
      let per_ip : f.max_connections_per_ip ≡ limit = ap (λ g. g.max_connections_per_ip) m.same in
      let max : f.config.max_connections ≡ c.max_connections = ap (λ d. d.max_connections) same in
      let counted =
        Reaches-IsCounted dec f.max_connections_per_ip s.forwarder.peer_admission b.all b.reached in
      record {
        connections = omega (arith, b.capacity, max);
        per_ip = λ peer. omega (arith, b.split peer, counted.bounded peer, per_ip);
        below = m.limit_max;
        supported = m.forwardable.permits;
      }
