-- ===== src/EdgeForwarder/Admissions.antt =====
-- When a new connection is served, and when it is refused.
use tunnel_proxy.Common.{ℕ, ◌+◌, ◌<◌, ◌≡◌, refl, sym, ap, Option, none, some, length, arith}
use tunnel_proxy.Common.Results.{ok}
use tunnel_proxy.PeerAdmission.Model.{PeerAdmission, PeerAdmissionPermit, try_acquire}
use tunnel_proxy.PeerAdmission.Permits.{held, Reaches-IsCounted, try_acquire-eq-none_iff}
use tunnel_proxy.EdgeConfig.Relay.{ForwardConfig}
use tunnel_proxy.EdgeForwarder.Model.{
  Semaphore, Forwarder, Connections, Admission, spawned, rejected_capacity, rejected_peer_capacity,
  new_with_per_ip_limit, admit_peer, admit_with, count_id, admit_forwarder_connection, Serves,
}
use tunnel_proxy.EdgeForwarder.Bounds.{IsBounded}
use tunnel_proxy.EdgeForwarder.Limits.{served-IsBounded, new_with_per_ip_limit-Makes}

-- What the answer to a new connection says about the connections and those of its address.
unfoldable pub Answers : (connections max_connections per_ip limit : ℕ) → Admission → Type 0
Answers connections max_connections per_ip limit spawned =
    (connections < max_connections) × (per_ip < limit)
Answers connections max_connections per_ip limit rejected_capacity = connections ≡ max_connections
Answers connections max_connections per_ip limit rejected_peer_capacity =
    (connections < max_connections) × (per_ip ≡ limit)

module _ {S Address Ip : Type 0} {max_permits : ℕ} (permits : Semaphore S max_permits)
    (dec : Discrete Ip) (f : Forwarder S Address Ip) where
  admit_peer-Answers :
      (s c : Connections S Address Ip) (peer : Ip) (semaphore : S)
      (answer : Option (PeerAdmissionPermit Ip) × PeerAdmission Ip)
      → IsBounded permits dec f s
      → length s.running < f.config.max_connections
      → try_acquire dec peer s.forwarder.peer_admission ≡ answer
      → Answers
          (length s.running)
          f.config.max_connections
          (held dec peer s.running + held dec peer s.closing)
          f.max_connections_per_ip
          (admit_peer permits dec c semaphore answer).0
  unfolding admit_peer Answers
  admit_peer-Answers s c peer semaphore (none, peers) b room e =
      let full =
        (try_acquire-eq-none_iff dec f.max_connections_per_ip s.forwarder.peer_admission b.all peer
            b.reached).0
          (ap (λ a. a.0) e) in
      (room, omega (arith, full, b.split peer))
  admit_peer-Answers s c peer semaphore (some p, peers) b room e =
      let counted =
        Reaches-IsCounted dec f.max_connections_per_ip s.forwarder.peer_admission b.all b.reached in
      let not_full : held dec peer b.all ≡ f.max_connections_per_ip → ⊥ = λ full.
        let refused =
          (try_acquire-eq-none_iff dec f.max_connections_per_ip s.forwarder.peer_admission b.all
              peer b.reached).1
            full in
        cc (refused, ap (λ a. a.0) e) in
      (room, omega (arith, not_full, counted.bounded peer, b.split peer))

  admit_with-Answers :
      (s c : Connections S Address Ip) (peer : Ip) (semaphore : Option S)
      → IsBounded permits dec f s
      → c.forwarder.peer_admission ≡ s.forwarder.peer_admission
      → permits.try_acquire_owned s.forwarder.semaphore ≡ semaphore
      → Answers
          (length s.running)
          f.config.max_connections
          (held dec peer s.running + held dec peer s.closing)
          f.max_connections_per_ip
          (admit_with permits dec peer c semaphore).0
  unfolding admit_with Answers
  admit_with-Answers s c peer none b same e =
      omega (arith, permits.refused_lem s.forwarder.semaphore e, b.capacity)
  admit_with-Answers s c peer (some semaphore) b same e =
      admit_peer-Answers s c peer semaphore _ b
        (omega (arith, permits.acquired_lem s.forwarder.semaphore semaphore e, b.capacity))
        (ap (try_acquire dec peer) (sym same))

module _ {S Address Ip : Type 0} {max_permits : ℕ} (permits : Semaphore S max_permits)
    (dec : Discrete Ip) where
  -- At any time in the life of a forwarder that `new_with_per_ip_limit` has made, a new connection
  -- is refused for capacity only when as many connections are open as the configuration allows,
  -- refused for its address only when this address holds as many permits as its limit, and served
  -- only when both are below their limits.
  pub admit_forwarder_connection-Answers :
      (c : ForwardConfig Address) (limit : ℕ) (f : Forwarder S Address Ip)
      (s : Connections S Address Ip) (peer : Ip)
      → new_with_per_ip_limit permits c limit ≡ ok f
      → Serves permits dec f s
      → Answers
          (length s.running)
          c.max_connections
          (held dec peer s.running + held dec peer s.closing)
          limit
          (admit_forwarder_connection permits dec peer s).0
  unfolding admit_forwarder_connection count_id
  admit_forwarder_connection-Answers c limit f s peer e run =
      let m = new_with_per_ip_limit-Makes permits c limit f e in
      let b = served-IsBounded permits dec c limit f s e run in
      let max : f.config.max_connections ≡ c.max_connections =
        ap (λ g. g.config.max_connections) m.same in
      let per_ip : f.max_connections_per_ip ≡ limit = ap (λ g. g.max_connections_per_ip) m.same in
      rw (sym max, sym per_ip)
        (admit_with-Answers permits dec f s (count_id permits dec s) peer _ b refl refl)
