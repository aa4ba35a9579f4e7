-- ===== src/EdgeForwarder/Model.antt =====
-- `Forwarder::new`, `admit_forwarder_connection` and the end of the tasks that it spawns.
use tunnel_proxy.Common.{
  ℕ, suc, ◌+◌, ◌^◌, ◌%◌, ◌≤◌, ◌<◌, ◌≡◌, Option, none, some, List, [], ◌∷◌, ◌==◌, ltb, leb,
  if◌then◌else◌,
}
use tunnel_proxy.Common.Results.{Result, ok, ◌>>◌, reject_if}
use tunnel_proxy.PeerAdmission.Model as PeerAdmission
use tunnel_proxy.PeerAdmission.Model.{PeerAdmission, PeerAdmissionPermit, drop}
use tunnel_proxy.PeerAdmission.Permits.{held, release}
use tunnel_proxy.EdgeConfig.Relay.{
  ForwardConfig, ForwardConfigError, validate_forward, zero_max_connections_per_ip,
  per_ip_limit_exceeds_global,
}

abbrev pub default_forward_max_connections_per_ip : ℕ
default_forward_max_connections_per_ip = 25

-- The semaphore of the runtime, which has `max_permits` permits at most: a permit is given unless
-- none is available, and a permit that is dropped is available again.
pub record Semaphore (S : Type 0) (max_permits : ℕ) : Type 0 where
  pub make : ℕ → S
  pub try_acquire_owned : S → Option S
  pub give_back : S → S
  pub available_permits : S → ℕ
  pub make_lem : (n : ℕ) → n ≤ max_permits → available_permits (make n) ≡ n
  pub acquired_lem :
      (s s' : S) → try_acquire_owned s ≡ some s' → available_permits s ≡ suc (available_permits s')
  pub refused_lem : (s : S) → try_acquire_owned s ≡ none → available_permits s ≡ 0
  pub give_back_lem :
      (s : S)
      → available_permits s < max_permits
      → available_permits (give_back s) ≡ suc (available_permits s)

-- `ids` is the counter of `ConnectionIdAllocator`, an atomic of 64 bits that wraps around.
pub record Forwarder (S Address Ip : Type 0) : Type 0 where
  pub config : ForwardConfig Address
  pub semaphore : S
  pub peer_admission : PeerAdmission Ip
  pub max_connections_per_ip : ℕ
  pub ids : ℕ

-- `usize::min`
abbrev pub min : ℕ → ℕ → ℕ
min a b = if leb a b then a else b

module _ {S Address Ip : Type 0} {max_permits : ℕ} (permits : Semaphore S max_permits) where
  unfoldable pub new_with_per_ip_limit :
      ForwardConfig Address → ℕ → Result ForwardConfigError (Forwarder S Address Ip)
  new_with_per_ip_limit c limit = do
    validate_forward max_permits c
    reject_if (limit == 0) zero_max_connections_per_ip
    reject_if (ltb c.max_connections limit) per_ip_limit_exceeds_global
    ok (record {
      config = c;
      semaphore = permits.make c.max_connections;
      peer_admission = PeerAdmission.new limit;
      max_connections_per_ip = limit;
      ids = 0;
    })

  unfoldable pub new : ForwardConfig Address → Result ForwardConfigError (Forwarder S Address Ip)
  unfolding new_with_per_ip_limit
  new c = new_with_per_ip_limit c (min default_forward_max_connections_per_ip c.max_connections)

-- The tasks that hold both permits (running), and those that have dropped the semaphore's permit
-- with the connection's handler, and drop the one of the peer when they end (closing).
pub record Connections (S Address Ip : Type 0) : Type 0 where
  pub forwarder : Forwarder S Address Ip
  pub running : List (PeerAdmissionPermit Ip)
  pub closing : List (PeerAdmissionPermit Ip)

pub data Admission : Type 0 where
  spawned rejected_capacity rejected_peer_capacity : Admission

module _ {S Address Ip : Type 0} {max_permits : ℕ} (permits : Semaphore S max_permits)
    (dec : Discrete Ip) where
  -- A peer that is refused gives the semaphore's permit back.
  unfoldable pub admit_peer :
      Connections S Address Ip
      → S
      → Option (PeerAdmissionPermit Ip) × PeerAdmission Ip
      → Admission × Connections S Address Ip
  admit_peer c semaphore (none, peers) = (
    rejected_peer_capacity,
    record c {
      forwarder = record c.forwarder {
        semaphore = permits.give_back semaphore;
        peer_admission = peers;
      };
    },
  )
  admit_peer c semaphore (some p, peers) = (
    spawned,
    record c {
      forwarder = record c.forwarder { semaphore = semaphore; peer_admission = peers };
      running = p ∷ c.running;
    },
  )

  unfoldable pub admit_with :
      Ip → Connections S Address Ip → Option S → Admission × Connections S Address Ip
  unfolding admit_peer
  admit_with peer c none = (rejected_capacity, c)
  admit_with peer c (some semaphore) =
      admit_peer c semaphore (PeerAdmission.try_acquire dec peer c.forwarder.peer_admission)

  unfoldable pub count_id : Connections S Address Ip → Connections S Address Ip
  count_id c = record c { forwarder = record c.forwarder { ids = (c.forwarder.ids + 1) % 2 ^ 64 } }

  unfoldable pub admit_forwarder_connection :
      Ip → Connections S Address Ip → Admission × Connections S Address Ip
  unfolding admit_with count_id
  admit_forwarder_connection peer c =
      admit_with peer (count_id c) (permits.try_acquire_owned c.forwarder.semaphore)

  -- The handler of a connection of this peer returns, and drops the semaphore's permit.
  unfoldable pub finish :
      PeerAdmissionPermit Ip → Connections S Address Ip → Connections S Address Ip
  finish p c = record {
    forwarder = record c.forwarder { semaphore = permits.give_back c.forwarder.semaphore };
    running = release dec p.peer c.running;
    closing = p ∷ c.closing;
  }

  -- The task ends, and drops the permit of the peer.
  unfoldable pub end_task :
      PeerAdmissionPermit Ip → Connections S Address Ip → Connections S Address Ip
  end_task p c = record c {
    forwarder = record c.forwarder { peer_admission = drop dec p c.forwarder.peer_admission };
    closing = release dec p.peer c.closing;
  }

  -- The connections of one forwarder in any order of admissions and ends.
  pub data Serves (f : Forwarder S Address Ip) : Connections S Address Ip → Type 0 where
    starts : Serves f (record { forwarder = f; running = []; closing = [] })
    admits :
        (c : Connections S Address Ip) (peer : Ip)
        → Serves f c
        → Serves f (admit_forwarder_connection peer c).1
    finishes :
        (c : Connections S Address Ip) (p : PeerAdmissionPermit Ip)
        → Serves f c
        → 0 < held dec p.peer c.running
        → Serves f (finish p c)
    ends :
        (c : Connections S Address Ip) (p : PeerAdmissionPermit Ip)
        → Serves f c
        → 0 < held dec p.peer c.closing
        → Serves f (end_task p c)
