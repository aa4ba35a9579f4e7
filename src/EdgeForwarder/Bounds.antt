-- ===== src/EdgeForwarder/Bounds.antt =====
-- The forwarder keeps to its limits, whatever the order of admissions and ends.
use tunnel_proxy.Common.{
  ℕ, suc, ◌+◌, ◌≤◌, ◌<◌, ◌≡◌, refl, Option, none, some, List, [], ◌∷◌, length, arith,
}
use tunnel_proxy.PeerAdmission.Model.{PeerAdmission, PeerAdmissionPermit, try_acquire}
use tunnel_proxy.PeerAdmission.Permits.{
  held, release, Reaches, admits, refuses, drops, held-release_self, held-release_ne,
  held-cons_self, held-cons_ne,
}
use tunnel_proxy.EdgeForwarder.Model.{
  Semaphore, Forwarder, Connections, Admission, new_with_per_ip_limit, new, min, admit_peer,
  admit_with, count_id, admit_forwarder_connection, finish, end_task, Serves,
}
use tunnel_proxy.EdgeForwarder.Model as Forwarding

module _ {Ip : Type 0} (dec : Discrete Ip) where
  length-release :
      (peer : Ip) (ps : List (PeerAdmissionPermit Ip))
      → 0 < held dec peer ps
      → suc (length (release dec peer ps)) ≡ length ps
  unfolding held release
  length-release peer [] some_held = absurd (omega arith)
  length-release peer (p ∷ ps) some_held = ground (arith, length-release peer ps)

module _ {S Address Ip : Type 0} {max_permits : ℕ} (permits : Semaphore S max_permits)
    (dec : Discrete Ip) (f : Forwarder S Address Ip) where
  -- `all` are the permits of peers that are held.
  pub record IsBounded (c : Connections S Address Ip) : Type 0 where
    pub all : List (PeerAdmissionPermit Ip)
    pub reached : Reaches dec f.max_connections_per_ip c.forwarder.peer_admission all
    pub split : (peer : Ip) → held dec peer all ≡ held dec peer c.running + held dec peer c.closing
    pub capacity :
        permits.available_permits c.forwarder.semaphore + length c.running
        ≡ f.config.max_connections
    pub fits : f.config.max_connections ≤ max_permits

  -- One more permit of a peer, in `all` and among the running.
  cons-split :
      (p : PeerAdmissionPermit Ip) (all running closing : List (PeerAdmissionPermit Ip))
      → ((peer : Ip) → held dec peer all ≡ held dec peer running + held dec peer closing)
      → (peer : Ip) → held dec peer (p ∷ all) ≡ held dec peer (p ∷ running) + held dec peer closing
  unfolding held
  cons-split p all running closing split peer = omega (arith, split peer)

  move-split :
      (p : PeerAdmissionPermit Ip) (all running closing : List (PeerAdmissionPermit Ip))
      → ((peer : Ip) → held dec peer all ≡ held dec peer running + held dec peer closing)
      → 0 < held dec p.peer running
      → (peer : Ip)
      → held dec peer all ≡ held dec peer (release dec p.peer running) + held dec peer (p ∷ closing)
  move-split p all running closing split some_held peer = elim (dec peer p.peer) [
    | yes same ↦ rw same (
        omega
          (arith, split p.peer, held-release_self dec p.peer running, held-cons_self dec p closing))
    | no ne ↦ omega (
      arith,
      split peer,
      held-release_ne dec p.peer peer running ne,
      held-cons_ne dec peer p closing ne,
    )
  ]

  release-split :
      (p : PeerAdmissionPermit Ip) (all running closing : List (PeerAdmissionPermit Ip))
      → ((peer : Ip) → held dec peer all ≡ held dec peer running + held dec peer closing)
      → 0 < held dec p.peer closing
      → (peer : Ip)
      → held dec peer (release dec p.peer all)
        ≡ held dec peer running + held dec peer (release dec p.peer closing)
  release-split p all running closing split some_held peer = elim (dec peer p.peer) [
    | yes same ↦ rw same (
        omega (
          arith,
          split p.peer,
          held-release_self dec p.peer all,
          held-release_self dec p.peer closing,
        ))
    | no ne ↦ omega (
      arith,
      split peer,
      held-release_ne dec p.peer peer all ne,
      held-release_ne dec p.peer peer closing ne,
    )
  ]

  admit_peer-IsBounded :
      (c : Connections S Address Ip) (peer : Ip) (semaphore : S)
      (answer : Option (PeerAdmissionPermit Ip) × PeerAdmission Ip)
      → IsBounded c
      → permits.available_permits c.forwarder.semaphore ≡ suc (permits.available_permits semaphore)
      → try_acquire dec peer c.forwarder.peer_admission ≡ answer
      → IsBounded (admit_peer permits dec c semaphore answer).1
  unfolding admit_peer
  admit_peer-IsBounded c peer semaphore (none, peers) b taken e = record {
    all = b.all;
    reached = refuses c.forwarder.peer_admission peers b.all peer b.reached e;
    split = b.split;
    capacity =
        let room : permits.available_permits semaphore < max_permits =
          omega (arith, b.capacity, b.fits) in
        omega (arith, b.capacity, permits.give_back_lem semaphore room);
    fits = b.fits;
  }
  admit_peer-IsBounded c peer semaphore (some p, peers) b taken e = record {
    all = p ∷ b.all;
    reached = admits c.forwarder.peer_admission peers b.all peer p b.reached e;
    split = cons-split p b.all c.running c.closing b.split;
    capacity = omega (arith, b.capacity);
    fits = b.fits;
  }

  admit_with-IsBounded :
      (c : Connections S Address Ip) (peer : Ip) (semaphore : Option S)
      → IsBounded c
      → permits.try_acquire_owned c.forwarder.semaphore ≡ semaphore
      → IsBounded (admit_with permits dec peer c semaphore).1
  unfolding admit_with
  admit_with-IsBounded c peer none b e = b
  admit_with-IsBounded c peer (some semaphore) b e =
      admit_peer-IsBounded c peer semaphore _ b
        (permits.acquired_lem c.forwarder.semaphore semaphore e) refl

  count_id-IsBounded :
      (c : Connections S Address Ip) → IsBounded c → IsBounded (count_id permits dec c)
  unfolding count_id
  count_id-IsBounded c b = record {
    all = b.all;
    reached = b.reached;
    split = b.split;
    capacity = b.capacity;
    fits = b.fits;
  }

  admits-IsBounded :
      (c : Connections S Address Ip) (peer : Ip)
      → IsBounded c
      → IsBounded (admit_forwarder_connection permits dec peer c).1
  unfolding admit_forwarder_connection count_id
  admits-IsBounded c peer b =
      admit_with-IsBounded (count_id permits dec c) peer _ (count_id-IsBounded c b) refl

  finish-IsBounded :
      (c : Connections S Address Ip) (p : PeerAdmissionPermit Ip)
      → IsBounded c
      → 0 < held dec p.peer c.running
      → IsBounded (finish permits dec p c)
  unfolding finish
  finish-IsBounded c p b some_held = record {
    all = b.all;
    reached = b.reached;
    split = move-split p b.all c.running c.closing b.split some_held;
    capacity =
        let fewer = length-release dec p.peer c.running some_held in
        let room : permits.available_permits c.forwarder.semaphore < max_permits =
          omega (arith, fewer, b.capacity, b.fits) in
        omega (arith, fewer, b.capacity, permits.give_back_lem c.forwarder.semaphore room);
    fits = b.fits;
  }

  end_task-IsBounded :
      (c : Connections S Address Ip) (p : PeerAdmissionPermit Ip)
      → IsBounded c
      → 0 < held dec p.peer c.closing
      → IsBounded (end_task permits dec p c)
  unfolding end_task
  end_task-IsBounded c p b some_held = record {
    all = release dec p.peer b.all;
    reached = drops c.forwarder.peer_admission b.all p b.reached (omega (arith, b.split p.peer));
    split = release-split p b.all c.running c.closing b.split some_held;
    capacity = b.capacity;
    fits = b.fits;
  }

  pub Serves-IsBounded :
      (c : Connections S Address Ip)
      → IsBounded (record { forwarder = f; running = []; closing = [] })
      → Serves permits dec f c
      → IsBounded c
  Serves-IsBounded _ b Forwarding.starts = b
  Serves-IsBounded _ b (Forwarding.admits c peer s) =
      admits-IsBounded c peer (Serves-IsBounded c b s)
  Serves-IsBounded _ b (Forwarding.finishes c p s some_held) =
      finish-IsBounded c p (Serves-IsBounded c b s) some_held
  Serves-IsBounded _ b (Forwarding.ends c p s some_held) =
      end_task-IsBounded c p (Serves-IsBounded c b s) some_held
