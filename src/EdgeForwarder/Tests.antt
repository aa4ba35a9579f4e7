-- ===== src/EdgeForwarder/Tests.antt =====
-- A forwarder of two connections, one for each address, with a counter for a semaphore.
use mathlib.Core.List.{lookup}
use tunnel_proxy.Common.{ℕ, zero, suc, ◌≡◌, refl, Option, none, some, [], length, ℕ_discrete, ◌+◌}
use tunnel_proxy.Common.Results.{ok}
use tunnel_proxy.Common.Dict.{insert}
use tunnel_proxy.PeerAdmission.Model as PeerAdmission
use tunnel_proxy.PeerAdmission.Permits.{held}
use tunnel_proxy.EdgeConfig.Relay.{ForwardConfig, validate_forward}
use tunnel_proxy.EdgeForwarder.Model.{
  Semaphore, Forwarder, Connections, new_with_per_ip_limit, admit_peer, admit_with, count_id,
  admit_forwarder_connection, Serves, starts, admits,
}
use tunnel_proxy.EdgeForwarder.Limits.{KeepsLimits, Serves-KeepsLimits}
use tunnel_proxy.EdgeForwarder.Admissions.{Answers, admit_forwarder_connection-Answers}

abbrev take_one : ℕ → Option ℕ
take_one zero = none
take_one (suc n) = some n

take_one-some : (n m : ℕ) → take_one n ≡ some m → n ≡ suc m
take_one-some zero m e = absurd (cc e)
take_one-some (suc n) m e = cc e

take_one-none : (n : ℕ) → take_one n ≡ none → n ≡ 0
take_one-none zero e = refl
take_one-none (suc n) e = absurd (cc e)

abbrev counter : Semaphore ℕ 10
counter = record {
  make = λ n. n;
  try_acquire_owned = take_one;
  give_back = λ n. suc n;
  available_permits = λ n. n;
  make_lem = λ n le. refl;
  acquired_lem = take_one-some;
  refused_lem = take_one-none;
  give_back_lem = λ n lt. refl;
}

abbrev forward_config : ForwardConfig ℕ
forward_config = record {
  listen_addr = 7_000;
  upstream_addr = 8_000;
  max_connections = 2;
  connect_timeout = 5;
  relay_idle_timeout = 1_000_000;
}

abbrev forwarder : Forwarder ℕ ℕ ℕ
forwarder = record {
  config = forward_config;
  semaphore = 2;
  peer_admission = PeerAdmission.new 1;
  max_connections_per_ip = 1;
  ids = 0;
}

abbrev idle : Connections ℕ ℕ ℕ
idle = record { forwarder = forwarder; running = []; closing = [] }

program : Unit {0}
unfolding ℕ_discrete lookup insert held PeerAdmission.new PeerAdmission.unwrap_or_zero
    PeerAdmission.try_acquire validate_forward new_with_per_ip_limit admit_peer admit_with count_id
    admit_forwarder_connection Answers
program = tt

is_made : new_with_per_ip_limit {Ip = ℕ} counter forward_config 1 ≡ ok forwarder
unfolding program
is_made = refl

abbrev one_served : Connections ℕ ℕ ℕ
one_served = (admit_forwarder_connection counter ℕ_discrete 9 idle).1

one_open : length one_served.running ≡ 1
unfolding program
one_open = refl

one_served-Serves : Serves counter ℕ_discrete forwarder one_served
one_served-Serves = admits idle 9 starts

Serves-KeepsLimits_example : KeepsLimits counter ℕ_discrete forward_config 1 one_served
Serves-KeepsLimits_example =
    Serves-KeepsLimits counter ℕ_discrete forward_config 1 forwarder one_served is_made
      one_served-Serves

admit_forwarder_connection-Answers_example :
    Answers
      (length one_served.running)
      2
      (held ℕ_discrete 9 one_served.running + held ℕ_discrete 9 one_served.closing)
      1
      (admit_forwarder_connection counter ℕ_discrete 9 one_served).0
admit_forwarder_connection-Answers_example =
    admit_forwarder_connection-Answers counter ℕ_discrete forward_config 1 forwarder one_served 9
      is_made one_served-Serves
