-- ===== src/PeerAdmission/Tests.antt =====
-- A run of the admission with a limit of one connection, addresses as numbers.
use mathlib.Core.List.{lookup}
use tunnel_proxy.Common.{ℕ, ◌≡◌, refl, [], ◌∷◌, ℕ_discrete}
use tunnel_proxy.Common.Dict.{insert, remove}
use tunnel_proxy.PeerAdmission.Model.{
  PeerAdmission, PeerAdmissionPermit, new, unwrap_or_zero, try_acquire, give_back, drop,
}
use tunnel_proxy.PeerAdmission.Permits.{
  Reaches, starts, admits, held, release, IsCounted, Reaches-IsCounted,
}

program : Unit {0}
unfolding ℕ_discrete lookup insert remove new unwrap_or_zero try_acquire give_back drop held release
program = tt

abbrev permit : ℕ → PeerAdmissionPermit ℕ
permit n = record { peer = n }

abbrev one_active : PeerAdmission ℕ
one_active = record { max_connections_per_ip = 1; active = (7, 1) ∷ [] }

one_active-Reaches : Reaches ℕ_discrete 1 one_active (permit 7 ∷ [])
unfolding program
one_active-Reaches = admits (new 1) one_active [] 7 (permit 7) starts refl

dropped : drop ℕ_discrete (permit 7) one_active ≡ new 1
unfolding program
dropped = refl

Reaches-IsCounted_example : IsCounted ℕ_discrete 1 one_active (permit 7 ∷ [])
Reaches-IsCounted_example =
    Reaches-IsCounted ℕ_discrete 1 one_active (permit 7 ∷ []) one_active-Reaches
