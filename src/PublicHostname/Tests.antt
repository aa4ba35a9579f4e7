-- ===== src/PublicHostname/Tests.antt =====
-- Host names at concrete bytes; no string counts as an address.
use tunnel_proxy.Common.{ℕ, ◌≡◌, refl, Bool, false, List, [], ◌∷◌}
use tunnel_proxy.Common.Results.{ok, err}
use tunnel_proxy.PublicHostname.Model.{
  strip_dot, split_dots, is_bad_label, check_name, normalize_dns_hostname, empty, invalid_label,
  port_not_allowed,
}
use tunnel_proxy.PublicHostname.Names.{IsNormalOf, normalize_dns_hostname-IsNormalOf}

program : Unit {0}
unfolding strip_dot split_dots is_bad_label check_name normalize_dns_hostname
program = tt

abbrev no_address : List ℕ → Bool
no_address name = false

-- "A.b." and "a.b"
abbrev written : List ℕ
written = 65 ∷ 46 ∷ 98 ∷ 46 ∷ []

abbrev canonical : List ℕ
canonical = 97 ∷ 46 ∷ 98 ∷ []

normalizes : normalize_dns_hostname no_address written ≡ ok canonical
unfolding program
normalizes = refl

refuses :
    (normalize_dns_hostname no_address (46 ∷ []) ≡ err empty)
    × (normalize_dns_hostname no_address (97 ∷ 46 ∷ 46 ∷ []) ≡ err invalid_label)
    × (normalize_dns_hostname no_address (45 ∷ 97 ∷ []) ≡ err invalid_label)
    × (normalize_dns_hostname no_address (97 ∷ 58 ∷ 56 ∷ []) ≡ err port_not_allowed)
unfolding program
refuses = (refl, refl, refl, refl)

normalize_dns_hostname-IsNormalOf_example : IsNormalOf no_address written canonical
normalize_dns_hostname-IsNormalOf_example =
    normalize_dns_hostname-IsNormalOf no_address written canonical normalizes
