-- ===== src/PeerAdmission/Model.antt =====
-- `PeerAdmission` and the `Drop` of its permits. The mutex makes each call one step on the state.
use mathlib.Core.List.{lookup}
use tunnel_proxy.Common.{ℕ, suc, ◌-◌, Option, none, some, List, [], leb, ◌==◌, if◌then◌else◌}
use tunnel_proxy.Common.Dict.{insert, remove}

pub record PeerAdmission (Ip : Type 0) : Type 0 where
  pub max_connections_per_ip : ℕ
  pub active : List (Ip × ℕ)

-- A permit keeps the admission it came from, which is the one of the run, and its peer.
pub record PeerAdmissionPermit (Ip : Type 0) : Type 0 where
  pub peer : Ip

unfoldable pub new : {Ip : Type 0} → ℕ → PeerAdmission Ip
new n = record { max_connections_per_ip = n; active = [] }

-- `copied().unwrap_or(0)`, and the default that `or_default` inserts.
unfoldable pub unwrap_or_zero : Option ℕ → ℕ
unwrap_or_zero none = 0
unwrap_or_zero (some n) = n

module _ {Ip : Type 0} (dec : Discrete Ip) where
  unfoldable pub try_acquire :
      Ip → PeerAdmission Ip → Option (PeerAdmissionPermit Ip) × PeerAdmission Ip
  try_acquire peer s =
      if leb s.max_connections_per_ip (unwrap_or_zero (lookup dec peer s.active))
      then (none, s)
      else (
        some (record { peer = peer }),
        record s {
          active = insert dec peer (suc (unwrap_or_zero (lookup dec peer s.active))) s.active;
        },
      )

  unfoldable pub give_back : Ip → PeerAdmission Ip → Option ℕ → PeerAdmission Ip
  give_back peer s none = s
  give_back peer s (some count) =
      if count - 1 == 0
      then record s { active = remove dec peer s.active }
      else record s { active = insert dec peer (count - 1) s.active }

  unfoldable pub drop : PeerAdmissionPermit Ip → PeerAdmission Ip → PeerAdmission Ip
  drop permit s = give_back permit.peer s (lookup dec permit.peer s.active)
