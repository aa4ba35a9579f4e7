-- ===== src/Codes/Heartbeat.antt =====
-- `HeartbeatErrorCode` of crates/protocol/src/handshake.rs: the code in a payload of ERROR frames.
use tunnel_proxy.Common.{
  ℕ, ◌<◌, ◌≡◌, ◌↔◌, refl, sym, ap, ◌∙◌, Option, none, some, List, [], ◌∷◌, arith, ◌==◌,
  if◌then◌else◌,
}
use tunnel_proxy.Common.Bytes.{IsByte, u16_to_be_bytes, u16_from_be_bytes, u16_to_be_bytes_iff}

pub data HeartbeatErrorCode : Type 0 where
  heartbeat_timeout heartbeat_sequence_mismatch unsolicited_pong : HeartbeatErrorCode
  agent_ping_not_supported invalid_heartbeat_payload unexpected_frame : HeartbeatErrorCode

unfoldable pub as_u16 : HeartbeatErrorCode → ℕ
as_u16 heartbeat_timeout = 1
as_u16 heartbeat_sequence_mismatch = 2
as_u16 unsolicited_pong = 3
as_u16 agent_ping_not_supported = 4
as_u16 invalid_heartbeat_payload = 5
as_u16 unexpected_frame = 6

-- The `match` of `from_be_bytes` on the code.
unfoldable pub from_code : ℕ → Option HeartbeatErrorCode
from_code code =
    if code == 1
    then some heartbeat_timeout
    else if code == 2
    then some heartbeat_sequence_mismatch
    else if code == 3
    then some unsolicited_pong
    else if code == 4
    then some agent_ping_not_supported
    else if code == 5
    then some invalid_heartbeat_payload
    else if code == 6
    then some unexpected_frame
    else none

unfoldable pub to_be_bytes : HeartbeatErrorCode → List ℕ
to_be_bytes c = u16_to_be_bytes (as_u16 c)

unfoldable pub from_be_bytes : ℕ → ℕ → Option HeartbeatErrorCode
from_be_bytes a b = from_code (u16_from_be_bytes a b)

from_code-as_u16 : (c : HeartbeatErrorCode) → from_code (as_u16 c) ≡ some c
unfolding from_code as_u16
from_code-as_u16 heartbeat_timeout = refl
from_code-as_u16 _ = refl

as_u16_of_from_code : (n : ℕ) (c : HeartbeatErrorCode) → from_code n ≡ some c → as_u16 c ≡ n
unfolding from_code as_u16
as_u16_of_from_code n c h = ground arith

as_u16-lt : (c : HeartbeatErrorCode) → as_u16 c < 256
unfolding as_u16
as_u16-lt heartbeat_timeout = omega arith
as_u16-lt _ = omega arith

-- Two bytes decode to a code exactly if they are the bytes that the code is encoded as: every code
-- is read back as it was written, and every other pair of bytes is refused.
pub heartbeat_code_iff :
    (a b : ℕ) (c : HeartbeatErrorCode)
    → IsByte a
    → IsByte b
    → (from_be_bytes a b ≡ some c) ↔ (to_be_bytes c ≡ a ∷ b ∷ [])
unfolding from_be_bytes to_be_bytes
heartbeat_code_iff a b c h k =
    let small = as_u16-lt c in
    let same = u16_to_be_bytes_iff a b (as_u16 c) h k (omega (arith, small)) in
    (
      λ e. same.1 (as_u16_of_from_code (u16_from_be_bytes a b) c e),
      λ e. ap from_code (sym (same.0 e)) ∙ from_code-as_u16 c,
    )

-- `TryFrom<u16>`: the same `match`.
unfoldable pub try_from : ℕ → Option HeartbeatErrorCode
try_from code = from_code code
