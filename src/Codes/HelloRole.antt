-- ===== src/Codes/HelloRole.antt =====
-- `HelloRole` of crates/protocol/src/handshake.rs: the byte in a HELLO payload.
use tunnel_proxy.Common.{ℕ, ◌≡◌, ◌↔◌, Option, none, some, arith, ◌==◌, if◌then◌else◌}

abbrev pub role_agent : ℕ
role_agent = 0x01

pub data HelloRole : Type 0 where
  agent : HelloRole

unfoldable pub from_byte : ℕ → Option HelloRole
from_byte byte = if byte == role_agent then some agent else none

unfoldable pub role_as_u8 : HelloRole → ℕ
role_as_u8 agent = role_agent

-- A byte decodes to a role exactly if it is the byte of that role.
pub hello_role_iff : (b : ℕ) (r : HelloRole) → (from_byte b ≡ some r) ↔ (role_as_u8 r ≡ b)
unfolding from_byte role_as_u8
hello_role_iff b agent = ground arith

abbrev pub role_try_from : ℕ → Option HelloRole
role_try_from byte = from_byte byte
