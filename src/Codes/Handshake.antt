-- ===== src/Codes/Handshake.antt =====
-- `HandshakeErrorCode` of crates/protocol/src/handshake.rs: the code in a payload of ERROR frames.
use tunnel_proxy.Common.{
  ℕ, ◌<◌, ◌≡◌, ◌↔◌, refl, sym, ap, ◌∙◌, Option, none, some, List, [], ◌∷◌, arith, ◌==◌,
  if◌then◌else◌,
}
use tunnel_proxy.Common.Bytes.{IsByte, u16_to_be_bytes, u16_from_be_bytes, u16_to_be_bytes_iff}

pub data HandshakeErrorCode : Type 0 where
  unexpected_frame invalid_hello invalid_register protocol_violation : HandshakeErrorCode
  unauthorized_agent unauthorized_tunnel tunnel_disabled : HandshakeErrorCode
  tunnel_already_connected : HandshakeErrorCode

unfoldable pub as_u16 : HandshakeErrorCode → ℕ
as_u16 unexpected_frame = 1
as_u16 invalid_hello = 2
as_u16 invalid_register = 3
as_u16 protocol_violation = 4
as_u16 unauthorized_agent = 5
as_u16 unauthorized_tunnel = 6
as_u16 tunnel_disabled = 7
as_u16 tunnel_already_connected = 8

-- The `match` of `from_be_bytes` on the code.
unfoldable pub from_code : ℕ → Option HandshakeErrorCode
from_code code =
    if code == 1
    then some unexpected_frame
    else if code == 2
    then some invalid_hello
    else if code == 3
    then some invalid_register
    else if code == 4
    then some protocol_violation
    else if code == 5
    then some unauthorized_agent
    else if code == 6
    then some unauthorized_tunnel
    else if code == 7
    then some tunnel_disabled
    else if code == 8
    then some tunnel_already_connected
    else none

unfoldable pub to_be_bytes : HandshakeErrorCode → List ℕ
to_be_bytes c = u16_to_be_bytes (as_u16 c)

unfoldable pub from_be_bytes : ℕ → ℕ → Option HandshakeErrorCode
from_be_bytes a b = from_code (u16_from_be_bytes a b)

from_code-as_u16 : (c : HandshakeErrorCode) → from_code (as_u16 c) ≡ some c
unfolding from_code as_u16
from_code-as_u16 unexpected_frame = refl
from_code-as_u16 _ = refl

as_u16_of_from_code : (n : ℕ) (c : HandshakeErrorCode) → from_code n ≡ some c → as_u16 c ≡ n
unfolding from_code as_u16
as_u16_of_from_code n c h = ground arith

as_u16-lt : (c : HandshakeErrorCode) → as_u16 c < 256
unfolding as_u16
as_u16-lt unexpected_frame = omega arith
as_u16-lt _ = omega arith

-- Two bytes decode to a code exactly if they are the bytes that the code is encoded as: every code
-- is read back as it was written, and every other pair of bytes is refused.
pub handshake_code_iff :
    (a b : ℕ) (c : HandshakeErrorCode)
    → IsByte a
    → IsByte b
    → (from_be_bytes a b ≡ some c) ↔ (to_be_bytes c ≡ a ∷ b ∷ [])
unfolding from_be_bytes to_be_bytes
handshake_code_iff a b c h k =
    let small = as_u16-lt c in
    let same = u16_to_be_bytes_iff a b (as_u16 c) h k (omega (arith, small)) in
    (
      λ e. same.1 (as_u16_of_from_code (u16_from_be_bytes a b) c e),
      λ e. ap from_code (sym (same.0 e)) ∙ from_code-as_u16 c,
    )

-- `TryFrom<u16>`: the same `match`.
unfoldable pub try_from : ℕ → Option HandshakeErrorCode
try_from code = from_code code
