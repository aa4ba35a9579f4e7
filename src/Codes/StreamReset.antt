-- ===== src/Codes/StreamReset.antt =====
-- `StreamResetCode` of crates/protocol/src/stream.rs: the code in a payload of RESET_STREAM frames.
use tunnel_proxy.Common.{
  ℕ, ◌%◌, ◌<◌, ◌≡◌, ◌↔◌, refl, sym, ap, ◌∙◌, Option, none, some, List, [], ◌∷◌, arith, ◌==◌,
  if◌then◌else◌,
}
use tunnel_proxy.Common.Bytes.{
  IsByte, IsU16, byte_at, u16_round_trip, u16_to_be_bytes, u16_from_be_bytes, u16_to_be_bytes_iff,
}

pub data StreamResetCode : Type 0 where
  local_connect_failed local_connect_timeout io_failure protocol_violation : StreamResetCode
  stream_busy open_timeout idle_timeout capacity_exceeded unknown_stream : StreamResetCode
  flow_control_exceeded session_closing : StreamResetCode

unfoldable pub as_u16 : StreamResetCode → ℕ
as_u16 local_connect_failed = 1
as_u16 local_connect_timeout = 2
as_u16 io_failure = 3
as_u16 protocol_violation = 4
as_u16 stream_busy = 5
as_u16 open_timeout = 6
as_u16 idle_timeout = 7
as_u16 capacity_exceeded = 8
as_u16 unknown_stream = 9
as_u16 flow_control_exceeded = 10
as_u16 session_closing = 11

-- The `match` of `from_be_bytes` on the code.
unfoldable pub from_code : ℕ → Option StreamResetCode
from_code code =
    if code == 1
    then some local_connect_failed
    else if code == 2
    then some local_connect_timeout
    else if code == 3
    then some io_failure
    else if code == 4
    then some protocol_violation
    else if code == 5
    then some stream_busy
    else if code == 6
    then some open_timeout
    else if code == 7
    then some idle_timeout
    else if code == 8
    then some capacity_exceeded
    else if code == 9
    then some unknown_stream
    else if code == 10
    then some flow_control_exceeded
    else if code == 11
    then some session_closing
    else none

unfoldable pub to_be_bytes : StreamResetCode → List ℕ
to_be_bytes c = u16_to_be_bytes (as_u16 c)

unfoldable pub from_be_bytes : ℕ → ℕ → Option StreamResetCode
from_be_bytes a b = from_code (u16_from_be_bytes a b)

from_code-as_u16 : (c : StreamResetCode) → from_code (as_u16 c) ≡ some c
unfolding from_code as_u16
from_code-as_u16 local_connect_failed = refl
from_code-as_u16 _ = refl

as_u16_of_from_code : (n : ℕ) (c : StreamResetCode) → from_code n ≡ some c → as_u16 c ≡ n
unfolding from_code as_u16
as_u16_of_from_code n c h = ground arith

as_u16-lt : (c : StreamResetCode) → as_u16 c < 256
unfolding as_u16
as_u16-lt local_connect_failed = omega arith
as_u16-lt _ = omega arith

-- Two bytes decode to a code exactly if they are the bytes that the code is encoded as: every code
-- is read back as it was written, and every other pair of bytes is refused.
pub reset_code_iff :
    (a b : ℕ) (c : StreamResetCode)
    → IsByte a
    → IsByte b
    → (from_be_bytes a b ≡ some c) ↔ (to_be_bytes c ≡ a ∷ b ∷ [])
unfolding from_be_bytes to_be_bytes
reset_code_iff a b c h k =
    let small = as_u16-lt c in
    let same = u16_to_be_bytes_iff a b (as_u16 c) h k (omega (arith, small)) in
    (
      λ e. same.1 (as_u16_of_from_code (u16_from_be_bytes a b) c e),
      λ e. ap from_code (sym (same.0 e)) ∙ from_code-as_u16 c,
    )

-- `TryFrom<u16>`: through the bytes.
unfoldable pub try_from : ℕ → Option StreamResetCode
try_from value = from_be_bytes (byte_at value 8) (value % 256)

-- A word converts to a code exactly if it is the number of that code.
pub reset_code_try_from_iff :
    (n : ℕ) (c : StreamResetCode) → IsU16 n → (try_from n ≡ some c) ↔ (as_u16 c ≡ n)
unfolding try_from from_be_bytes
reset_code_try_from_iff n c h = (
  λ e. as_u16_of_from_code n c (ap from_code (sym (u16_round_trip n h)) ∙ e),
  λ e. ap from_code (u16_round_trip n h ∙ sym e) ∙ from_code-as_u16 c,
)
