-- ===== src/Codes/Sequence.antt =====
-- `HeartbeatSequence` and `TransportSessionId` of crates/protocol/src/handshake.rs: positive 64-bit
-- numbers in the payloads of PING, PONG and REGISTERED frames. 0 stands for the invalid one.
use tunnel_proxy.Common.{
  ℕ, ◌+◌, ◌-◌, ◌*◌, ◌%◌, ◌^◌, ◌<◌, ◌≡◌, ◌↔◌, Option, none, some, List, [], ◌∷◌, arith, ltb, ◌==◌,
  if◌then◌else◌, Bool,
}
use tunnel_proxy.Common.Bytes.{IsU64, byte_at}

abbrev pub HeartbeatSequence : Type 0
HeartbeatSequence = ℕ

abbrev pub u64_max : ℕ
u64_max = 2 ^ 64 - 1

-- `HeartbeatSequence::new`, and `TransportSessionId::new`.
unfoldable pub new : ℕ → Option HeartbeatSequence
new seq = if seq == 0 then none else some seq

-- `u64::to_be_bytes`
unfoldable pub to_be_bytes : HeartbeatSequence → List ℕ
to_be_bytes n =
    byte_at n 56
    ∷ byte_at n 48
    ∷ byte_at n 40
    ∷ byte_at n 32
    ∷ byte_at n 24
    ∷ byte_at n 16
    ∷ byte_at n 8
    ∷ n % 256
    ∷ []

abbrev pub u64_from_be_bytes : ℕ → ℕ → ℕ → ℕ → ℕ → ℕ → ℕ → ℕ → ℕ
u64_from_be_bytes a b c d e f g h =
    a * 2 ^ 56 + b * 2 ^ 48 + c * 2 ^ 40 + d * 2 ^ 32 + e * 2 ^ 24 + f * 2 ^ 16 + g * 2 ^ 8 + h

-- The array has 8 bytes.
unfoldable pub from_be_bytes : List ℕ → Option HeartbeatSequence
from_be_bytes (a ∷ b ∷ c ∷ d ∷ e ∷ f ∷ g ∷ h ∷ []) = new (u64_from_be_bytes a b c d e f g h)
from_be_bytes _ = none

-- `checked_add(1).and_then(Self::new)`
unfoldable pub checked_next : HeartbeatSequence → Option HeartbeatSequence
checked_next n = if ltb n u64_max then new (n + 1) else none

u64_round_trip :
    (n : ℕ)
    → IsU64 n
    → u64_from_be_bytes
        (byte_at n 56)
        (byte_at n 48)
        (byte_at n 40)
        (byte_at n 32)
        (byte_at n 24)
        (byte_at n 16)
        (byte_at n 8)
        (n % 256)
      ≡ n
u64_round_trip n h = omega arith

-- Encoding and decoding gives a valid number back.
pub from_be_bytes-to_be_bytes :
    (n : HeartbeatSequence) → IsU64 n → 0 < n → from_be_bytes (to_be_bytes n) ≡ some n
unfolding from_be_bytes to_be_bytes new
from_be_bytes-to_be_bytes n h k = let whole = u64_round_trip n h in rw whole (ground arith)

-- The next number is the one that is greater by one, and valid; at the maximum there is none, so
-- that no number is ever used twice.
pub checked_next_iff :
    (n m : HeartbeatSequence) → IsU64 n → (checked_next n ≡ some m) ↔ ((m ≡ n + 1) × IsU64 m)
unfolding checked_next new
checked_next_iff n m h = (λ e. ground arith, λ e. ground arith)

-- `INVALID` and `FIRST`.
abbrev pub invalid : HeartbeatSequence
invalid = 0

abbrev pub first : HeartbeatSequence
first = 1

abbrev pub is_invalid : HeartbeatSequence → Bool
is_invalid n = n == 0

-- `TransportSessionId` has the same operations, without `checked_next`.
abbrev pub TransportSessionId : Type 0
TransportSessionId = ℕ

unfoldable pub session_id_new : ℕ → Option TransportSessionId
session_id_new id = if id == 0 then none else some id

abbrev pub session_id_to_be_bytes : TransportSessionId → List ℕ
session_id_to_be_bytes id = to_be_bytes id

unfoldable pub session_id_from_be_bytes : List ℕ → Option TransportSessionId
session_id_from_be_bytes (a ∷ b ∷ c ∷ d ∷ e ∷ f ∷ g ∷ h ∷ []) =
    session_id_new (u64_from_be_bytes a b c d e f g h)
session_id_from_be_bytes _ = none

-- A REGISTERED payload gives the identifier of the session back.
pub session_id-round_trip :
    (id : TransportSessionId)
    → IsU64 id
    → 0 < id
    → session_id_from_be_bytes (session_id_to_be_bytes id) ≡ some id
unfolding session_id_from_be_bytes to_be_bytes session_id_new
session_id-round_trip id h k = let whole = u64_round_trip id h in rw whole (ground arith)
