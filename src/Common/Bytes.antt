-- ===== src/Common/Bytes.antt =====
-- Machine words as natural numbers, and their big-endian bytes: `to_be_bytes`, `from_be_bytes`.
use Prim.Native.Nat.{ℕ, ◌+◌, ◌*◌, ◌/◌, ◌%◌, ◌^◌, ◌<◌}
use mathlib.Core.Path.{◌≡◌, refl}
use mathlib.Core.Logic.{◌↔◌}
use mathlib.Core.List.{List, [], ◌∷◌}
use mathlib.Core.Option.{Option, none, some}
use native.Mathlib.Omega.{arith}
use tunnel_proxy.Common.Bools.{ltb, if◌then◌else◌}

abbrev pub IsByte : ℕ → Type 0
IsByte b = b < 256

abbrev pub IsU16 : ℕ → Type 0
IsU16 n = n < 2 ^ 16

abbrev pub IsU32 : ℕ → Type 0
IsU32 n = n < 2 ^ 32

abbrev pub IsU64 : ℕ → Type 0
IsU64 n = n < 2 ^ 64

-- `(x >> k) as u8`.
abbrev pub byte_at : ℕ → ℕ → ℕ
byte_at x k = x / 2 ^ k % 256

abbrev pub u16_to_be_bytes : ℕ → List ℕ
u16_to_be_bytes n = byte_at n 8 ∷ n % 256 ∷ []

abbrev pub u16_from_be_bytes : ℕ → ℕ → ℕ
u16_from_be_bytes a b = a * 2 ^ 8 + b

abbrev pub u32_from_be_bytes : ℕ → ℕ → ℕ → ℕ → ℕ
u32_from_be_bytes a b c d = a * 2 ^ 24 + b * 2 ^ 16 + c * 2 ^ 8 + d

-- `u32::try_from`.
abbrev pub u32_try_from : ℕ → Option ℕ
u32_try_from n = if ltb n (2 ^ 32) then some n else none

pub u16_round_trip : (n : ℕ) → IsU16 n → u16_from_be_bytes (byte_at n 8) (n % 256) ≡ n
u16_round_trip n h = omega arith

pub u32_round_trip :
    (n : ℕ) → IsU32 n → u32_from_be_bytes (byte_at n 24) (byte_at n 16) (byte_at n 8) (n % 256) ≡ n
u32_round_trip n h = omega arith

-- The two bytes of a word, and the word of two bytes.
pub u16_to_be_bytes_iff :
    (a b n : ℕ)
    → IsByte a
    → IsByte b
    → IsU16 n
    → (u16_to_be_bytes n ≡ a ∷ b ∷ []) ↔ (n ≡ u16_from_be_bytes a b)
u16_to_be_bytes_iff a b n h k l = (
  λ e.
      let high : byte_at n 8 ≡ a = cc e in let low : n % 256 ≡ b = cc e in omega (arith, high, low),
  λ e.
      let high : byte_at n 8 ≡ a = omega (arith, e) in
      let low : n % 256 ≡ b = omega (arith, e) in rw (high, low) refl,
)
