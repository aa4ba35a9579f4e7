-- ===== src/RateLimit/Bucket.antt =====
-- `TokenBucket`. Tokens are `u128` values, and their arithmetic saturates.
use native.Mathlib.Nat.{div-add-mod', mod-lt, div-le_self, mul-le-mul_right}
use tunnel_proxy.Common.{
  ℕ, zero, suc, ◌+◌, ◌-◌, ◌*◌, ◌/◌, ◌%◌, ◌^◌, ◌≤◌, ◌<◌, ◌≡◌, ◌≢◌, ◌↔◌, inl, inr, Bool-cases, min,
  max, Option, none, some, arith, leb, if◌then◌else◌,
}

abbrev pub token_scale : ℕ
token_scale = 1_000_000_000

abbrev pub u128_max : ℕ
u128_max = 2 ^ 128 - 1

abbrev pub u64_max : ℕ
u64_max = 2 ^ 64 - 1

abbrev pub saturating_add : ℕ → ℕ → ℕ
saturating_add a b = min (a + b) u128_max

abbrev pub saturating_mul : ℕ → ℕ → ℕ
saturating_mul a b = min (a * b) u128_max

pub record TokenBucket : Type 0 where
  pub rate : ℕ
  pub capacity : ℕ
  pub tokens : ℕ
  pub last_refill : ℕ

unfoldable pub bucket_new : ℕ → ℕ → ℕ → TokenBucket
bucket_new rate burst now = record {
  rate = rate;
  capacity = burst * token_scale;
  tokens = burst * token_scale;
  last_refill = now;
}

unfoldable pub refill : TokenBucket → ℕ → TokenBucket
refill b now = if leb now b.last_refill then b else record b {
  tokens = min (saturating_add b.tokens (saturating_mul (now - b.last_refill) b.rate)) b.capacity;
  last_refill = now;
}

-- `None` if a token is there, otherwise the time to wait. A rate of 0 is refused by `validate`.
unfoldable pub retry_after : TokenBucket → Option ℕ
retry_after b =
    if leb token_scale b.tokens
    then none
    else some (min (saturating_add (token_scale - b.tokens) (b.rate - 1) / b.rate) u64_max)

unfoldable pub consume : TokenBucket → TokenBucket
consume b = record b { tokens = b.tokens - token_scale }

-- A bucket made by `bucket_new` from a quota that `validate` accepts, after any use.
pub record IsValid (b : TokenBucket) : Type 0 where
  pub positive : 0 < b.rate
  pub modest : b.rate ≤ 1_000_000
  pub holds_one : token_scale ≤ b.capacity
  pub below_max : b.capacity ≤ u128_max
  pub filled : b.tokens ≤ b.capacity

pub refill-IsValid : (b : TokenBucket) (now : ℕ) → IsValid b → IsValid (refill b now)
unfolding refill
refill-IsValid b now v = ground arith

pub consume-IsValid : (b : TokenBucket) → IsValid b → IsValid (consume b)
unfolding consume
consume-IsValid b v = ground arith

ceil_by :
    (q n r m : ℕ)
    → q * r + m ≡ n + (r - 1)
    → m < r
    → 0 < n
    → (n ≤ q * r) × ((q - 1) * r < n) × (0 < q)
ceil_by zero n r m e h k = absurd (omega arith)
ceil_by (suc q) n r m e h k = (omega arith, grind arith, omega arith)

-- A quotient rounded up: the least count of `r`s that reach `n`.
ceil_bounds :
    (n r : ℕ)
    → 0 < n
    → 0 < r
    → let q = (n + (r - 1)) / r in (n ≤ q * r) × ((q - 1) * r < n) × (0 < q)
ceil_bounds n r h k =
    ceil_by _ n r ((n + (r - 1)) % r) (div-add-mod' (n + (r - 1)) r) (mod-lt (n + (r - 1)) k) h

-- The time to wait is exact: with it a token is there, and with a nanosecond less it is not.
pub retry_after_lem :
    (b : TokenBucket) (d : ℕ)
    → IsValid b
    → retry_after b ≡ some d
    → (b.tokens < token_scale)
      × (token_scale ≤ b.tokens + d * b.rate)
      × (b.tokens + (d - 1) * b.rate < token_scale)
      × (0 < d)
unfolding retry_after
retry_after_lem b d v e = ground (
  arith,
  ceil_bounds (token_scale - b.tokens) b.rate,
  div-le_self (token_scale - b.tokens + (b.rate - 1)) b.rate,
)

pub retry_after-eq-none_iff : (b : TokenBucket) → (retry_after b ≡ none) ↔ (token_scale ≤ b.tokens)
unfolding retry_after
retry_after-eq-none_iff b = ground arith

-- On a valid bucket no saturation shows: the tokens are those there were and `rate` for each
-- nanosecond, up to the capacity.
pub tokens-refill :
    (b : TokenBucket) (k : ℕ)
    → IsValid b
    → (refill b (b.last_refill + k)).tokens ≡ min (b.tokens + k * b.rate) b.capacity
unfolding refill
tokens-refill b k v = elim (Bool-cases (leb (b.last_refill + k) b.last_refill)) [
  | inl still ↦ let z : k ≡ 0 = ground arith in rw (still, z) (omega arith)
  | inr later ↦
      let same : b.last_refill + k - b.last_refill ≡ k = omega arith in
      rw (later, same) (omega arith)
]

-- The advice of `retry_after` is exact: a client that waits for the time it names finds a token,
-- and one that waits for less does not.
pub retry_after-refill :
    (b : TokenBucket) (d e : ℕ)
    → IsValid b
    → retry_after b ≡ some d
    → (retry_after (refill b (b.last_refill + d)) ≡ none)
      × (e < d → retry_after (refill b (b.last_refill + e)) ≢ none)
retry_after-refill b d e v h =
    let facts = retry_after_lem b d v h in
    (
      (retry_after-eq-none_iff _).1 (omega (arith, tokens-refill b d v, facts)),
      λ less none_left. absurd (
          omega (
            arith,
            tokens-refill b e v,
            (retry_after-eq-none_iff _).0 none_left,
            facts,
            mul-le-mul_right {m = e} {n = d - 1} b.rate (omega arith),
          )),
    )

-- Tokens come in at `rate` per nanosecond at most, and the clock of the bucket never goes back.
pub refill-potential :
    (b : TokenBucket) (now : ℕ)
    → ((refill b now).tokens ≤ b.tokens + ((refill b now).last_refill - b.last_refill) * b.rate)
      × (b.last_refill ≤ (refill b now).last_refill)
      × ((refill b now).last_refill ≤ max b.last_refill now)
      × ((refill b now).rate ≡ b.rate)
      × ((refill b now).capacity ≡ b.capacity)
unfolding refill
refill-potential b now = elim (Bool-cases (leb now b.last_refill)) [
  | inl still ↦ rw still (omega arith)
  | inr later ↦ rw later (ground arith)
]
