-- ===== src/Registration/DurableId.antt =====
-- `AgentId` and `TunnelId` of crates/common/src/lib.rs. A string is the list of its UTF-8 bytes.
use tunnel_proxy.Common.{
  ℕ, suc, ◌≤◌, ◌<◌, ◌≡◌, ◌↔◌, ◌⊎◌, Bool, false, not, ◌&&◌, ◌||◌, List, [], ◌∷◌, All, arith, ltb,
  leb, ◌==◌, length, Bool-cases, inl, inr, refl, sym, ap, ◌∙◌,
}
use tunnel_proxy.Common.Results.{Result, ok, ◌>>◌, reject_if, Result-cases}

abbrev pub max_durable_id_bytes : ℕ
max_durable_id_bytes = 64

pub data DurableIdError : Type 0 where
  empty : DurableIdError
  too_long : ℕ → DurableIdError
  invalid_character : ℕ → ℕ → DurableIdError

-- `u8::is_ascii_alphanumeric`
abbrev pub is_ascii_alphanumeric : ℕ → Bool
is_ascii_alphanumeric b =
    (leb 48 b && leb b 57) || (leb 65 b && leb b 90) || (leb 97 b && leb b 122)

-- The bytes that the loop refuses.
abbrev pub is_refused : ℕ → Bool
is_refused byte = not (is_ascii_alphanumeric byte) && not (byte == 45) && not (byte == 95)

-- The loop over the bytes, from an index on.
unfoldable pub check_bytes : ℕ → List ℕ → Result DurableIdError (Unit {0})
check_bytes index [] = ok tt
check_bytes index (byte ∷ rest) = do
  reject_if (is_refused byte) (invalid_character index byte)
  check_bytes (suc index) rest

unfoldable pub validate_durable_id : List ℕ → Result DurableIdError (Unit {0})
validate_durable_id value = do
  reject_if (length value == 0) empty
  reject_if (ltb max_durable_id_bytes (length value)) (too_long (length value))
  check_bytes 0 value

-- `AgentId::new` and `TunnelId::new`
unfoldable pub durable_id_new : List ℕ → Result DurableIdError (List ℕ)
durable_id_new value = do validate_durable_id value; ok value

-- A digit, a letter, `-` or `_`.
abbrev pub IsIdByte : ℕ → Type 0
IsIdByte b =
    ((48 ≤ b) × (b ≤ 57)) ⊎ ((65 ≤ b) × (b ≤ 90)) ⊎ ((97 ≤ b) × (b ≤ 122)) ⊎ (b ≡ 45) ⊎ (b ≡ 95)

-- 1 to 64 bytes, each a letter, a digit, `-` or `_`.
pub record IsDurableId (value : List ℕ) : Type 0 where
  pub some_bytes : 0 < length value
  pub few_bytes : length value ≤ max_durable_id_bytes
  pub allowed : All IsIdByte value

is_refused-IsIdByte : (b : ℕ) → is_refused b ≡ false → IsIdByte b
is_refused-IsIdByte b h = ground arith

IsIdByte-is_refused : (b : ℕ) → IsIdByte b → is_refused b ≡ false
IsIdByte-is_refused b h = ground arith

check_bytes-IsIdByte :
    (index : ℕ) (value : List ℕ) → check_bytes index value ≡ ok tt → All IsIdByte value
unfolding check_bytes
check_bytes-IsIdByte index [] h = tt
check_bytes-IsIdByte index (b ∷ bs) h = elim (Bool-cases (is_refused b)) [
  | inl bad ↦ absurd (let h' = rw bad at h in cc h')
  | inr fine ↦ (is_refused-IsIdByte b fine, check_bytes-IsIdByte (suc index) bs (rw fine at h))
]

IsIdByte-check_bytes :
    (index : ℕ) (value : List ℕ) → All IsIdByte value → check_bytes index value ≡ ok tt
unfolding check_bytes
IsIdByte-check_bytes index [] h = refl
IsIdByte-check_bytes index (b ∷ bs) h =
    rw (IsIdByte-is_refused b h.0) (IsIdByte-check_bytes (suc index) bs h.1)

IsDurableId-new : (value : List ℕ) → IsDurableId value → durable_id_new value ≡ ok value
unfolding durable_id_new validate_durable_id
IsDurableId-new value v =
    let all_fine = IsIdByte-check_bytes 0 value v.allowed in ground (arith, all_fine)

new-IsDurableId :
    (value result : List ℕ)
    → durable_id_new value ≡ ok result
    → IsDurableId value × (result ≡ value)
unfolding durable_id_new validate_durable_id
new-IsDurableId value result h = elim (Result-cases (check_bytes 0 value)) [
  | inr (e, p) ↦ absurd (ground arith)
  | inl (u, p) ↦ (
    record {
      some_bytes = ground arith;
      few_bytes = ground arith;
      allowed = check_bytes-IsIdByte 0 value p;
    },
    ground arith,
  )
]

-- An identifier is accepted, and stored as it is, exactly if it has 1 to 64 bytes, each of them a
-- letter, a digit, `-` or `_`.
pub durable_id_new_iff :
    (value result : List ℕ)
    → (durable_id_new value ≡ ok result) ↔ (IsDurableId value × (result ≡ value))
durable_id_new_iff value result =
    (new-IsDurableId value result, λ v. IsDurableId-new value v.0 ∙ ap ok (sym v.1))

-- `TunnelId::new`
abbrev pub tunnel_id_new : List ℕ → Result DurableIdError (List ℕ)
tunnel_id_new value = durable_id_new value
