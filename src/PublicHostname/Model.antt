-- ===== src/PublicHostname/Model.antt =====
-- `PublicHostname::new` and `normalize_dns_hostname`. A string is the list of its UTF-8 bytes. The
-- test whether a string parses as an `IpAddr` is a parameter.
use mathlib.Core.Option
use tunnel_proxy.Common.{
  ℕ, ◌+◌, Bool, false, not, ◌&&◌, ◌||◌, Option, none, some, List, [], ◌∷◌, map, ltb, leb, ◌==◌,
  if◌then◌else◌, length,
}
use tunnel_proxy.Common.Results.{Result, ok, ◌>>◌, reject_if}

abbrev pub max_public_hostname_bytes : ℕ
max_public_hostname_bytes = 253

abbrev pub max_dns_label_bytes : ℕ
max_dns_label_bytes = 63

pub data PublicHostnameError : Type 0 where
  empty too_long invalid_label ip_address port_not_allowed : PublicHostnameError

-- `strip_suffix('.')`
unfoldable pub strip_dot : List ℕ → Option (List ℕ)
strip_dot [] = none
strip_dot (b ∷ []) = if b == 46 then some [] else none
strip_dot (b ∷ c ∷ rest) = Option.map (λ t. b ∷ t) (strip_dot (c ∷ rest))

abbrev pub unwrap_or : List ℕ → Option (List ℕ) → List ℕ
unwrap_or value none = value
unwrap_or value (some stripped) = stripped

abbrev pub to_lower : ℕ → ℕ
to_lower b = if leb 65 b && leb b 90 then b + 32 else b

abbrev pub to_ascii_lowercase : List ℕ → List ℕ
to_ascii_lowercase value = map to_lower value

abbrev pub any : {A : Type 0} → (A → Bool) → List A → Bool
any p [] = false
any p (x ∷ xs) = p x || any p xs

-- A byte in front of the first part.
abbrev pub extend : ℕ → List (List ℕ) → List (List ℕ)
extend b [] = (b ∷ []) ∷ []
extend b (label ∷ labels) = (b ∷ label) ∷ labels

-- `split('.')`: at least one part.
unfoldable pub split_dots : List ℕ → List (List ℕ)
split_dots [] = [] ∷ []
split_dots (b ∷ bs) = let rest = split_dots bs in if b == 46 then [] ∷ rest else extend b rest

abbrev pub starts_with_hyphen : List ℕ → Bool
starts_with_hyphen [] = false
starts_with_hyphen (b ∷ bs) = b == 45

abbrev pub ends_with_hyphen : List ℕ → Bool
ends_with_hyphen [] = false
ends_with_hyphen (b ∷ []) = b == 45
ends_with_hyphen (b ∷ c ∷ rest) = ends_with_hyphen (c ∷ rest)

abbrev pub is_label_byte : ℕ → Bool
is_label_byte b =
    (leb 48 b && leb b 57) || (leb 65 b && leb b 90) || (leb 97 b && leb b 122) || b == 45

-- The closure given to `any`; a string of bytes not all allowed has one that is not.
unfoldable pub is_bad_label : List ℕ → Bool
is_bad_label label =
    length label == 0
    || ltb max_dns_label_bytes (length label)
    || starts_with_hyphen label
    || ends_with_hyphen label
    || any (λ b. not (is_label_byte b)) label

module _ (is_ip_addr : List ℕ → Bool) where
  -- The tests of the normalized name.
  unfoldable pub check_name : List ℕ → Result PublicHostnameError (List ℕ)
  check_name name = do
    reject_if (length name == 0) empty
    reject_if (is_ip_addr name) ip_address
    reject_if (any (λ b. b == 58) name) port_not_allowed
    reject_if (ltb max_public_hostname_bytes (length name)) too_long
    reject_if (any is_bad_label (split_dots name)) invalid_label
    ok name

  unfoldable pub normalize_dns_hostname : List ℕ → Result PublicHostnameError (List ℕ)
  normalize_dns_hostname value = do
    reject_if (length value == 0) empty
    check_name (to_ascii_lowercase (unwrap_or value (strip_dot value)))

  -- `PublicHostname::new`
  abbrev pub public_hostname_new : List ℕ → Result PublicHostnameError (List ℕ)
  public_hostname_new value = normalize_dns_hostname value
