-- ===== src/PublicHostname/Canonical.antt =====
-- Names are stored in one form only.
use mathlib.Core.Option
use tunnel_proxy.Common.{
  ℕ, ◌≤◌, ◌≡◌, refl, ap, ◌∙◌, inl, inr, Bool, true, false, Bool-cases, Option-cases, none, some,
  List, [], ◌∷◌, ◌==◌, length, arith,
}
use tunnel_proxy.Common.Results.{ok}
use tunnel_proxy.PublicHostname.Model.{
  strip_dot, unwrap_or, to_lower, to_ascii_lowercase, any, extend, split_dots, is_bad_label,
  check_name, normalize_dns_hostname, max_public_hostname_bytes,
}

to_lower-to_lower : (b : ℕ) → to_lower (to_lower b) ≡ to_lower b
to_lower-to_lower b = ground arith

lowercase-lowercase :
    (bs : List ℕ) → to_ascii_lowercase (to_ascii_lowercase bs) ≡ to_ascii_lowercase bs
lowercase-lowercase [] = refl
lowercase-lowercase (b ∷ bs) = rw (to_lower-to_lower b, lowercase-lowercase bs) refl

length-lowercase : (bs : List ℕ) → length (to_ascii_lowercase bs) ≡ length bs
length-lowercase [] = refl
length-lowercase (b ∷ bs) = omega (arith, length-lowercase bs)

strip_dot-lowercase :
    (bs : List ℕ) → strip_dot (to_ascii_lowercase bs) ≡ Option.map to_ascii_lowercase (strip_dot bs)
unfolding strip_dot
strip_dot-lowercase [] = refl
strip_dot-lowercase (b ∷ []) = ground arith
strip_dot-lowercase (b ∷ c ∷ rest) = elim (Option-cases (strip_dot (c ∷ rest))) [
  | inl e ↦ rw (strip_dot-lowercase (c ∷ rest), e) refl
  | inr (t, e) ↦ rw (strip_dot-lowercase (c ∷ rest), e) refl
]

abbrev behind : List (List ℕ) → List (List ℕ)
behind [] = []
behind (l ∷ ls) = ls

behind-extend :
    (b : ℕ) (ls : List (List ℕ))
    → any is_bad_label (behind ls) ≡ true
    → any is_bad_label (behind (extend b ls)) ≡ true
behind-extend b [] h = absurd (cc h)
behind-extend b (l ∷ ls) h = h

any-behind : (ls : List (List ℕ)) → any is_bad_label (behind ls) ≡ true → any is_bad_label ls ≡ true
any-behind [] h = h
any-behind (l ∷ ls) h = ground arith

-- A name that ends with a dot has an empty label behind the first one.
strip_dot-bad :
    (bs t : List ℕ) → strip_dot bs ≡ some t → any is_bad_label (behind (split_dots bs)) ≡ true
unfolding strip_dot split_dots is_bad_label
strip_dot-bad [] t h = absurd (cc h)
strip_dot-bad (b ∷ []) t h = elim (Bool-cases (b == 46)) [
  | inl dot ↦ rw dot refl
  | inr letter ↦ absurd (let h' = rw letter at h in cc h')
]
strip_dot-bad (b ∷ c ∷ rest) t h = elim (Option-cases (strip_dot (c ∷ rest))) [
  | inl e ↦ absurd (let h' = rw e at h in cc h')
  | inr (u, e) ↦
      let bad = strip_dot-bad (c ∷ rest) u e in
      elim (Bool-cases (b == 46)) [
        | inl dot ↦ rw dot (any-behind (split_dots (c ∷ rest)) bad)
        | inr letter ↦ rw letter (behind-extend b (split_dots (c ∷ rest)) bad)
      ]
]

module _ (is_ip_addr : List ℕ → Bool) where
  -- What a name that passes the tests is.
  pub check_name-ok :
      (name result : List ℕ)
      → check_name is_ip_addr name ≡ ok result
      → (result ≡ name)
        × ((length name == 0) ≡ false)
        × (length name ≤ max_public_hostname_bytes)
        × (any is_bad_label (split_dots name) ≡ false)
  unfolding check_name
  check_name-ok name result h = ground arith

  pub no_dot : (name : List ℕ) → any is_bad_label (split_dots name) ≡ false → strip_dot name ≡ none
  no_dot name fine = elim (Option-cases (strip_dot name)) [
    | inl e ↦ e
    | inr (t, e) ↦
        let bad = any-behind (split_dots name) (strip_dot-bad name t e) in absurd (cc (fine, bad))
  ]

  pub normalize-name :
      (value result : List ℕ)
      → normalize_dns_hostname is_ip_addr value ≡ ok result
      → check_name is_ip_addr (to_ascii_lowercase (unwrap_or value (strip_dot value))) ≡ ok result
  unfolding normalize_dns_hostname
  normalize-name value result h = elim (Bool-cases (length value == 0)) [
    | inl none_there ↦ absurd (let h' = rw none_there at h in cc h')
    | inr some_there ↦ rw some_there at h
  ]

  -- Normalizing a stored name again accepts it and changes nothing.
  pub normalize_dns_hostname-idempotent :
      (value result : List ℕ)
      → normalize_dns_hostname is_ip_addr value ≡ ok result
      → normalize_dns_hostname is_ip_addr result ≡ ok result
  unfolding normalize_dns_hostname
  normalize_dns_hostname-idempotent value result h =
      let w = unwrap_or value (strip_dot value) in
      let checked = normalize-name value result h in
      let (same, filled, short, fine) = check_name-ok (to_ascii_lowercase w) result checked in
      let bare : strip_dot result ≡ none = rw same (no_dot (to_ascii_lowercase w) fine) in
      let low : to_ascii_lowercase result ≡ result = rw same (lowercase-lowercase w) in
      let some_there : (length result == 0) ≡ false = rw same filled in
      rw (some_there, bare, low) (ap (check_name is_ip_addr) same ∙ checked)

  -- The case of the letters does not matter, whatever the name.
  pub normalize_dns_hostname-lowercase :
      (value : List ℕ)
      → normalize_dns_hostname is_ip_addr (to_ascii_lowercase value)
        ≡ normalize_dns_hostname is_ip_addr value
  unfolding normalize_dns_hostname
  normalize_dns_hostname-lowercase value = elim (Option-cases (strip_dot value)) [
    | inl e ↦
        rw (length-lowercase value, strip_dot-lowercase value, e, lowercase-lowercase value) refl
    | inr (t, e) ↦
        rw (length-lowercase value, strip_dot-lowercase value, e, lowercase-lowercase t) refl
  ]
