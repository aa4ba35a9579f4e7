-- ===== src/PublicHostname/Names.antt =====
-- What an accepted name is, and how it comes from what was given.
use tunnel_proxy.Common.{
  ℕ, ◌+◌, ◌≤◌, ◌≡◌, refl, ap, ◌∙◌, ◌⊎◌, inl, inr, Option-cases, Bool, none, some, List, [], ◌∷◌,
  ◌++◌, All, arith,
}
use tunnel_proxy.Common.Results.{ok}
use tunnel_proxy.PublicHostname.Model.{
  strip_dot, unwrap_or, to_lower, to_ascii_lowercase, normalize_dns_hostname,
}
use tunnel_proxy.PublicHostname.Canonical.{
  check_name-ok, no_dot, normalize-name, normalize_dns_hostname-idempotent,
}

-- The letters A to Z.
abbrev pub IsUpper : ℕ → Type 0
IsUpper b = (65 ≤ b) × (b ≤ 90)

-- The two bytes are the same, or the first is a letter and the second its lower-case form.
abbrev pub IsLowerOf : ℕ → ℕ → Type 0
IsLowerOf b c = (b ≡ c) ⊎ (IsUpper b × (c ≡ b + 32))

abbrev pub AllLowerOf : List ℕ → List ℕ → Type 0
AllLowerOf [] [] = Unit {0}
AllLowerOf (b ∷ bs) (c ∷ cs) = IsLowerOf b c × AllLowerOf bs cs
AllLowerOf _ _ = ⊥

to_lower-IsLowerOf : (b : ℕ) → IsLowerOf b (to_lower b)
to_lower-IsLowerOf b = ground arith

to_lower-not_IsUpper : (b : ℕ) → ¬ IsUpper (to_lower b)
to_lower-not_IsUpper b = ground arith

lowercase-AllLowerOf : (bs : List ℕ) → AllLowerOf bs (to_ascii_lowercase bs)
lowercase-AllLowerOf [] = tt
lowercase-AllLowerOf (b ∷ bs) = (to_lower-IsLowerOf b, lowercase-AllLowerOf bs)

lowercase-not_IsUpper : (bs : List ℕ) → All (λ b. ¬ IsUpper b) (to_ascii_lowercase bs)
lowercase-not_IsUpper [] = tt
lowercase-not_IsUpper (b ∷ bs) = (to_lower-not_IsUpper b, lowercase-not_IsUpper bs)

-- A dot behind both.
AllLowerOf-dot : (bs cs : List ℕ) → AllLowerOf bs cs → AllLowerOf (bs ++ 46 ∷ []) (cs ++ 46 ∷ [])
AllLowerOf-dot [] [] h = (inl refl, tt)
AllLowerOf-dot [] (c ∷ cs) h = absurd h
AllLowerOf-dot (b ∷ bs) [] h = absurd h
AllLowerOf-dot (b ∷ bs) (c ∷ cs) h = (h.0, AllLowerOf-dot bs cs h.1)

strip_dot-some : (bs t : List ℕ) → strip_dot bs ≡ some t → bs ≡ t ++ 46 ∷ []
unfolding strip_dot
strip_dot-some [] t h = absurd (cc h)
strip_dot-some (b ∷ []) t h = ground arith
strip_dot-some (b ∷ c ∷ rest) t h = elim (Option-cases (strip_dot (c ∷ rest))) [
  | inl e ↦ absurd (let h' = rw e at h in cc h')
  | inr (u, e) ↦
      let h' = rw e at h in
      let tail = strip_dot-some (c ∷ rest) u e in
      let same : b ∷ u ≡ t = cc h' in ap (λ l. b ∷ l) tail ∙ ap (λ l. l ++ 46 ∷ []) same
]

strip_dot-dot : (t : List ℕ) → strip_dot (t ++ 46 ∷ []) ≡ some t
unfolding strip_dot
strip_dot-dot [] = refl
strip_dot-dot (b ∷ []) = refl
strip_dot-dot (b ∷ c ∷ t) = rw (strip_dot-dot (c ∷ t)) refl

AllLowerOf-unwrapped :
    (value : List ℕ)
    → AllLowerOf value (to_ascii_lowercase (unwrap_or value (strip_dot value)))
      ⊎ AllLowerOf value (to_ascii_lowercase (unwrap_or value (strip_dot value)) ++ 46 ∷ [])
AllLowerOf-unwrapped value = elim (Option-cases (strip_dot value)) [
  | inl e ↦ rw e (inl (lowercase-AllLowerOf value))
  | inr (t, e) ↦ inr (
      rw e (
        rw (strip_dot-some value t e)
          (AllLowerOf-dot t (to_ascii_lowercase t) (lowercase-AllLowerOf t))))
]

module _ (is_ip_addr : List ℕ → Bool) where
  pub record IsNormalOf (value result : List ℕ) : Type 0 where
    pub stable : normalize_dns_hostname is_ip_addr result ≡ ok result
    pub no_upper : All (λ b. ¬ IsUpper b) result
    pub no_dot_behind : (t : List ℕ) → ¬ (result ≡ t ++ 46 ∷ [])
    pub same_name : AllLowerOf value result ⊎ AllLowerOf value (result ++ 46 ∷ [])

  -- An accepted name is stored in one form only: it is the given name with each letter A to Z in
  -- lower case and every other byte as it was, possibly less one dot at its end; it has no letter A
  -- to Z and no dot at its end; and normalizing it again accepts it and changes nothing.
  pub normalize_dns_hostname-IsNormalOf :
      (value result : List ℕ)
      → normalize_dns_hostname is_ip_addr value ≡ ok result
      → IsNormalOf value result
  normalize_dns_hostname-IsNormalOf value result h =
      let w = unwrap_or value (strip_dot value) in
      let checked = normalize-name is_ip_addr value result h in
      let (same, filled, short, fine) =
        check_name-ok is_ip_addr (to_ascii_lowercase w) result checked in
      let bare : strip_dot result ≡ none =
        rw same (no_dot is_ip_addr (to_ascii_lowercase w) fine) in
      record {
        stable = normalize_dns_hostname-idempotent is_ip_addr value result h;
        no_upper = rw same (lowercase-not_IsUpper w);
        no_dot_behind = λ t e. let found = strip_dot-dot t in cc (found, bare, e);
        same_name = rw same (AllLowerOf-unwrapped value);
      }
