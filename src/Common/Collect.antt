-- ===== src/Common/Collect.antt =====
-- A list loaded into a dictionary, one entry for each element, until a key stands twice.
use mathlib.Core.List.{lookup, Memᴰ}
use mathlib.Core.List.Memᴰ.{head, tail}
use tunnel_proxy.Common.{
  ◌≡◌, ◌≢◌, refl, sym, subst, ◌∙◌, ◌⊎◌, inl, inr, none, some, List, [], ◌∷◌, All,
}
use tunnel_proxy.Common.Dict.{insert, lookup-insert_self, lookup-insert_ne}

module _ {K V A : Type 0} (dec : Discrete K) (key : A → K) (val : A → V → Type 0) where
  pub data Collects : List A → List (K × V) → List (K × V) → Type 0 where
    ends : (m : List (K × V)) → Collects [] m m
    loads :
        (a : A) (as' : List A) (v : V) (m m' : List (K × V))
        → lookup dec (key a) m ≡ none
        → val a v
        → Collects as' (insert dec (key a) v m) m'
        → Collects (a ∷ as') m m'

  -- What was there stays.
  Collects-keeps :
      (as' : List A) (m m' : List (K × V)) (j : K) (v : V)
      → Collects as' m m'
      → lookup dec j m ≡ some v
      → lookup dec j m' ≡ some v
  Collects-keeps _ _ _ j v (ends m) h = h
  Collects-keeps _ _ _ j v (loads a as' w m m' new is rest) h =
      Collects-keeps as' _ m' j v rest (elim (dec j (key a)) [
        | yes same ↦ absurd (let h' = rw same at h in cc (h', new))
        | no ne ↦ rw (lookup-insert_ne dec (key a) j w m ne) h
      ])

  -- Every element has its entry.
  pub Collects-has :
      (as' : List A) (m m' : List (K × V)) (a : A)
      → Collects as' m m'
      → Memᴰ a as'
      → (v : V) × val a v × (lookup dec (key a) m' ≡ some v)
  Collects-has _ _ _ a (ends m) i = elim i [ ]
  Collects-has _ _ _ a (loads b as' w m m' new is rest) (head e) = (
    w,
    subst (λ x. val x w) (sym e) is,
    rw e (Collects-keeps as' _ m' (key b) w rest (lookup-insert_self dec (key b) w m)),
  )
  Collects-has _ _ _ a (loads b as' w m m' new is rest) (tail i) = Collects-has as' _ m' a rest i

  -- Every entry was there, or is that of an element.
  pub Collects-from :
      (as' : List A) (m m' : List (K × V)) (j : K) (v : V)
      → Collects as' m m'
      → lookup dec j m' ≡ some v
      → (lookup dec j m ≡ some v) ⊎ ((a : A) × Memᴰ a as' × (key a ≡ j) × val a v)
  Collects-from _ _ _ j v (ends m) h = inl h
  Collects-from _ _ _ j v (loads a as' w m m' new is rest) h =
      elim (Collects-from as' _ m' j v rest h) [
        | inr (b, i, e, q) ↦ inr (b, tail i, e, q)
        | inl l ↦ elim (dec j (key a)) [
          | yes same ↦
              let l' : some w ≡ some v =
                sym (lookup-insert_self dec (key a) w m) ∙ (rw same at l) in
              let wv : w ≡ v = cc l' in inr (a, head refl, sym same, subst (val a) wv is)
          | no ne ↦ inl (sym (lookup-insert_ne dec (key a) j w m ne) ∙ l)
        ]
      ]

  -- The key of no element of the list.
  abbrev pub Apart : K → List A → Type 0
  Apart k as' = All (λ a. k ≢ key a) as'

  -- No two elements have the same key.
  abbrev pub AllApart : List A → Type 0
  AllApart [] = Unit {0}
  AllApart (a ∷ as') = Apart (key a) as' × AllApart as'

  Collects-Apart :
      (as' : List A) (m m' : List (K × V)) (j : K) (v : V)
      → Collects as' m m'
      → lookup dec j m ≡ some v
      → Apart j as'
  Collects-Apart _ _ _ j v (ends m) h = tt
  Collects-Apart _ _ _ j v (loads a as' w m m' new is rest) h =
      let ne : j ≢ key a = λ e. let h' = rw e at h in cc (h', new) in
      (ne, Collects-Apart as' _ m' j v rest (lookup-insert_ne dec (key a) j w m ne ∙ h))

  pub Collects-AllApart : (as' : List A) (m m' : List (K × V)) → Collects as' m m' → AllApart as'
  Collects-AllApart _ _ _ (ends m) = tt
  Collects-AllApart _ _ _ (loads a as' w m m' new is rest) = (
    Collects-Apart as' _ m' (key a) w rest (lookup-insert_self dec (key a) w m),
    Collects-AllApart as' _ m' rest,
  )

  still_new :
      (a : A) (w : V) (as' : List A) (m : List (K × V))
      → Apart (key a) as'
      → All (λ b. lookup dec (key b) m ≡ none) as'
      → All (λ b. lookup dec (key b) (insert dec (key a) w m) ≡ none) as'
  still_new a w [] m p q = tt
  still_new a w (b ∷ as') m p q = (
    lookup-insert_ne dec (key a) (key b) w m (λ e. p.0 (sym e)) ∙ q.0,
    still_new a w as' m p.1 q.1,
  )

  pub AllApart-Collects :
      (as' : List A) (m : List (K × V))
      → AllApart as'
      → All (λ a. (v : V) × val a v) as'
      → All (λ a. lookup dec (key a) m ≡ none) as'
      → (m' : List (K × V)) × Collects as' m m'
  AllApart-Collects [] m p q r = (m, ends m)
  AllApart-Collects (a ∷ as') m p q r =
      let w = q.0.0 in
      let (m', rest) =
        AllApart-Collects as' (insert dec (key a) w m) p.1 q.1 (still_new a w as' m p.0 r.1) in
      (m', loads a as' w m m' r.0 q.0.1 rest)

  pub Collects-vals :
      (as' : List A) (m m' : List (K × V)) → Collects as' m m' → All (λ a. (v : V) × val a v) as'
  Collects-vals _ _ _ (ends m) = tt
  Collects-vals _ _ _ (loads a as' w m m' new is rest) = ((w, is), Collects-vals as' _ m' rest)
