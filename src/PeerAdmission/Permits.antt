-- ===== src/PeerAdmission/Permits.antt =====
-- The table counts the permits that are held, whatever the order of admissions and drops.
use mathlib.Core.List.{lookup}
use tunnel_proxy.Common.{
  ℕ, zero, suc, ◌+◌, ◌-◌, ◌≤◌, ◌<◌, ◌≡◌, ◌≢◌, refl, ap, ◌∙◌, ◌↔◌, ◌⊎◌, inl, inr, ite, Option, none,
  some, List, [], ◌∷◌, arith, leb, ◌==◌, false, Bool-cases,
}
use tunnel_proxy.Common.Dict.{
  insert, lookup-insert_self, lookup-insert_ne, lookup-remove_self, lookup-remove_ne,
}
use tunnel_proxy.PeerAdmission.Model.{
  PeerAdmission, PeerAdmissionPermit, new, unwrap_or_zero, try_acquire, give_back, drop,
}

-- What the table stores for a number of permits: nothing for none.
abbrev pub stored : ℕ → Option ℕ
stored zero = none
stored (suc n) = some (suc n)

module _ {Ip : Type 0} (dec : Discrete Ip) where
  -- The permits of a peer among those held.
  unfoldable pub held : Ip → List (PeerAdmissionPermit Ip) → ℕ
  held peer [] = 0
  held peer (permit ∷ ps) = ite (dec peer permit.peer) 1 0 + held peer ps

  -- One permit of the peer is dropped from those held.
  unfoldable pub release : Ip → List (PeerAdmissionPermit Ip) → List (PeerAdmissionPermit Ip)
  release peer [] = []
  release peer (permit ∷ ps) = ite (dec peer permit.peer) ps (permit ∷ release peer ps)

  pub data Reaches (n : ℕ) : PeerAdmission Ip → List (PeerAdmissionPermit Ip) → Type 0 where
    starts : Reaches n (new n) []
    admits :
        (s s' : PeerAdmission Ip) (ps : List (PeerAdmissionPermit Ip)) (peer : Ip)
        (p : PeerAdmissionPermit Ip)
        → Reaches n s ps
        → try_acquire dec peer s ≡ (some p, s')
        → Reaches n s' (p ∷ ps)
    refuses :
        (s s' : PeerAdmission Ip) (ps : List (PeerAdmissionPermit Ip)) (peer : Ip)
        → Reaches n s ps
        → try_acquire dec peer s ≡ (none, s')
        → Reaches n s' ps
    drops :
        (s : PeerAdmission Ip) (ps : List (PeerAdmissionPermit Ip)) (p : PeerAdmissionPermit Ip)
        → Reaches n s ps
        → 0 < held p.peer ps
        → Reaches n (drop dec p s) (release p.peer ps)

  pub record IsCounted (n : ℕ) (s : PeerAdmission Ip) (ps : List (PeerAdmissionPermit Ip))
      : Type 0 where
    pub limit : s.max_connections_per_ip ≡ n
    pub exact : (peer : Ip) → lookup dec peer s.active ≡ stored (held peer ps)
    pub bounded : (peer : Ip) → held peer ps ≤ n

  pub held-release_self :
      (peer : Ip) (ps : List (PeerAdmissionPermit Ip))
      → held peer (release peer ps) ≡ held peer ps - 1
  unfolding held release
  held-release_self peer [] = refl
  held-release_self peer (p ∷ ps) = ground (arith, held-release_self peer ps)

  pub held-release_ne :
      (peer other : Ip) (ps : List (PeerAdmissionPermit Ip))
      → other ≢ peer
      → held other (release peer ps) ≡ held other ps
  unfolding held release
  held-release_ne peer other [] h = refl
  held-release_ne peer other (p ∷ ps) h = ground (arith, held-release_ne peer other ps)

  unwrap_or_zero-stored : (k : ℕ) → unwrap_or_zero (stored k) ≡ k
  unfolding unwrap_or_zero
  unwrap_or_zero-stored zero = refl
  unwrap_or_zero-stored (suc k) = refl

  new-IsCounted : (n : ℕ) → IsCounted n (new n) []
  unfolding new held lookup
  new-IsCounted n = record { limit = refl; exact = λ peer. refl; bounded = λ peer. omega arith }

  pub held-cons_self :
      (p : PeerAdmissionPermit Ip) (ps : List (PeerAdmissionPermit Ip))
      → held p.peer (p ∷ ps) ≡ suc (held p.peer ps)
  unfolding held
  held-cons_self p ps = ground arith

  pub held-cons_ne :
      (other : Ip) (p : PeerAdmissionPermit Ip) (ps : List (PeerAdmissionPermit Ip))
      → other ≢ p.peer
      → held other (p ∷ ps) ≡ held other ps
  unfolding held
  held-cons_ne other p ps ne = ground arith

  -- Entries of the other peers stay.
  IsCounted-by :
      (n k : ℕ) (s s' : PeerAdmission Ip) (ps ps' : List (PeerAdmissionPermit Ip)) (peer : Ip)
      → IsCounted n s ps
      → s'.max_connections_per_ip ≡ s.max_connections_per_ip
      → k ≤ n
      → held peer ps' ≡ k
      → lookup dec peer s'.active ≡ stored k
      → ((other : Ip) → other ≢ peer → held other ps' ≡ held other ps)
      → ((other : Ip) → other ≢ peer → lookup dec other s'.active ≡ lookup dec other s.active)
      → IsCounted n s' ps'
  IsCounted-by n k s s' ps ps' peer v max_same le h found same_held same_found = record {
    limit = max_same ∙ v.limit;
    exact = λ other. elim (dec other peer) [
      | yes same ↦ rw (same, h) found
      | no ne ↦ rw (same_held other ne, same_found other ne) (v.exact other)
    ];
    bounded = λ other. elim (dec other peer) [
      | yes same ↦ rw (same, h) le
      | no ne ↦ rw (same_held other ne) (v.bounded other)
    ];
  }

  found-IsCounted :
      (n : ℕ) (s : PeerAdmission Ip) (ps : List (PeerAdmissionPermit Ip)) (peer : Ip)
      → IsCounted n s ps
      → unwrap_or_zero (lookup dec peer s.active) ≡ held peer ps
  found-IsCounted n s ps peer v = rw (v.exact peer) (unwrap_or_zero-stored (held peer ps))

  granted : Ip → ℕ → PeerAdmission Ip → PeerAdmission Ip
  granted peer k s = record s { active = insert dec peer (suc k) s.active }

  try_acquire-cases :
      (n : ℕ) (s : PeerAdmission Ip) (ps : List (PeerAdmissionPermit Ip)) (peer : Ip)
      → IsCounted n s ps
      → ((held peer ps ≡ n) × (try_acquire dec peer s ≡ (none, s)))
        ⊎ ((held peer ps < n)
            × (try_acquire dec peer s
                ≡ (some (record { peer = peer }), granted peer (held peer ps) s)))
  unfolding try_acquire granted
  try_acquire-cases n s ps peer v =
      let found = found-IsCounted n s ps peer v in
      elim (Bool-cases (leb n (held peer ps))) [
        | inl full ↦ inl (ground (arith, v.bounded peer), rw (found, v.limit, full) refl)
        | inr room ↦ inr (ground arith, rw (found, v.limit, room) refl)
      ]

  granted-IsCounted :
      (n : ℕ) (s : PeerAdmission Ip) (ps : List (PeerAdmissionPermit Ip)) (peer : Ip)
      → IsCounted n s ps
      → held peer ps < n
      → IsCounted n (granted peer (held peer ps) s) ((record { peer = peer }) ∷ ps)
  unfolding granted
  granted-IsCounted n s ps peer v room =
      IsCounted-by n (suc (held peer ps)) s _ ps _ peer v refl (omega arith)
        (held-cons_self (record { peer = peer }) ps) (lookup-insert_self dec peer _ s.active)
        (λ other. held-cons_ne other _ ps) (λ other. lookup-insert_ne dec peer other _ s.active)

  try_acquire-IsCounted :
      (n : ℕ) (s s' : PeerAdmission Ip) (ps : List (PeerAdmissionPermit Ip)) (peer : Ip)
      (p : PeerAdmissionPermit Ip)
      → IsCounted n s ps
      → try_acquire dec peer s ≡ (some p, s')
      → IsCounted n s' (p ∷ ps)
  try_acquire-IsCounted n s s' ps peer p v e = elim (try_acquire-cases n s ps peer v) [
    | inl (full, f) ↦ absurd (cc (e, f))
    | inr (room, f) ↦
        let same : s' ≡ granted peer (held peer ps) s = cc (e, f) in
        let mine : p ≡ record { peer = peer } = cc (e, f) in
        rw (same, mine) (granted-IsCounted n s ps peer v room)
  ]

  refused-IsCounted :
      (n : ℕ) (s s' : PeerAdmission Ip) (ps : List (PeerAdmissionPermit Ip)) (peer : Ip)
      → IsCounted n s ps
      → try_acquire dec peer s ≡ (none, s')
      → IsCounted n s' ps
  refused-IsCounted n s s' ps peer v e = elim (try_acquire-cases n s ps peer v) [
    | inl (full, f) ↦ let same : s' ≡ s = cc (e, f) in rw same v
    | inr (room, f) ↦ absurd (cc (e, f))
  ]

  give_back-IsCounted :
      (n k : ℕ) (s : PeerAdmission Ip) (ps : List (PeerAdmissionPermit Ip)) (peer : Ip)
      → IsCounted n s ps
      → held peer ps ≡ suc k
      → IsCounted n (give_back dec peer s (some (suc k))) (release peer ps)
  unfolding give_back
  give_back-IsCounted n zero s ps peer v h =
      IsCounted-by n 0 s _ ps _ peer v refl (omega arith) (omega (arith, held-release_self peer ps))
        (lookup-remove_self dec peer s.active) (λ other. held-release_ne peer other ps)
        (λ other. lookup-remove_ne dec peer other s.active)
  give_back-IsCounted n (suc k) s ps peer v h =
      let more : (suc (suc k) - 1 == 0) ≡ false = ground arith in
      let less : suc (suc k) - 1 ≡ suc k = omega arith in
      rw (more, less)
        (IsCounted-by n (suc k) s _ ps _ peer v refl (omega (arith, v.bounded peer))
          (omega (arith, held-release_self peer ps)) (lookup-insert_self dec peer _ s.active)
          (λ other. held-release_ne peer other ps)
          (λ other. lookup-insert_ne dec peer other _ s.active))

  drop-IsCounted :
      (n : ℕ) (s : PeerAdmission Ip) (ps : List (PeerAdmissionPermit Ip))
      (p : PeerAdmissionPermit Ip)
      → IsCounted n s ps
      → 0 < held p.peer ps
      → IsCounted n (drop dec p s) (release p.peer ps)
  unfolding drop
  drop-IsCounted n s ps p v some_held =
      let k = held p.peer ps - 1 in
      let h : held p.peer ps ≡ suc k = omega arith in
      let found : lookup dec p.peer s.active ≡ some (suc k) = v.exact p.peer ∙ ap stored h in
      rw found (give_back-IsCounted n k s ps p.peer v h)

  -- Whatever the order of admissions, refusals and drops, the table stores for each address exactly
  -- the number of its permits that are held, and nothing for an address that holds none; no address
  -- holds more permits than the limit.
  pub Reaches-IsCounted :
      (n : ℕ) (s : PeerAdmission Ip) (ps : List (PeerAdmissionPermit Ip))
      → Reaches n s ps
      → IsCounted n s ps
  Reaches-IsCounted n _ _ starts = new-IsCounted n
  Reaches-IsCounted n _ _ (admits s s' ps peer p r e) =
      try_acquire-IsCounted n s s' ps peer p (Reaches-IsCounted n s ps r) e
  Reaches-IsCounted n _ _ (refuses s s' ps peer r e) =
      refused-IsCounted n s s' ps peer (Reaches-IsCounted n s ps r) e
  Reaches-IsCounted n _ _ (drops s ps p r h) =
      drop-IsCounted n s ps p (Reaches-IsCounted n s ps r) h

  -- In a state that a run reaches, an address is refused exactly if it holds as many permits as the
  -- limit allows.
  pub try_acquire-eq-none_iff :
      (n : ℕ) (s : PeerAdmission Ip) (ps : List (PeerAdmissionPermit Ip)) (peer : Ip)
      → Reaches n s ps
      → ((try_acquire dec peer s).0 ≡ none) ↔ (held peer ps ≡ n)
  try_acquire-eq-none_iff n s ps peer r =
      elim (try_acquire-cases n s ps peer (Reaches-IsCounted n s ps r)) [
        | inl (full, f) ↦ (λ e. full, λ e. rw f refl)
        | inr (room, f) ↦ (λ e. absurd (let e' = rw f at e in cc e'), λ e. absurd (omega arith))
      ]
