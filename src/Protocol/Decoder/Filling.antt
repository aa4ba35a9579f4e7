-- ===== src/Protocol/Decoder/Filling.antt =====
-- The read loops of `FrameDecoder::decode` against the bytes that the stream will deliver.
use mathlib.Core.List.{append_assoc}
use tunnel_proxy.Common.{
  ℕ, zero, suc, ◌+◌, ◌-◌, ◌≤◌, ◌<◌, ◌≡◌, refl, sym, ap, subst, ◌∙◌, inl, inr, List, [], ◌∷◌, ◌++◌,
  arith, ltb, ltb→lt, Bool-cases, length, take, drop, length-append, length-take, length-drop,
  take-append_left, take_of_length-le,
}
use tunnel_proxy.Protocol.Errors.{IoError}
use tunnel_proxy.Protocol.Decoder.{
  ReadOutcome, got, failed, suspended, Fill, filled, ended, broken, cut_off, out_of_rounds, store,
  on_read, fill,
}

module _ {R : Type 0} (contents : R → List ℕ) where
  -- What one read may do to the bytes still to come.
  abbrev pub Delivers : R → ℕ → ReadOutcome × R → Type 0
  Delivers r k (got bs, r') =
      (contents r ≡ bs ++ contents r') × (length bs ≤ k) × (bs ≡ [] → contents r ≡ [])
  Delivers r k (failed e, r') = Unit {0}
  Delivers r k (suspended, r') = contents r' ≡ contents r

  -- The contract of `AsyncRead`: a read delivers the next bytes, at most as many as asked for, and
  -- none only at the end of the stream; a read that stays pending takes nothing.
  abbrev pub IsStream : (R → ℕ → ReadOutcome × R) → Type 0
  IsStream read = (r : R) (k : ℕ) → 0 < k → Delivers r k (read r k)

length-store :
    (buf : List ℕ) (o : ℕ) (bs : List ℕ)
    → o + length bs ≤ length buf
    → length (store buf o bs) ≡ length buf
unfolding store
length-store buf o bs h =
    length-append (take o buf ++ bs) (drop (o + length bs) buf)
    ∙ omega
        (arith, length-append (take o buf) bs, length-take o buf, length-drop (o + length bs) buf)

take-store :
    (buf : List ℕ) (o : ℕ) (bs : List ℕ)
    → o + length bs ≤ length buf
    → take (o + length bs) (store buf o bs) ≡ take o buf ++ bs
unfolding store
take-store buf o bs h =
    take-append_left (o + length bs) (take o buf ++ bs) (drop (o + length bs) buf)
      (omega (arith, length-append (take o buf) bs, length-take o buf))

module _ {R : Type 0} (contents : R → List ℕ) (read : R → ℕ → ReadOutcome × R) where
  -- The error is one that a read reported.
  abbrev pub Reported : IoError → R → Type 0
  Reported e r = (r₀ : R) × (k : ℕ) × (read r₀ k ≡ (failed e, r))

  -- How a loop may end if `all` was held in the buffer or still to come.
  abbrev pub Fills : ℕ → List ℕ → Fill × R → Type 0
  Fills n all (filled buf, r) = (length buf ≡ n) × (all ≡ buf ++ contents r)
  Fills n all (ended buf o, r) = (length buf ≡ n) × (o < n) × (o ≡ length all) × (contents r ≡ [])
  Fills n all (broken buf e, r) = (length buf ≡ n) × Reported e r
  Fills n all (cut_off buf o, r) = (length buf ≡ n) × (o < n) × (all ≡ take o buf ++ contents r)
  Fills n all (out_of_rounds, r) = ⊥

  -- One read of the loop, given what the rest of the loop does.
  on_read-Fills :
      (buf : List ℕ) (o : ℕ) (r : R) (continue : List ℕ → ℕ → R → Fill × R)
      (result : ReadOutcome × R)
      → o < length buf
      → read r (length buf - o) ≡ result
      → Delivers contents r (length buf - o) result
      → ((buf' : List ℕ) (o' : ℕ) (r' : R)
          → length buf' ≡ length buf
          → o < o'
          → o' ≤ length buf
          → Fills (length buf) (take o' buf' ++ contents r') (continue buf' o' r'))
      → Fills (length buf) (take o buf ++ contents r) (on_read read buf o continue result)
  unfolding on_read
  on_read-Fills buf o r continue (failed e, r') h q d go = (refl, (r, length buf - o, q))
  on_read-Fills buf o r continue (suspended, r') h q d go =
      (refl, h, ap (λ t. take o buf ++ t) (sym d))
  on_read-Fills buf o r continue (got [], r') h q d go =
      let e : contents r ≡ [] = d.2 refl in
      (
        refl,
        h,
        omega (
          arith,
          length-append (take o buf) (contents r),
          length-take o buf,
          ap (length {A = ℕ}) e,
        ),
        sym d.0 ∙ e,
      )
  on_read-Fills buf o r continue (got (b ∷ bs), r') h q d go =
      let fits : o + length (b ∷ bs) ≤ length buf = omega (arith, d.1) in
      subst
        (λ all. Fills (length buf) all (continue (store buf o (b ∷ bs)) (o + length (b ∷ bs)) r'))
        (sym (
          ap (◌++◌ (take o buf)) d.0
          ∙ sym (append_assoc (take o buf) (b ∷ bs) (contents r'))
          ∙ ap (λ t. t ++ contents r') (sym (take-store buf o (b ∷ bs) fits))))
        (go (store buf o (b ∷ bs)) (o + length (b ∷ bs)) r' (length-store buf o (b ∷ bs) fits)
          (omega arith) fits)

  full :
      (buf : List ℕ) (o : ℕ) (r : R)
      → length buf ≤ o
      → Fills (length buf) (take o buf ++ contents r) (filled buf, r)
  full buf o r h = (refl, ap (λ t. t ++ contents r) (take_of_length-le o buf h))

  -- With a round for each missing byte the loop ends, and loses no byte.
  pub fill-Fills :
      IsStream contents read
      → (n : ℕ) (buf : List ℕ) (o : ℕ) (r : R) → o ≤ length buf
      → length buf ≤ o + n
      → Fills (length buf) (take o buf ++ contents r) (fill read n buf o r)
  unfolding fill
  fill-Fills stream zero buf o r h m = elim (Bool-cases (ltb o (length buf))) [
    | inl less ↦ absurd (ground arith)
    | inr done ↦ rw done (full buf o r (ground arith))
  ]
  fill-Fills stream (suc n) buf o r h m = elim (Bool-cases (ltb o (length buf))) [
    | inr done ↦ rw done (full buf o r (ground arith))
    | inl less ↦
        let more : o < length buf = ltb→lt o (length buf) less in
        rw less (
          on_read-Fills buf o r (fill read n) (read r (length buf - o)) more refl
            (stream r (length buf - o) (omega arith))
            (λ buf' o' r' same further within.
              subst (λ k. Fills k (take o' buf' ++ contents r') (fill read n buf' o' r')) same
                (fill-Fills stream n buf' o' r' (omega arith) (omega arith))))
  ]
