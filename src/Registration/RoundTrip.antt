-- ===== src/Registration/RoundTrip.antt =====
-- `encode` and `decode` of `RegistrationRequest` are inverse to each other.
use tunnel_proxy.Common.{
  ℕ, suc, ◌+◌, ◌%◌, ◌^◌, ◌≤◌, ◌<◌, ◌≡◌, ◌↔◌, refl, sym, ◌∙◌, inl, inr, Bool, true, false,
  Bool-cases, List, [], ◌∷◌, ◌++◌, All, All-map, arith, ltb, ◌==◌, length, length-append,
  length-take, length-drop, take, drop, take-append_left, drop-append_left, take-append-drop,
}
use tunnel_proxy.Common.Results.{ok, Result-cases}
use tunnel_proxy.Common.Bytes.{IsByte, byte_at, u16_from_be_bytes}
use tunnel_proxy.Protocol.Header.{at}
use tunnel_proxy.Registration.DurableId.{IsDurableId, IsIdByte, durable_id_new, durable_id_new_iff}
use tunnel_proxy.Registration.Payload.{
  RegistrationRequest, map_err, encode_registration, decode_ids, decode_registration,
  register_prefix_size, register_max_payload_size,
}

pub record IsValid (r : RegistrationRequest) : Type 0 where
  pub agent : IsDurableId r.agent_id
  pub tunnel : IsDurableId r.tunnel_id

IsIdByte-ascii : (b : ℕ) → IsIdByte b → b < 128
IsIdByte-ascii b h = ground arith

byte_at_high : (a b : ℕ) → IsByte a → IsByte b → byte_at (u16_from_be_bytes a b % 2 ^ 16) 8 ≡ a
byte_at_high a b h k = omega arith

byte_at_low : (a b : ℕ) → IsByte a → IsByte b → u16_from_be_bytes a b % 2 ^ 16 % 256 ≡ b
byte_at_low a b h k = omega arith

drop-prefix :
    (a b c d n : ℕ) (rest : List ℕ)
    → drop (register_prefix_size + n) (a ∷ b ∷ c ∷ d ∷ rest) ≡ drop n rest
drop-prefix a b c d n rest =
    let e : register_prefix_size + n ≡ suc (suc (suc (suc n))) = omega arith in rw e refl

module _ (is_utf8 : List ℕ → Bool) where
  -- The contract of `from_utf8` that is needed: ASCII is UTF-8.
  abbrev pub AcceptsAscii : Type 0
  AcceptsAscii = (bs : List ℕ) → All (λ b. b < 128) bs → is_utf8 bs ≡ true

  id-utf8 : AcceptsAscii → (v : List ℕ) → IsDurableId v → is_utf8 v ≡ true
  id-utf8 accepts v d = accepts v (All-map IsIdByte-ascii v d.allowed)

  decode_ids-ok :
      AcceptsAscii
      → (r : RegistrationRequest) → IsValid r
      → decode_ids is_utf8 r.agent_id r.tunnel_id ≡ ok r
  unfolding decode_ids map_err
  decode_ids-ok accepts r v =
      rw
        (
          id-utf8 accepts r.agent_id v.agent,
          id-utf8 accepts r.tunnel_id v.tunnel,
          (durable_id_new_iff r.agent_id r.agent_id).1 (v.agent, refl),
          (durable_id_new_iff r.tunnel_id r.tunnel_id).1 (v.tunnel, refl),
        )
        refl

  -- The slices of a payload whose two lengths fit.
  decode_registration-eq :
      (a b c d : ℕ) (agent tunnel : List ℕ)
      → u16_from_be_bytes a b ≡ length agent
      → u16_from_be_bytes c d ≡ length tunnel
      → length agent + length tunnel ≤ 128
      → decode_registration is_utf8 (a ∷ b ∷ c ∷ d ∷ (agent ++ tunnel))
        ≡ decode_ids is_utf8 agent tunnel
  unfolding decode_registration
  decode_registration-eq a b c d agent tunnel p q fits =
      let size = length-append agent tunnel in
      let n = length (agent ++ tunnel) in
      let long : ltb (suc (suc (suc (suc n)))) register_prefix_size ≡ false = ground arith in
      let small : ltb register_max_payload_size (suc (suc (suc (suc n)))) ≡ false =
        ground (arith, size) in
      let exact : (register_prefix_size + length agent + length tunnel == suc (suc (suc (suc n))))
          ≡ true =
        ground (arith, size) in
      rw
        (
          p,
          q,
          long,
          small,
          exact,
          take-append_left (length agent) agent tunnel refl,
          drop-prefix a b c d (length agent) (agent ++ tunnel),
          drop-append_left (length agent) agent tunnel refl,
        )
        refl

  decode-encode :
      AcceptsAscii
      → (r : RegistrationRequest) → IsValid r
      → decode_registration is_utf8 (encode_registration r) ≡ ok r
  unfolding encode_registration
  decode-encode accepts r v =
      let few = v.agent.few_bytes in
      let few' = v.tunnel.few_bytes in
      decode_registration-eq _ _ _ _ r.agent_id r.tunnel_id (omega arith) (omega arith)
        (omega arith)
      ∙ decode_ids-ok accepts r v

  decode_ids-IsValid :
      (agent tunnel : List ℕ) (r : RegistrationRequest)
      → decode_ids is_utf8 agent tunnel ≡ ok r
      → IsValid r × (r ≡ record { agent_id = agent; tunnel_id = tunnel })
  unfolding decode_ids map_err
  decode_ids-IsValid agent tunnel r h = elim (Bool-cases (is_utf8 agent)) [
    | inr bad ↦ absurd (let h' = rw bad at h in cc h')
    | inl fine ↦ elim (Bool-cases (is_utf8 tunnel)) [
      | inr bad ↦ absurd (let h' = rw (fine, bad) at h in cc h')
      | inl fine' ↦ elim (Result-cases (durable_id_new agent)) [
        | inr (e, p) ↦ absurd (let h' = rw (fine, fine', p) at h in cc h')
        | inl (a, p) ↦ elim (Result-cases (durable_id_new tunnel)) [
          | inr (e, q) ↦ absurd (let h' = rw (fine, fine', p, q) at h in cc h')
          | inl (t, q) ↦
              let h' = rw (fine, fine', p, q) at h in
              let same : record { agent_id = a; tunnel_id = t } ≡ r = cc h' in
              let (va, ea) = (durable_id_new_iff agent a).0 p in
              let (vt, et) = (durable_id_new_iff tunnel t).0 q in
              let same' : r ≡ record { agent_id = agent; tunnel_id = tunnel } =
                sym same ∙ rw (ea, et) refl in
              (rw same' (record { agent = va; tunnel = vt }), same')
        ]
      ]
    ]
  ]

  -- A payload that decodes has the two lengths in front of two identifiers.
  decode_registration-parts :
      (payload : List ℕ) (r : RegistrationRequest)
      → decode_registration is_utf8 payload ≡ ok r
      → (4 ≤ length payload)
        × (4
              + u16_from_be_bytes (at payload 0) (at payload 1)
              + u16_from_be_bytes (at payload 2) (at payload 3)
            ≡ length payload)
        × (decode_ids is_utf8
              (take (u16_from_be_bytes (at payload 0) (at payload 1)) (drop 4 payload))
              (drop (4 + u16_from_be_bytes (at payload 0) (at payload 1)) payload)
            ≡ ok r)
  unfolding decode_registration
  decode_registration-parts payload r h =
      elim (Bool-cases (ltb (length payload) register_prefix_size)) [
        | inl short ↦ absurd (let h' = rw short at h in cc h')
        | inr long ↦ elim (Bool-cases (ltb register_max_payload_size (length payload))) [
          | inl large ↦ absurd (let h' = rw (long, large) at h in cc h')
          | inr small ↦
              elim (Bool-cases (
                register_prefix_size
                  + u16_from_be_bytes (at payload 0) (at payload 1)
                  + u16_from_be_bytes (at payload 2) (at payload 3)
                == length payload)) [
                  | inr wrong ↦ absurd (let h' = rw (long, small, wrong) at h in cc h')
                  | inl exact ↦ (ground arith, ground arith, rw (long, small, exact) at h)
                ]
        ]
      ]

  encode-decode :
      (payload : List ℕ) (r : RegistrationRequest)
      → All IsByte payload
      → 4 ≤ length payload
      → 4
          + u16_from_be_bytes (at payload 0) (at payload 1)
          + u16_from_be_bytes (at payload 2) (at payload 3)
        ≡ length payload
      → r ≡ record {
        agent_id = take (u16_from_be_bytes (at payload 0) (at payload 1)) (drop 4 payload);
        tunnel_id = drop (4 + u16_from_be_bytes (at payload 0) (at payload 1)) payload;
      }
      → payload ≡ encode_registration r
  unfolding encode_registration
  encode-decode [] r bytes long exact e = absurd (omega arith)
  encode-decode (a ∷ []) r bytes long exact e = absurd (omega arith)
  encode-decode (a ∷ b ∷ []) r bytes long exact e = absurd (omega arith)
  encode-decode (a ∷ b ∷ c ∷ []) r bytes long exact e = absurd (omega arith)
  encode-decode (a ∷ b ∷ c ∷ d ∷ rest) r bytes long exact e =
      let n = u16_from_be_bytes a b in
      let m = u16_from_be_bytes c d in
      let size : length (take n rest) ≡ n = omega (arith, length-take n rest) in
      let size' : length (drop n rest) ≡ m = omega (arith, length-drop n rest) in
      rw
        (
          e,
          drop-prefix a b c d n rest,
          size,
          size',
          take-append-drop n rest,
          byte_at_high a b bytes.0 bytes.1.0,
          byte_at_low a b bytes.0 bytes.1.0,
          byte_at_high c d bytes.1.1.0 bytes.1.1.1.0,
          byte_at_low c d bytes.1.1.0 bytes.1.1.1.0,
        )
        refl

  -- Given that ASCII is UTF-8: a payload of bytes decodes to a request exactly if the request has
  -- two valid identifiers and the payload is its encoding. So every request is read back as it was
  -- written, and no request has two encodings.
  pub decode_registration_iff :
      (payload : List ℕ) (r : RegistrationRequest)
      → AcceptsAscii
      → All IsByte payload
      → (decode_registration is_utf8 payload ≡ ok r)
        ↔ (IsValid r × (payload ≡ encode_registration r))
  decode_registration_iff payload r accepts bytes = (
    λ h.
        let (long, exact, ids) = decode_registration-parts payload r h in
        let (v, same) = decode_ids-IsValid _ _ r ids in
        (v, encode-decode payload r bytes long exact same),
    λ (v, e). rw e (decode-encode accepts r v),
  )
