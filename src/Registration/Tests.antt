-- ===== src/Registration/Tests.antt =====
-- A REGISTER payload; every string of bytes counts as UTF-8.
use tunnel_proxy.Common.{ℕ, ◌≡◌, refl, ◌↔◌, Bool, true, List, [], ◌∷◌, ◌++◌, arith}
use tunnel_proxy.Common.Results.{ok, err}
use tunnel_proxy.Registration.DurableId.{
  check_bytes, validate_durable_id, durable_id_new, empty, invalid_character,
}
use tunnel_proxy.Registration.Payload.{
  RegistrationRequest, encode_registration, map_err, decode_ids, decode_registration,
  invalid_length, truncated_prefix, invalid_agent_id,
}
use tunnel_proxy.Registration.RoundTrip.{IsValid, decode_registration_iff}

program : Unit {0}
unfolding check_bytes validate_durable_id durable_id_new encode_registration map_err decode_ids
    decode_registration
program = tt

abbrev any : List ℕ → Bool
any bs = true

-- "a-1" and "t"
abbrev request : RegistrationRequest
request = record { agent_id = 97 ∷ 45 ∷ 49 ∷ []; tunnel_id = 116 ∷ [] }

abbrev payload : List ℕ
payload = 0 ∷ 3 ∷ 0 ∷ 1 ∷ 97 ∷ 45 ∷ 49 ∷ 116 ∷ []

encodes : encode_registration request ≡ payload
unfolding program
encodes = refl

decodes :
    (decode_registration any payload ≡ ok request)
    × (decode_registration any (payload ++ 116 ∷ []) ≡ err invalid_length)
    × (decode_registration any (0 ∷ 1 ∷ []) ≡ err truncated_prefix)
    × (decode_registration any (0 ∷ 0 ∷ 0 ∷ 1 ∷ 116 ∷ []) ≡ err (invalid_agent_id empty))
    × (decode_registration any (0 ∷ 1 ∷ 0 ∷ 1 ∷ 46 ∷ 116 ∷ [])
        ≡ err (invalid_agent_id (invalid_character 0 46)))
unfolding program
decodes = (refl, refl, refl, refl, refl)

decode_registration_iff_example :
    (decode_registration any payload ≡ ok request)
    ↔ (IsValid request × (payload ≡ encode_registration request))
decode_registration_iff_example =
    decode_registration_iff any payload request (λ bs h. refl) (ground arith)
