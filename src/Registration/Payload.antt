-- ===== src/Registration/Payload.antt =====
-- `RegistrationRequest`: `encode` and `decode`. `from_utf8` is a parameter, as the test of UTF-8.
use tunnel_proxy.Common.{
  ℕ, ◌+◌, ◌*◌, ◌%◌, ◌^◌, Bool, not, List, ◌++◌, ltb, ◌==◌, length, take, drop,
}
use tunnel_proxy.Common.Results.{Result, ok, err, ◌>>=◌, ◌>>◌, reject_if}
use tunnel_proxy.Common.Bytes.{u16_to_be_bytes, u16_from_be_bytes}
use tunnel_proxy.Protocol.Header.{at}
use tunnel_proxy.Registration.DurableId.{DurableIdError, max_durable_id_bytes, durable_id_new}

abbrev pub register_prefix_size : ℕ
register_prefix_size = 4

abbrev pub register_max_payload_size : ℕ
register_max_payload_size = register_prefix_size + max_durable_id_bytes * 2

pub record RegistrationRequest : Type 0 where
  pub agent_id : List ℕ
  pub tunnel_id : List ℕ

pub data RegistrationPayloadError : Type 0 where
  truncated_prefix : RegistrationPayloadError
  too_large : ℕ → RegistrationPayloadError
  invalid_length invalid_utf8 : RegistrationPayloadError
  invalid_agent_id invalid_tunnel_id : DurableIdError → RegistrationPayloadError

-- `agent.len() as u16` keeps the low 16 bits.
unfoldable pub encode_registration : RegistrationRequest → List ℕ
encode_registration r =
    u16_to_be_bytes (length r.agent_id % 2 ^ 16)
    ++ u16_to_be_bytes (length r.tunnel_id % 2 ^ 16)
    ++ r.agent_id
    ++ r.tunnel_id

-- `map_err`
unfoldable pub map_err : {E F A : Type 0} → (E → F) → Result E A → Result F A
map_err f (ok a) = ok a
map_err f (err e) = err (f e)

module _ (is_utf8 : List ℕ → Bool) where
  -- The slices, once the lengths are known to fit. The sum of the two lengths and the prefix is far
  -- below the maximum of `usize`, so `checked_add` yields it.
  unfoldable pub decode_ids : List ℕ → List ℕ → Result RegistrationPayloadError RegistrationRequest
  decode_ids agent tunnel = do
    reject_if (not (is_utf8 agent)) invalid_utf8
    reject_if (not (is_utf8 tunnel)) invalid_utf8
    agent_id ← map_err invalid_agent_id (durable_id_new agent)
    tunnel_id ← map_err invalid_tunnel_id (durable_id_new tunnel)
    ok (record { agent_id = agent_id; tunnel_id = tunnel_id })

  unfoldable pub decode_registration : List ℕ → Result RegistrationPayloadError RegistrationRequest
  decode_registration payload = do
    reject_if (ltb (length payload) register_prefix_size) truncated_prefix
    reject_if (ltb register_max_payload_size (length payload)) (too_large (length payload))
    let agent_len = u16_from_be_bytes (at payload 0) (at payload 1)
    let tunnel_len = u16_from_be_bytes (at payload 2) (at payload 3)
    reject_if (not (register_prefix_size + agent_len + tunnel_len == length payload)) invalid_length
    decode_ids (take agent_len (drop register_prefix_size payload))
        (drop (register_prefix_size + agent_len) payload)
