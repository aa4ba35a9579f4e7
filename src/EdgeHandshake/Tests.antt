-- ===== src/EdgeHandshake/Tests.antt =====
-- The handshake of one agent under a development policy, and the theorems at it.
use Prim.Native.String.{String}
use mathlib.Core.List.{lookup}
use tunnel_proxy.Common.{ℕ, ◌≡◌, refl, Bool, true, Option, none, some, List, [], ◌∷◌, ℕ_discrete}
use tunnel_proxy.Common.Results.{Result, ok}
use tunnel_proxy.Common.Dict.{insert}
use tunnel_proxy.Protocol.FrameType.{hello, register, scope}
use tunnel_proxy.Protocol.Errors.{ProtocolError}
use tunnel_proxy.Protocol.Frame.{Frame, new, check_payload_size, validate_scope, control_frame}
use tunnel_proxy.Codes.Sequence.{session_id_new, to_be_bytes}
use tunnel_proxy.Registration.DurableId.{check_bytes, validate_durable_id, durable_id_new}
use tunnel_proxy.Registration.Payload.{map_err, decode_ids, decode_registration}
use tunnel_proxy.EdgeRegistry.Policy.{
  RegistrationRequest, AuthorizedRegistration, EdgeRegistrationMode, loopback_development,
  policy_authorize,
}
use tunnel_proxy.EdgeRegistry.Model.{static_source, claim, claim_unless, next_id}
use tunnel_proxy.EdgeRegistry.System.{empty_registry, Reaches, starts}
use tunnel_proxy.EdgeHandshake.Model.{
  DurableId, AgentSession, established, Registry, awaited, check_role, check_hello, decoded_request,
  check_register, accepted, authorize_peer, confirmed, registered_frame, allocated, claimed,
  register_peer, perform_authorized_handshake,
}
use tunnel_proxy.EdgeHandshake.Outcomes.{Ends, register_peer-Ends}
use tunnel_proxy.EdgeHandshake.Sessions.{
  IsEstablished, established-IsEstablished, established-Reaches,
}

unfoldable both_decided :
    {x y : ℕ} {xs ys : List ℕ} → Dec (x ≡ y) → Dec (xs ≡ ys) → Dec (x ∷ xs ≡ y ∷ ys)
both_decided (yes p) (yes q) = yes (cc)
both_decided (yes p) (no n) = no (λ e. n (cc))
both_decided (no n) _ = no (λ e. n (cc))

unfoldable ids : Discrete DurableId
unfolding both_decided
ids [] [] = yes refl
ids [] (y ∷ ys) = no (λ e. cc)
ids (x ∷ xs) [] = no (λ e. cc)
ids (x ∷ xs) (y ∷ ys) = both_decided (ℕ_discrete x y) (ids xs ys)

program : Unit {0}
unfolding ℕ_discrete ids both_decided lookup insert scope check_payload_size validate_scope new
    control_frame session_id_new to_be_bytes check_bytes validate_durable_id durable_id_new map_err
    decode_ids decode_registration policy_authorize claim claim_unless next_id awaited check_role
    check_hello decoded_request check_register accepted authorize_peer confirmed registered_frame
    allocated claimed register_peer perform_authorized_handshake
program = tt

abbrev all_utf8 : List ℕ → Bool
all_utf8 bytes = true

abbrev is_written : Frame → Result String (Unit {0})
is_written frame = ok tt

abbrev as_is : {A : Type 0} → A → A
as_is a = a

abbrev wanted : RegistrationRequest DurableId DurableId
wanted = record { agent_id = 97 ∷ []; tunnel_id = 98 ∷ [] }

abbrev one_grant : EdgeRegistrationMode ℕ DurableId DurableId
one_grant = loopback_development (wanted ∷ [])

abbrev says_hello : Result ProtocolError (Option Frame)
says_hello = ok (some (record { frame_type = hello; flags = 0; stream_id = 0; payload = 1 ∷ [] }))

abbrev says_register : Result ProtocolError (Option Frame)
says_register = ok (
    some (record {
      frame_type = register;
      flags = 0;
      stream_id = 0;
      payload = 0 ∷ 1 ∷ 0 ∷ 1 ∷ 97 ∷ 98 ∷ [];
    }))

abbrev at_start : Registry ℕ
at_start = empty_registry (record { version = none; source = static_source; revoked_sessions = 0 })

abbrev admitted : AuthorizedRegistration ℕ DurableId DurableId
admitted = record {
  certificate = none;
  agent_id = 97 ∷ [];
  tunnel_id = 98 ∷ [];
  snapshot_version = none;
}

abbrev first_session : AgentSession ℕ
first_session = record {
  session_id = 1;
  agent_id = 97 ∷ [];
  tunnel_id = 98 ∷ [];
  authorization = admitted;
}

is_established :
    (perform_authorized_handshake ℕ_discrete ids all_utf8 is_written one_grant none says_hello
      says_register at_start).result
    ≡ established first_session
unfolding program
is_established = refl

established-IsEstablished_example :
    IsEstablished ℕ_discrete ids all_utf8 is_written one_grant none says_hello says_register
      at_start first_session
      (perform_authorized_handshake ℕ_discrete ids all_utf8 is_written one_grant none says_hello
        says_register at_start).registry
established-IsEstablished_example =
    established-IsEstablished ℕ_discrete ids all_utf8 is_written one_grant none says_hello
      says_register at_start first_session is_established

established-Reaches_example :
    Reaches
      (λ p. p.tunnel_id)
      ids
      as_is
      as_is
      (perform_authorized_handshake ℕ_discrete ids all_utf8 is_written one_grant none says_hello
        says_register at_start).registry
      (insert ℕ_discrete 1 admitted [])
established-Reaches_example =
    established-Reaches ℕ_discrete ids all_utf8 is_written as_is as_is one_grant none says_hello
      says_register at_start [] first_session
      (starts (record { version = none; source = static_source; revoked_sessions = 0 }) refl refl)
      is_established

register_peer-Ends_example :
    Ends ids is_written
      (record { request = wanted; authorization = admitted })
      at_start
      (register_peer ids is_written
        (ok (record { request = wanted; authorization = admitted }))
        at_start)
register_peer-Ends_example =
    register_peer-Ends ids is_written (record { request = wanted; authorization = admitted })
      at_start
