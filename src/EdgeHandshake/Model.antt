-- ===== src/EdgeHandshake/Model.antt =====
-- `perform_authorized_handshake`: two frames are awaited, then the session is registered. What the
-- decoder returns for them, and what the encoder answers, are told.
use Prim.Native.String.{String}
use tunnel_proxy.Common.{
  ℕ, Bool, true, false, not, Option, none, some, List, [], ◌∷◌, ◌==◌, if◌then◌else◌,
}
use tunnel_proxy.Common.Results.{Result, ok, err, ◌>>=◌, ◌>>◌}
use tunnel_proxy.Protocol.FrameType.{FrameType, hello, register, registered}
use tunnel_proxy.Protocol.Errors.{ProtocolError}
use tunnel_proxy.Protocol.Frame.{Frame, control_frame}
use tunnel_proxy.Codes.Handshake.{
  HandshakeErrorCode, unexpected_frame, invalid_hello, invalid_register, tunnel_already_connected,
}
use tunnel_proxy.Codes.HelloRole.{role_agent}
use tunnel_proxy.Codes.Sequence.{TransportSessionId, session_id_to_be_bytes}
use tunnel_proxy.Registration.Payload as Payload
use tunnel_proxy.Registration.Payload.{RegistrationPayloadError, decode_registration}
use tunnel_proxy.Multiplex.Errors.{
  HandshakeState, await_hello, await_register, AgentTransportError, protocol_violation,
  unexpected_eof, protocol_decode, session_io, registration_rejected,
}
use tunnel_proxy.EdgeRegistry.Policy.{
  RegistrationRequest, AuthorizedRegistration, EdgeRegistrationMode, policy_authorize,
}
use tunnel_proxy.EdgeRegistry.Model.{EdgeRegistry, claim, drop_claim, next_id}

-- The identifiers are byte strings.
abbrev pub DurableId : Type 0
DurableId = List ℕ

-- Why a handshake ends: what is sent to the agent before the connection is closed, if anything.
pub record Refusal : Type 0 where
  pub reply : Option HandshakeErrorCode
  pub reason : AgentTransportError

pub record AgentSession (Certificate : Type 0) : Type 0 where
  pub session_id : TransportSessionId
  pub agent_id : DurableId
  pub tunnel_id : DurableId
  pub authorization : AuthorizedRegistration Certificate DurableId DurableId

pub data Reply : Type 0 where
  send_error : HandshakeErrorCode → Reply
  send_registered : Frame → Reply

-- `panicked` stands for the `expect` on the REGISTERED frame.
pub data HandshakeResult (Certificate : Type 0) : Type 0 where
  established : AgentSession Certificate → HandshakeResult Certificate
  failed : AgentTransportError → HandshakeResult Certificate
  panicked : HandshakeResult Certificate

abbrev pub refuse_with : HandshakeErrorCode → String → Refusal
refuse_with code reason = record { reply = some code; reason = protocol_violation reason }

-- The `match` on `decoder.decode(socket)`.
unfoldable pub awaited : HandshakeState → Result ProtocolError (Option Frame) → Result Refusal Frame
awaited state (ok (some frame)) = ok frame
awaited state (ok none) = err (record { reply = none; reason = unexpected_eof state })
awaited state (err e) = err (record { reply = none; reason = protocol_decode e })

abbrev pub is_hello : FrameType → Bool
is_hello hello = true
is_hello _ = false

abbrev pub is_register : FrameType → Bool
is_register register = true
is_register _ = false

unfoldable pub check_role : List ℕ → Result Refusal (Unit {0})
check_role (role ∷ []) =
    if role == role_agent then ok tt else err (refuse_with invalid_hello "unknown HELLO role")
check_role _ = err (refuse_with invalid_hello "invalid HELLO payload length")

unfoldable pub check_hello : Frame → Result Refusal (Unit {0})
unfolding check_role
check_hello frame =
    if not (is_hello frame.frame_type)
    then err (refuse_with unexpected_frame "expected HELLO first")
    else check_role frame.payload

unfoldable pub decoded_request :
    Result RegistrationPayloadError Payload.RegistrationRequest
    → Result Refusal (RegistrationRequest DurableId DurableId)
decoded_request (ok r) = ok (record { agent_id = r.agent_id; tunnel_id = r.tunnel_id })
decoded_request (err e) = err (refuse_with invalid_register "invalid REGISTER payload")

unfoldable pub check_register :
    (List ℕ → Bool) → Frame → Result Refusal (RegistrationRequest DurableId DurableId)
unfolding decoded_request
check_register is_utf8 frame =
    if not (is_register frame.frame_type)
    then err (refuse_with unexpected_frame "expected REGISTER as second frame")
    else decoded_request (decode_registration is_utf8 frame.payload)

pub record Accepted (Certificate : Type 0) : Type 0 where
  pub request : RegistrationRequest DurableId DurableId
  pub authorization : AuthorizedRegistration Certificate DurableId DurableId

unfoldable pub accepted :
    {Certificate : Type 0}
    → RegistrationRequest DurableId DurableId
    → Result HandshakeErrorCode (AuthorizedRegistration Certificate DurableId DurableId)
    → Result Refusal (Accepted Certificate)
accepted request (ok authorization) =
    ok (record { request = request; authorization = authorization })
accepted request (err code) =
    err (record { reply = some code; reason = registration_rejected code })

module _ {Certificate : Type 0} (certificate_dec : Discrete Certificate)
    (id_dec : Discrete DurableId) (is_utf8 : List ℕ → Bool) where
  -- The part that reads and decides.
  unfoldable pub authorize_peer :
      EdgeRegistrationMode Certificate DurableId DurableId
      → Option Certificate
      → Result ProtocolError (Option Frame)
      → Result ProtocolError (Option Frame)
      → Result Refusal (Accepted Certificate)
  unfolding awaited check_hello check_register accepted
  authorize_peer mode peer_certificate first second = do
    hello_frame ← awaited await_hello first
    check_hello hello_frame
    register_frame ← awaited await_register second
    request ← check_register is_utf8 register_frame
    accepted request (policy_authorize certificate_dec id_dec id_dec mode peer_certificate request)

abbrev pub Registry : Type 0 → Type 0
Registry Certificate =
    EdgeRegistry (AuthorizedRegistration Certificate DurableId DurableId) DurableId

pub record Outcome (Certificate : Type 0) : Type 0 where
  pub replies : List Reply
  pub result : HandshakeResult Certificate
  pub registry : Registry Certificate

-- `send_error_and_close`
unfoldable pub replies_of : Option HandshakeErrorCode → List Reply
replies_of none = []
replies_of (some code) = send_error code ∷ []

module _ {Certificate : Type 0} (id_dec : Discrete DurableId)
    (encoded : Frame → Result String (Unit {0})) where
  -- The REGISTERED frame is sent; an error drops the claim.
  unfoldable pub confirmed :
      Accepted Certificate
      → TransportSessionId
      → Registry Certificate
      → Frame
      → Result String (Unit {0})
      → Outcome Certificate
  confirmed a id r frame (ok u) = record {
    replies = send_registered frame ∷ [];
    result = established (record {
      session_id = id;
      agent_id = a.request.agent_id;
      tunnel_id = a.request.tunnel_id;
      authorization = a.authorization;
    });
    registry = r;
  }
  confirmed a id r frame (err message) = record {
    replies = [];
    result = failed (session_io message);
    registry = drop_claim id_dec a.request.tunnel_id r;
  }

  unfoldable pub registered_frame :
      Accepted Certificate
      → TransportSessionId
      → Registry Certificate
      → Result ProtocolError Frame
      → Outcome Certificate
  unfolding confirmed
  registered_frame a id r (ok frame) = confirmed a id r frame (encoded frame)
  registered_frame a id r (err e) = record { replies = []; result = panicked; registry = r }

  unfoldable pub allocated :
      Accepted Certificate → Option TransportSessionId × Registry Certificate → Outcome Certificate
  unfolding registered_frame
  allocated a (none, r) = record {
    replies = [];
    result = failed (protocol_violation "session ID allocator exhausted");
    registry = drop_claim id_dec a.request.tunnel_id r;
  }
  allocated a (some id, r) =
      registered_frame a id r (control_frame registered (session_id_to_be_bytes id))

  unfoldable pub claimed :
      Accepted Certificate → Option DurableId × Registry Certificate → Outcome Certificate
  unfolding allocated
  claimed a (none, r) = record {
    replies = replies_of (some tunnel_already_connected);
    result = failed (registration_rejected tunnel_already_connected);
    registry = r;
  }
  claimed a (some tunnel, r) = allocated a (next_id r)

  unfoldable pub register_peer :
      Result Refusal (Accepted Certificate) → Registry Certificate → Outcome Certificate
  unfolding claimed replies_of
  register_peer (err refusal) r = record {
    replies = replies_of refusal.reply;
    result = failed refusal.reason;
    registry = r;
  }
  register_peer (ok a) r = claimed a (claim id_dec a.request.tunnel_id r)

module _ {Certificate : Type 0} (certificate_dec : Discrete Certificate)
    (id_dec : Discrete DurableId) (is_utf8 : List ℕ → Bool)
    (encoded : Frame → Result String (Unit {0})) where
  unfoldable pub perform_authorized_handshake :
      EdgeRegistrationMode Certificate DurableId DurableId
      → Option Certificate
      → Result ProtocolError (Option Frame)
      → Result ProtocolError (Option Frame)
      → Registry Certificate
      → Outcome Certificate
  unfolding authorize_peer register_peer
  perform_authorized_handshake mode peer_certificate first second r =
      register_peer id_dec encoded
        (authorize_peer certificate_dec id_dec is_utf8 mode peer_certificate first second) r
