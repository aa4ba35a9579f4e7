-- ===== src/EdgeHandshake/Authorized.antt =====
-- What an agent must have sent, and who it must be, for its handshake to be accepted.
use tunnel_proxy.Common.{
  ℕ, ◌≡◌, ◌↔◌, refl, ap, ◌∙◌, Bool, true, Option, none, some, List, [], ◌∷◌, ◌==◌, arith,
  Bool-cases, inl, inr,
}
use tunnel_proxy.Common.Results.{Result, ok, err, ◌>>=◌}
use tunnel_proxy.Protocol.FrameType.{FrameType, hello, register}
use tunnel_proxy.Protocol.Errors.{ProtocolError}
use tunnel_proxy.Protocol.Frame.{Frame}
use tunnel_proxy.Codes.Handshake.{HandshakeErrorCode}
use tunnel_proxy.Codes.HelloRole.{role_agent}
use tunnel_proxy.Registration.Payload as Payload
use tunnel_proxy.Registration.Payload.{RegistrationPayloadError, decode_registration}
use tunnel_proxy.Multiplex.Errors.{HandshakeState, await_hello, await_register}
use tunnel_proxy.EdgeRegistry.Policy.{
  RegistrationRequest, AuthorizedRegistration, EdgeRegistrationMode, policy_authorize,
}
use tunnel_proxy.EdgeHandshake.Model.{
  DurableId, awaited, is_hello, is_register, check_role, check_hello, decoded_request,
  check_register, Accepted, accepted, authorize_peer,
}

abbrev pub request_of : Payload.RegistrationRequest → RegistrationRequest DurableId DurableId
request_of r = record { agent_id = r.agent_id; tunnel_id = r.tunnel_id }

bind-ok :
    {E A B : Type 0} (m : Result E A) (k : A → Result E B) (b : B)
    → (m >>= k) ≡ ok b
    → (a : A) × (m ≡ ok a) × (k a ≡ ok b)
bind-ok (ok a) k b e = (a, refl, e)
bind-ok (err x) k b e = absurd (cc e)

is_hello-eq : (t : FrameType) → is_hello t ≡ true → t ≡ hello
is_hello-eq hello e = refl
is_hello-eq _ e = absurd (cc e)

is_register-eq : (t : FrameType) → is_register t ≡ true → t ≡ register
is_register-eq register e = refl
is_register-eq _ e = absurd (cc e)

awaited-ok :
    (state : HandshakeState) (r : Result ProtocolError (Option Frame)) (frame : Frame)
    → (awaited state r ≡ ok frame) ↔ (r ≡ ok (some frame))
unfolding awaited
awaited-ok state (ok (some f)) frame = (
  λ e. let same : f ≡ frame = cc e in ap (λ (x : Frame). ok (some x)) same,
  λ e. let same : f ≡ frame = cc e in ap ok same,
)
awaited-ok state (ok none) frame = (λ e. absurd (cc e), λ e. absurd (cc e))
awaited-ok state (err x) frame = (λ e. absurd (cc e), λ e. absurd (cc e))

check_role-ok :
    (payload : List ℕ) (u : Unit {0}) → check_role payload ≡ ok u → payload ≡ role_agent ∷ []
unfolding check_role
check_role-ok [] u e = absurd (cc e)
check_role-ok (role ∷ []) u e = elim (Bool-cases (role == role_agent)) [
  | inl same ↦ let it : role ≡ role_agent = ground arith in ap (λ r. r ∷ []) it
  | inr other ↦ absurd (let f = rw other at e in cc f)
]
check_role-ok (a ∷ b ∷ rest) u e = absurd (cc e)

check_hello-ok :
    (frame : Frame) (u : Unit {0})
    → check_hello frame ≡ ok u
    → (frame.frame_type ≡ hello) × (frame.payload ≡ role_agent ∷ [])
unfolding check_hello
check_hello-ok frame u e = elim (Bool-cases (is_hello frame.frame_type)) [
  | inl it ↦
      (is_hello-eq frame.frame_type it, check_role-ok frame.payload u (let f = simp it at e in f))
  | inr other ↦ absurd (let f = simp other at e in cc f)
]

decoded_request-ok :
    (r : Result RegistrationPayloadError Payload.RegistrationRequest)
    (request : RegistrationRequest DurableId DurableId)
    → decoded_request r ≡ ok request
    → (q : Payload.RegistrationRequest) × (r ≡ ok q) × (request_of q ≡ request)
unfolding decoded_request
decoded_request-ok (ok q) request e = (q, refl, let same : request_of q ≡ request = cc e in same)
decoded_request-ok (err x) request e = absurd (cc e)

check_register-ok :
    (is_utf8 : List ℕ → Bool) (frame : Frame) (request : RegistrationRequest DurableId DurableId)
    → check_register is_utf8 frame ≡ ok request
    → (frame.frame_type ≡ register)
      × (q : Payload.RegistrationRequest) × (decode_registration is_utf8 frame.payload ≡ ok q)
      × (request_of q ≡ request)
unfolding check_register
check_register-ok is_utf8 frame request e = elim (Bool-cases (is_register frame.frame_type)) [
  | inl it ↦
      let d =
        decoded_request-ok (decode_registration is_utf8 frame.payload) request
          (let f = simp it at e in f) in
      (is_register-eq frame.frame_type it, d.0, d.1, d.2)
  | inr other ↦ absurd (let f = simp other at e in cc f)
]

module _ {Certificate : Type 0} (certificate_dec : Discrete Certificate)
    (id_dec : Discrete DurableId) (is_utf8 : List ℕ → Bool) where
  pub record IsAuthorized (mode : EdgeRegistrationMode Certificate DurableId DurableId)
      (peer_certificate : Option Certificate) (first second : Result ProtocolError (Option Frame))
      (a : Accepted Certificate) : Type 0 where
    pub hello_frame : Frame
    pub came_first : first ≡ ok (some hello_frame)
    pub says_hello : hello_frame.frame_type ≡ hello
    pub as_agent : hello_frame.payload ≡ role_agent ∷ []
    pub register_frame : Frame
    pub came_second : second ≡ ok (some register_frame)
    pub registers : register_frame.frame_type ≡ register
    pub request : Payload.RegistrationRequest
    pub decodes : decode_registration is_utf8 register_frame.payload ≡ ok request
    pub requested : request_of request ≡ a.request
    pub authorized :
        policy_authorize certificate_dec id_dec id_dec mode peer_certificate a.request
        ≡ ok a.authorization

  accepted-ok :
      (request : RegistrationRequest DurableId DurableId)
      (r : Result HandshakeErrorCode (AuthorizedRegistration Certificate DurableId DurableId))
      (a : Accepted Certificate)
      → accepted request r ≡ ok a
      → (request ≡ a.request) × (r ≡ ok a.authorization)
  unfolding accepted
  accepted-ok request (ok x) a e = (cc e, let same : x ≡ a.authorization = cc e in ap ok same)
  accepted-ok request (err x) a e = absurd (cc e)

  -- A handshake is accepted only if the first frame is a HELLO of exactly one byte, the role of an
  -- agent, the second one is a REGISTER whose payload decodes to the request, and the policy
  -- authorizes this request for the certificate of the connection.
  pub authorize_peer-IsAuthorized :
      (mode : EdgeRegistrationMode Certificate DurableId DurableId)
      (peer_certificate : Option Certificate) (first second : Result ProtocolError (Option Frame))
      (a : Accepted Certificate)
      → authorize_peer certificate_dec id_dec is_utf8 mode peer_certificate first second ≡ ok a
      → IsAuthorized mode peer_certificate first second a
  unfolding authorize_peer
  authorize_peer-IsAuthorized mode peer_certificate first second a e =
      let (f, e1, k1) = bind-ok (awaited await_hello first) _ a e in
      let (u, e2, k2) = bind-ok (check_hello f) _ a k1 in
      let (g, e3, k3) = bind-ok (awaited await_register second) _ a k2 in
      let (q, e4, k4) = bind-ok (check_register is_utf8 g) _ a k3 in
      let says = check_hello-ok f u e2 in
      let asks = check_register-ok is_utf8 g q e4 in
      let done = accepted-ok q _ a k4 in
      record {
        hello_frame = f;
        came_first = (awaited-ok await_hello first f).0 e1;
        says_hello = says.0;
        as_agent = says.1;
        register_frame = g;
        came_second = (awaited-ok await_register second g).0 e3;
        registers = asks.0;
        request = asks.1;
        decodes = asks.2;
        requested = asks.3 ∙ done.0;
        authorized = rw (← done.0) done.1;
      }
