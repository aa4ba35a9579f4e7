-- ===== src/EdgeHandshake/Sessions.antt =====
-- The sessions that handshakes establish, and their place among the sessions of the edge.
use Prim.Native.String.{String}
use mathlib.Core.List.{lookup}
use tunnel_proxy.Common.{
  ℕ, ◌+◌, ◌-◌, ◌^◌, ◌==◌, ltb, arith, ◌≡◌, refl, ap, sym, ◌∙◌, Bool, true, false, Option, none,
  some, List, ℕ_discrete, Bool-cases, inl, inr,
}
use tunnel_proxy.Common.Results.{Result, ok, err, Result-cases}
use tunnel_proxy.Common.Dict.{insert}
use tunnel_proxy.Protocol.Errors.{ProtocolError}
use tunnel_proxy.Protocol.Frame.{Frame}
use tunnel_proxy.Authorization.Snapshot as Snapshot
use tunnel_proxy.Authorization.Snapshot.{any}
use tunnel_proxy.EdgeRegistry.Policy.{
  RegistrationRequest, AuthorizedRegistration, EdgeRegistrationMode, loopback_development,
  mutual_tls, has_code, same_request, same_agent, authorize_certificate, policy_authorize,
}
use tunnel_proxy.Codes.Sequence.{session_id_new}
use tunnel_proxy.EdgeRegistry.Model.{claim, claim_unless, next_id}
use tunnel_proxy.EdgeRegistry.System.{Reaches, registers}
use tunnel_proxy.EdgeHandshake.Model.{
  DurableId, Refusal, AgentSession, established, Accepted, Registry, Outcome, authorize_peer,
  register_peer, perform_authorized_handshake,
}
use tunnel_proxy.EdgeHandshake.Authorized.{IsAuthorized, authorize_peer-IsAuthorized}
use tunnel_proxy.EdgeHandshake.Outcomes.{establishes, taken, exhausted, unsent, register_peer-Ends}

module _ {Certificate : Type 0} (certificate_dec : Discrete Certificate)
    (id_dec : Discrete DurableId) where
  authorize_certificate-tunnel :
      (current : _) (c : Option Certificate) (request : RegistrationRequest DurableId DurableId)
      (p : AuthorizedRegistration Certificate DurableId DurableId)
      → authorize_certificate certificate_dec id_dec id_dec current c request ≡ ok p
      → p.tunnel_id ≡ request.tunnel_id
  unfolding authorize_certificate
  authorize_certificate-tunnel current none request p e = absurd (cc e)
  authorize_certificate-tunnel current (some certificate) request p e =
      elim (Result-cases (
        has_code (
          Snapshot.authorize certificate_dec id_dec id_dec current.snapshot certificate
            request.agent_id request.tunnel_id))) [
              | inl (u, f) ↦ let g = simp f at e in cc g
              | inr (x, f) ↦ absurd (let g = simp f at e in cc g)
            ]

  -- The identity that a policy establishes is for the tunnel that was asked for.
  policy_authorize-tunnel :
      (mode : EdgeRegistrationMode Certificate DurableId DurableId) (c : Option Certificate)
      (request : RegistrationRequest DurableId DurableId)
      (p : AuthorizedRegistration Certificate DurableId DurableId)
      → policy_authorize certificate_dec id_dec id_dec mode c request ≡ ok p
      → p.tunnel_id ≡ request.tunnel_id
  unfolding policy_authorize
  policy_authorize-tunnel (mutual_tls current health static_source local_updates) c request p e =
      authorize_certificate-tunnel current c request p e
  policy_authorize-tunnel (loopback_development registrations) c request p e =
      elim (Bool-cases (
        any (λ allowed. same_request certificate_dec id_dec id_dec allowed request)
          registrations)) [
            | inl allowed ↦ let f = simp allowed at e in cc f
            | inr other ↦
                elim (Bool-cases (
                  any
                    (λ allowed.
                      same_agent certificate_dec id_dec id_dec allowed.agent_id request.agent_id)
                    registrations)) [
                      | inl known ↦ absurd (let f = simp (other, known) at e in cc f)
                      | inr unknown ↦ absurd (let f = simp (other, unknown) at e in cc f)
                    ]
          ]

module _ {Certificate : Type 0} (certificate_dec : Discrete Certificate)
    (id_dec : Discrete DurableId) (is_utf8 : List ℕ → Bool)
    (encoded : Frame → Result String (Unit {0})) where
  -- What an established session stands for.
  pub record IsEstablished (mode : EdgeRegistrationMode Certificate DurableId DurableId)
      (peer_certificate : Option Certificate) (first second : Result ProtocolError (Option Frame))
      (r : Registry Certificate) (s : AgentSession Certificate) (r' : Registry Certificate)
      : Type 0 where
    pub accepted : Accepted Certificate
    pub authorized :
        IsAuthorized certificate_dec id_dec is_utf8 mode peer_certificate first second accepted
    pub same_identity : s.authorization ≡ accepted.authorization
    pub same_tunnel : s.tunnel_id ≡ accepted.request.tunnel_id
    pub tunnel_was_free : lookup id_dec s.tunnel_id r.claims ≡ none
    pub identifiers_left : ltb r.counter (2 ^ 64 - 1) ≡ true
    pub next_identifier : s.session_id ≡ r.counter + 1
    pub registry :
        r' ≡ record r { claims = insert id_dec s.tunnel_id tt r.claims; counter = r.counter + 1 }

  registered-IsEstablished :
      (mode : EdgeRegistrationMode Certificate DurableId DurableId)
      (peer_certificate : Option Certificate) (first second : Result ProtocolError (Option Frame))
      (r : Registry Certificate) (s : AgentSession Certificate) (a : Accepted Certificate)
      → IsAuthorized certificate_dec id_dec is_utf8 mode peer_certificate first second a
      → (register_peer id_dec encoded (ok a) r).result ≡ established s
      → IsEstablished mode peer_certificate first second r s
          (register_peer id_dec encoded (ok a) r).registry
  registered-IsEstablished mode peer_certificate first second r s a v e =
      elim (register_peer-Ends id_dec encoded a r) [
        | taken t ↦ absurd (cc (e, ap (λ (x : Outcome Certificate). x.result) t.ended))
        | exhausted over d ↦ absurd (cc (e, d.failed_with))
        | unsent message room broken d ↦ absurd (cc (e, d.failed_with))
        | establishes free room sent o ↦
            let result = ap (λ (x : Outcome Certificate). x.result) o in
            let it : s ≡ record {
              session_id = r.counter + 1;
              agent_id = a.request.agent_id;
              tunnel_id = a.request.tunnel_id;
              authorization = a.authorization;
            } =
              cc (e, result) in
            let tunnel = ap (λ (x : AgentSession Certificate). x.tunnel_id) it in
            record {
              accepted = a;
              authorized = v;
              same_identity = ap (λ (x : AgentSession Certificate). x.authorization) it;
              same_tunnel = tunnel;
              tunnel_was_free = rw tunnel free;
              identifiers_left = room;
              next_identifier = ap (λ (x : AgentSession Certificate). x.session_id) it;
              registry = rw tunnel (ap (λ (x : Outcome Certificate). x.registry) o);
            }
      ]

  refused_is_failed :
      (x : Refusal) (r : Registry Certificate) (s : AgentSession Certificate)
      → ¬ ((register_peer id_dec encoded (err x) r).result ≡ established s)
  unfolding register_peer
  refused_is_failed x r s e = cc e

  -- A handshake establishes a session only for an agent that said HELLO and REGISTER as the protocol
  -- wants, for the identity that the policy authorizes with the certificate of the connection, for a
  -- tunnel that no other session holds, and under the next session identifier; the registry then
  -- has the claim of this tunnel and the new counter, and nothing else has changed.
  pub established-IsEstablished :
      (mode : EdgeRegistrationMode Certificate DurableId DurableId)
      (peer_certificate : Option Certificate) (first second : Result ProtocolError (Option Frame))
      (r : Registry Certificate) (s : AgentSession Certificate)
      → (perform_authorized_handshake certificate_dec id_dec is_utf8 encoded mode peer_certificate
          first second r).result
        ≡ established s
      → IsEstablished mode peer_certificate first second r s
          (perform_authorized_handshake certificate_dec id_dec is_utf8 encoded mode peer_certificate
            first second r).registry
  unfolding perform_authorized_handshake
  established-IsEstablished mode peer_certificate first second r s e =
      elim (Result-cases
        (authorize_peer certificate_dec id_dec is_utf8 mode peer_certificate first second)) [
          | inl (a, f) ↦
              let e' = rw f at e in
              rw f (
                registered-IsEstablished mode peer_certificate first second r s a
                  (authorize_peer-IsAuthorized certificate_dec id_dec is_utf8 mode peer_certificate
                    first second a f)
                  e')
          | inr (x, f) ↦ absurd (let e' = rw f at e in refused_is_failed x r s e')
        ]

  -- A handshake that establishes a session is the step `registers` of the edge: after it the edge is
  -- in a state that its sessions reach, with the new session among those that hold a claim.
  pub established-Reaches :
      (sort_ids : List ℕ → List ℕ) (sort_bindings : List (DurableId × ℕ) → List (DurableId × ℕ))
      (mode : EdgeRegistrationMode Certificate DurableId DurableId)
      (peer_certificate : Option Certificate) (first second : Result ProtocolError (Option Frame))
      (r : Registry Certificate)
      (hs : List (ℕ × AuthorizedRegistration Certificate DurableId DurableId))
      (s : AgentSession Certificate)
      → Reaches (λ p. p.tunnel_id) id_dec sort_ids sort_bindings r hs
      → (perform_authorized_handshake certificate_dec id_dec is_utf8 encoded mode peer_certificate
          first second r).result
        ≡ established s
      → Reaches
          (λ p. p.tunnel_id)
          id_dec
          sort_ids
          sort_bindings
          (perform_authorized_handshake certificate_dec id_dec is_utf8 encoded mode peer_certificate
            first second r).registry
          (insert ℕ_discrete s.session_id s.authorization hs)
  unfolding claim claim_unless next_id session_id_new
  established-Reaches sort_ids sort_bindings mode peer_certificate first second r hs s before e =
      let v = established-IsEstablished mode peer_certificate first second r s e in
      let policy =
        policy_authorize-tunnel certificate_dec id_dec mode peer_certificate v.accepted.request
          v.accepted.authorization v.authorized.authorized in
      let tunnel : s.authorization.tunnel_id ≡ s.tunnel_id =
        ap (λ (x : AuthorizedRegistration Certificate DurableId DurableId). x.tunnel_id)
          (v.same_identity)
        ∙ policy
        ∙ sym v.same_tunnel in
      let was_free = v.tunnel_was_free in
      let r1 : Registry Certificate = record r { claims = insert id_dec s.tunnel_id tt r.claims } in
      let room = v.identifiers_left in
      let positive : (r.counter + 1 == 0) ≡ false = ground arith in
      registers r r1 _ hs s.authorization s.authorization.tunnel_id s.session_id before
        (simp (tunnel, was_free) refl) (simp (room, positive, v.next_identifier, v.registry) refl)
