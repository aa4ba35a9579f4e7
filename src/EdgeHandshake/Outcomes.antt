-- ===== src/EdgeHandshake/Outcomes.antt =====
-- How a handshake ends, and what it leaves in the registry.
use Prim.Native.String.{String}
use mathlib.Core.List.{lookup}
use tunnel_proxy.Common.{
  ◌+◌, ◌-◌, ◌^◌, ◌≡◌, refl, sym, ◌∙◌, true, false, none, some, List, [], ◌∷◌, ◌==◌, ltb, arith,
  Bool-cases, Option-cases, inl, inr,
}
use tunnel_proxy.Common.Results.{Result, ok, err, Result-cases}
use tunnel_proxy.Common.Dict.{
  insert, remove, lookup-insert_ne, lookup-remove_self, lookup-remove_ne,
}
use tunnel_proxy.Protocol.FrameType.{registered, scope}
use tunnel_proxy.Protocol.Frame.{Frame, new-ok, control_frame}
use tunnel_proxy.Codes.Sequence.{
  TransportSessionId, session_id_new, session_id_to_be_bytes, to_be_bytes,
}
use tunnel_proxy.Multiplex.Errors.{
  AgentTransportError, registration_rejected, protocol_violation, session_io,
}
use tunnel_proxy.Codes.Handshake.{tunnel_already_connected}
use tunnel_proxy.EdgeRegistry.Model.{next_id, claim, claim_unless, drop_claim}
use tunnel_proxy.EdgeHandshake.Model.{
  DurableId, send_registered, established, failed, Accepted, Registry, Outcome, confirmed,
  replies_of, send_error, registered_frame, allocated, claimed, register_peer,
}

abbrev pub registered_payload : TransportSessionId → Frame
registered_payload id = record {
  frame_type = registered;
  flags = 0;
  stream_id = 0;
  payload = session_id_to_be_bytes id;
}

registered-ok :
    (id : TransportSessionId)
    → control_frame registered (session_id_to_be_bytes id) ≡ ok (registered_payload id)
unfolding control_frame scope to_be_bytes
registered-ok id =
    new-ok registered 0 0 (session_id_to_be_bytes id)
      (record { no_flags = refl; bounded = omega arith; in_scope = refl })

-- A claim that is dropped again.
claim_dropped :
    (id_dec : Discrete DurableId) (tunnel t : DurableId) (m : List (DurableId × Unit {0}))
    → lookup id_dec tunnel m ≡ none
    → lookup id_dec t (remove id_dec tunnel (insert id_dec tunnel tt m)) ≡ lookup id_dec t m
claim_dropped id_dec tunnel t m free = elim (id_dec t tunnel) [
  | yes same ↦ rw (same) (lookup-remove_self id_dec tunnel (insert id_dec tunnel tt m) ∙ sym free)
  | no other ↦
      lookup-remove_ne id_dec tunnel t (insert id_dec tunnel tt m) other
      ∙ lookup-insert_ne id_dec tunnel t tt m other
]

module _ {Certificate : Type 0} (id_dec : Discrete DurableId)
    (encoded : Frame → Result String (Unit {0})) where
  -- Another session holds the tunnel: the agent is told, and nothing changes.
  pub record IsTaken (a : Accepted Certificate) (r : Registry Certificate) (o : Outcome Certificate)
      : Type 0 where
    pub held : lookup id_dec a.request.tunnel_id r.claims ≡ some tt
    pub ended : o ≡ record {
      replies = send_error tunnel_already_connected ∷ [];
      result = failed (registration_rejected tunnel_already_connected);
      registry = r;
    }

  -- The claim that was taken for the agent is dropped again; the rest is `r'`.
  pub record IsDropped (a : Accepted Certificate) (r r' : Registry Certificate)
      (reason : AgentTransportError) (o : Outcome Certificate) : Type 0 where
    pub free : lookup id_dec a.request.tunnel_id r.claims ≡ none
    pub silent : o.replies ≡ []
    pub failed_with : o.result ≡ failed reason
    pub claims :
        (tunnel : DurableId)
        → lookup id_dec tunnel o.registry.claims ≡ lookup id_dec tunnel r.claims
    pub others : o.registry ≡ record r' { claims = o.registry.claims }

  pub data Ends (a : Accepted Certificate) (r : Registry Certificate) (o : Outcome Certificate)
      : Type 0 where
    establishes :
        lookup id_dec a.request.tunnel_id r.claims ≡ none
        → ltb r.counter (2 ^ 64 - 1) ≡ true
        → encoded (registered_payload (r.counter + 1)) ≡ ok tt
        → o ≡ record {
          replies = send_registered (registered_payload (r.counter + 1)) ∷ [];
          result = established (record {
            session_id = r.counter + 1;
            agent_id = a.request.agent_id;
            tunnel_id = a.request.tunnel_id;
            authorization = a.authorization;
          });
          registry = record r {
            claims = insert id_dec a.request.tunnel_id tt r.claims;
            counter = r.counter + 1;
          };
        }
        → Ends a r o
    taken : IsTaken a r o → Ends a r o
    exhausted :
        ltb r.counter (2 ^ 64 - 1) ≡ false
        → IsDropped a r r (protocol_violation "session ID allocator exhausted") o
        → Ends a r o
    unsent :
        (message : String)
        → ltb r.counter (2 ^ 64 - 1) ≡ true
        → encoded (registered_payload (r.counter + 1)) ≡ err message
        → IsDropped a r (record r { counter = r.counter + 1 }) (session_io message) o
        → Ends a r o

  allocated-Ends :
      (a : Accepted Certificate) (r : Registry Certificate)
      → lookup id_dec a.request.tunnel_id r.claims ≡ none
      → Ends a r (
          allocated id_dec encoded a
            (next_id (record r { claims = insert id_dec a.request.tunnel_id tt r.claims })))
  unfolding allocated registered_frame confirmed next_id session_id_new drop_claim
  allocated-Ends a r free =
      let back = λ (t : DurableId). claim_dropped id_dec a.request.tunnel_id t r.claims free in
      elim (Bool-cases (ltb r.counter (2 ^ 64 - 1))) [
        | inr over ↦ simp over (
            exhausted over (record {
              free = free;
              silent = refl;
              failed_with = refl;
              claims = back;
              others = refl;
            }))
        | inl room ↦
            let positive : (r.counter + 1 == 0) ≡ false = ground arith in
            elim (Result-cases (encoded (registered_payload (r.counter + 1)))) [
              | inl (u, sent) ↦
                  simp (room, positive, registered-ok (r.counter + 1), sent)
                    (establishes free room sent refl)
              | inr (message, broken) ↦
                  simp (room, positive, registered-ok (r.counter + 1), broken)
                    (unsent message room broken (record {
                      free = free;
                      silent = refl;
                      failed_with = refl;
                      claims = back;
                      others = refl;
                    }))
            ]
      ]

  -- An accepted agent whose tunnel is free, while identifiers are left and the REGISTERED frame can
  -- be written, is registered under the next identifier with the claim of its tunnel, and is sent
  -- just the frame with this identifier. In each other case the handshake fails: when the tunnel is
  -- held, the agent is sent TUNNEL_ALREADY_CONNECTED, the handshake fails with this code and nothing
  -- changes; when no identifier is left or the frame cannot be written, nothing is sent, the error
  -- is the violation or the I/O error, every tunnel has the claim it had before, and nothing else
  -- changes but the counter, which only a frame that cannot be written has moved. It never panics.
  pub register_peer-Ends :
      (a : Accepted Certificate) (r : Registry Certificate)
      → Ends a r (register_peer id_dec encoded (ok a) r)
  unfolding register_peer claimed claim claim_unless replies_of
  register_peer-Ends a r = elim (Option-cases (lookup id_dec a.request.tunnel_id r.claims)) [
    | inl free ↦ simp free (allocated-Ends a r free)
    | inr (u, held) ↦ simp held (taken (record { held = held; ended = refl }))
  ]
