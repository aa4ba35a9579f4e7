-- ===== src/EdgeRegistry/Model.antt =====
-- The registry of live sessions: allocation and claims of crates/edge/src/agent_transport.rs, and
-- publication, removal, reconciliation and routing of crates/edge/src/multiplex.rs. The gate makes
-- publication, removal, reconciliation and the start of a stream one step each.
use mathlib.Core.List.{lookup}
use tunnel_proxy.Common.{
  ℕ, ◌+◌, ◌-◌, ◌^◌, min, Bool, true, false, not, Option, none, some, List, [], ◌∷◌, ltb,
  if◌then◌else◌, ite, length, ℕ_discrete, ◌==◌,
}
use tunnel_proxy.Common.Results.{Result, ok, err}
use tunnel_proxy.Common.Dict.{insert, remove}
use tunnel_proxy.Codes.Sequence.{TransportSessionId, session_id_new}
use tunnel_proxy.Multiplex.Errors as Errors
use tunnel_proxy.Multiplex.Errors.{RouteError}
use tunnel_proxy.Multiplex.Session.Model.{Sender, TrySend, sent, full, closed}

pub data AuthorizationSourceStatus : Type 0 where
  static_source live stale : AuthorizationSourceStatus

pub record EdgeAuthorizationStatus : Type 0 where
  pub version : Option ℕ
  pub source : AuthorizationSourceStatus
  pub revoked_sessions : ℕ

pub record LiveSession (Principal : Type 0) : Type 0 where
  pub commands : Sender
  pub authorization : Principal

-- The maps under the gate, the active claims, the counter of session identifiers, and what the
-- watch channels hold.
pub record EdgeRegistry (Principal TunnelId : Type 0) : Type 0 where
  pub sessions : List (TransportSessionId × LiveSession Principal)
  pub tunnels : List (TunnelId × TransportSessionId)
  pub claims : List (TunnelId × Unit {0})
  pub counter : ℕ
  pub authorization_status : EdgeAuthorizationStatus
  pub session_updates : List TransportSessionId
  pub tunnel_updates : List (TunnelId × TransportSessionId)
  pub accepting_streams : Bool

-- `fetch_update` with `checked_add(1)`, then `new` on the value that was stored.
unfoldable pub next_id :
    {P T : Type 0} → EdgeRegistry P T → Option TransportSessionId × EdgeRegistry P T
next_id r =
    if ltb r.counter (2 ^ 64 - 1)
    then (session_id_new (r.counter + 1), record r { counter = r.counter + 1 })
    else (none, r)

unfoldable pub keys : {A : Type 0} → List (TransportSessionId × A) → List TransportSessionId
keys [] = []
keys ((id, a) ∷ m) = id ∷ keys m

unfoldable pub contains : TransportSessionId → List TransportSessionId → Bool
contains id [] = false
contains id (j ∷ ids) = let rest = contains id ids in ite (ℕ_discrete id j) true rest

-- `retain(|_, session_id| !revoked_ids.contains(session_id))`
unfoldable pub retain_bindings :
    {T : Type 0}
    → List TransportSessionId
    → List (T × TransportSessionId)
    → List (T × TransportSessionId)
retain_bindings ids [] = []
retain_bindings ids ((tunnel, id) ∷ m) =
    let rest = retain_bindings ids m in if contains id ids then rest else (tunnel, id) ∷ rest

unfoldable pub remove_all :
    {A : Type 0}
    → List TransportSessionId
    → List (TransportSessionId × A)
    → List (TransportSessionId × A)
remove_all [] m = m
remove_all (id ∷ ids) m = remove_all ids (remove ℕ_discrete id m)

-- The sessions that the new snapshot does not authorize.
unfoldable pub revoked_ids :
    {P : Type 0} → (P → Bool) → List (TransportSessionId × LiveSession P) → List TransportSessionId
revoked_ids authorized [] = []
revoked_ids authorized ((id, session) ∷ m) =
    let rest = revoked_ids authorized m in
    if not (authorized session.authorization) then id ∷ rest else rest

-- A `u64` that saturates.
abbrev pub add_revoked : ℕ → ℕ → ℕ
add_revoked total n = min (total + n) (2 ^ 64 - 1)

-- `try_send` of the command, by its answer.
unfoldable pub queued :
    {T : Type 0} → TransportSessionId → Sender → TrySend → Result (RouteError T) Sender
queued id sender sent = ok sender
queued id sender full = err (Errors.RouteError.session_busy id)
queued id sender closed = err (Errors.RouteError.session_closing id)

unfoldable pub remove_binding :
    {T : Type 0}
    → Discrete T
    → TransportSessionId
    → T
    → List (T × ℕ)
    → Option TransportSessionId
    → List (T × ℕ)
remove_binding tunnel_dec id tunnel tunnels none = tunnels
remove_binding tunnel_dec id tunnel tunnels (some bound) =
    if bound == id then remove tunnel_dec tunnel tunnels else tunnels

module _ {P T : Type 0} where
  unfoldable pub enqueue_to :
      (Sender → TrySend)
      → TransportSessionId
      → Option (LiveSession P)
      → Result (RouteError T) Sender
  unfolding queued
  enqueue_to try_send id none = err (Errors.RouteError.session_not_found id)
  enqueue_to try_send id (some session) = queued id session.commands (try_send session.commands)

  -- The queue that the command to open a stream was put in.
  unfoldable pub enqueue_io :
      (Sender → TrySend) → TransportSessionId → EdgeRegistry P T → Result (RouteError T) Sender
  unfolding enqueue_to
  enqueue_io try_send id r =
      if not r.accepting_streams
      then err Errors.RouteError.runtime_draining
      else enqueue_to try_send id (lookup ℕ_discrete id r.sessions)

  unfoldable pub open_resolved :
      (Sender → TrySend)
      → T
      → Option TransportSessionId
      → EdgeRegistry P T
      → Result (RouteError T) Sender
  unfolding enqueue_io
  open_resolved try_send tunnel none r = err (Errors.RouteError.tunnel_not_connected tunnel)
  open_resolved try_send tunnel (some id) r = enqueue_io try_send id r

module _ {P T : Type 0} (tunnel_dec : Discrete T) where
  -- `insert` says whether the tunnel was not there.
  unfoldable pub claim_unless :
      T → EdgeRegistry P T → Option (Unit {0}) → Option T × EdgeRegistry P T
  claim_unless tunnel r (some u) = (none, r)
  claim_unless tunnel r none =
      (some tunnel, record r { claims = insert tunnel_dec tunnel tt r.claims })

  unfoldable pub claim : T → EdgeRegistry P T → Option T × EdgeRegistry P T
  unfolding claim_unless
  claim tunnel r = claim_unless tunnel r (lookup tunnel_dec tunnel r.claims)

  -- The `Drop` of a claim.
  unfoldable pub drop_claim : T → EdgeRegistry P T → EdgeRegistry P T
  drop_claim tunnel r = record r { claims = remove tunnel_dec tunnel r.claims }

  unfoldable pub resolve_tunnel : T → EdgeRegistry P T → Option TransportSessionId
  resolve_tunnel tunnel r = lookup tunnel_dec tunnel r.tunnels

  -- `open_tunnel_io_tracked`, up to the answer of the session.
  unfoldable pub open_tunnel_io :
      (Sender → TrySend) → T → EdgeRegistry P T → Result (RouteError T) Sender
  unfolding resolve_tunnel open_resolved
  open_tunnel_io try_send tunnel r = open_resolved try_send tunnel (resolve_tunnel tunnel r) r

module _ {P T : Type 0} (tunnel_dec : Discrete T) (sort_ids : List ℕ → List ℕ)
    (sort_bindings : List (T × ℕ) → List (T × ℕ)) where
  -- The part of `run_accepted_session` before its session runs; whether it is published.
  unfoldable pub publish_session :
      Bool → TransportSessionId → T → LiveSession P → EdgeRegistry P T → Bool × EdgeRegistry P T
  publish_session reauthorized id tunnel session r =
      let sessions = insert ℕ_discrete id session r.sessions in
      let tunnels = insert tunnel_dec tunnel id r.tunnels in
      if not reauthorized then (false, r) else (
        true,
        record r {
          sessions = sessions;
          session_updates = sort_ids (keys sessions);
          tunnels = tunnels;
          tunnel_updates = sort_bindings tunnels;
        },
      )

  -- The part after it.
  unfoldable pub remove_session : TransportSessionId → T → EdgeRegistry P T → EdgeRegistry P T
  unfolding remove_binding
  remove_session id tunnel r =
      let tunnels =
        remove_binding tunnel_dec id tunnel r.tunnels (lookup tunnel_dec tunnel r.tunnels) in
      let sessions = remove ℕ_discrete id r.sessions in
      record r {
        tunnels = tunnels;
        tunnel_updates = sort_bindings tunnels;
        sessions = sessions;
        session_updates = sort_ids (keys sessions);
      }

  unfoldable pub revoke : List TransportSessionId → EdgeRegistry P T → EdgeRegistry P T
  revoke [] r = r
  revoke (id ∷ ids) r =
      let tunnels = retain_bindings (id ∷ ids) r.tunnels in
      let sessions = remove_all (id ∷ ids) r.sessions in
      record r {
        tunnels = tunnels;
        tunnel_updates = sort_bindings tunnels;
        sessions = sessions;
        session_updates = sort_ids (keys sessions);
      }

  unfoldable pub reconcile :
      (P → Bool) → ℕ → AuthorizationSourceStatus → EdgeRegistry P T → EdgeRegistry P T
  unfolding revoke
  reconcile authorized version source r =
      let ids = revoked_ids authorized r.sessions in
      record (revoke ids r) {
        authorization_status = record {
          version = some version;
          source = source;
          revoked_sessions = add_revoked r.authorization_status.revoked_sessions (length ids);
        };
      }

  -- After the loop of the runtime.
  unfoldable pub clear : EdgeRegistry P T → EdgeRegistry P T
  clear r = record r {
    sessions = [];
    tunnels = [];
    session_updates = [];
    tunnel_updates = [];
    accepting_streams = false;
  }

  unfoldable pub connected_session_ids : EdgeRegistry P T → List TransportSessionId
  connected_session_ids r = sort_ids (keys r.sessions)

  unfoldable pub connected_tunnels : EdgeRegistry P T → List (T × TransportSessionId)
  connected_tunnels r = sort_bindings r.tunnels

unfoldable pub mark_snapshot_source_stale : {P T : Type 0} → EdgeRegistry P T → EdgeRegistry P T
mark_snapshot_source_stale r = record r {
  authorization_status = record r.authorization_status { source = stale };
}
