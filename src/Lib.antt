-- ===== src/Lib.antt =====
-- TunnelProxy: the frame codec spoken between edge and agent, the fair queue that schedules what
-- they send, the sessions and streams that the edge multiplexes over it, and the admission and
-- authorization that the edge applies to clients and agents.
--
-- How the parts interact: an agent and an edge exchange frames over an authenticated connection
-- (crates/protocol). What both want to send goes through a bounded fair queue
-- (crates/common/src/bounded_fair_queue.rs). An agent that connects is
-- led through a handshake (crates/edge/src/agent_transport.rs), in which a registration policy
-- (crates/edge/src/tls.rs) decides about it. Its session is then published in a registry, which
-- finds the session of a tunnel and drops the sessions that a new snapshot no longer authorizes. A
-- session multiplexes streams: one task handles its frames, one task writes what its fair queue
-- gives it, and one task for each stream relays between a client and the session
-- (crates/edge/src/multiplex.rs). The edge admits connections by source address
-- (crates/edge/src/admission.rs), limits the rate of HTTP requests
-- (crates/edge/src/http_rate_limit.rs), keeps a bounded history of them
-- (crates/edge/src/request_history.rs), and authorizes agents against a snapshot of grants that the
-- control plane publishes (crates/control-plane/src/lib.rs).
--
-- The files:
--   Common        shared names; Results (Result, do blocks), Bytes (big-endian words), Dict (maps as
--                 association lists with distinct keys), Order (places in a list of keys), Collect
--                 (a list loaded into a map).
--   Protocol      crates/protocol/src: Wire (wire.rs), FrameType and Frame (frame.rs), Errors
--                 (error.rs), Encoder, Header and Decoder (codec.rs). Decoder/Filling is about the
--                 two read loops, Decoder/Parse states the result independently, as one parse of a
--                 whole stream, Decoder/Refinement and Resume relate the two, RoundTrip relates
--                 the encoder and the decoder.
--   FairQueue     `BoundedFairQueue`: Model, and its invariant, order and fairness (Room is about
--                 what pushes and pops leave free).
--   Multiplex     crates/edge/src/multiplex.rs: its Errors and Frames, and in turns of their loops
--                 `run_edge_session` (Session), `run_ingress_stream` (Ingress) and `writer_actor`
--                 (Writer).
--   EdgeRegistry  who may register, crates/edge/src/tls.rs (Policy); the shared maps of sessions
--                 and tunnels of crates/edge/src/multiplex.rs and the claims of
--                 crates/edge/src/agent_transport.rs (Model), as a system of the steps of all
--                 sessions (System).
--   EdgeHandshake  `perform_authorized_handshake` of crates/edge/src/agent_transport.rs.
--   EdgeConfig    the checks of configurations in crates/edge/src/agent_transport.rs
--                 (AgentListener), multiplex.rs (Multiplexed) and lib.rs (Relay).
--   EdgeForwarder  `Forwarder` of crates/edge/src/lib.rs: its construction, and its connections with
--                 the permits that they hold (Model); Bounds, Limits and Admissions are about these.
--   RateLimit     `TokenBucket` (Bucket), `HttpRequestRateLimitConfig` (Config),
--                 `HttpRequestRateLimiter` (Limiter), its table of addresses (Table) and the rate it
--                 enforces (Rate).
--   PeerAdmission `PeerAdmission` (Model) and the permits it hands out (Permits).
--   Authorization crates/control-plane/src/lib.rs: `AuthorizationSnapshot` (Snapshot), its loops
--                 (Loading) and its answers (Grants), `AuthorizationSnapshotPublisher` and its
--                 subscriptions (Publisher) and what a run of publications does (Versions).
--   RequestHistory  crates/edge/src/request_history.rs: Model, its Invariant, the cut of long paths
--                 (Paths) and what is shown (Snapshots).
--   Registration  the REGISTER payload of crates/protocol/src/handshake.rs (Payload, RoundTrip) and
--                 the identifiers of crates/common/src/lib.rs (DurableId).
--   Codes         the codes of crates/protocol/src/stream.rs and handshake.rs (StreamReset,
--                 Handshake, Heartbeat, HelloRole) and the numbers of heartbeats and sessions
--                 (Sequence).
--   PublicHostname  crates/common/src/public_hostname.rs: Model, and the canonical form of a name
--                 (Canonical, Names).
-- The tests of each part, with its theorems at concrete inputs, are in its module Tests.
--
-- How the code is modelled. A method on `&mut self`, or on a value behind a mutex, takes the state
-- and returns the next one; the mutex makes each call one step. Integers are natural numbers. Where
-- the source saturates, the bound is written out; where it relies on a range (the 16 bytes of a
-- header, a `usize` counter below its limit) the range is an invariant or a hypothesis. Byte strings
-- are lists of numbers below 256. A `HashMap` is an association list with distinct keys, a `VecDeque`
-- a list with its front first. An `expect` that could fail is an outcome `panicked`.
--
-- What the source gets from elsewhere is a parameter: the `AsyncRead` of the decoder, with the
-- contract that a read takes the next bytes and none are lost while it is pending; the `AsyncWrite` of
-- the encoder; the `watch` channel, which holds the value sent last; `is_char_boundary`, `from_utf8`
-- and the parsing of an `IpAddr`; the equality of keys, addresses, certificates and snapshots; the
-- semaphore of the runtime, a record of operations and what its documentation promises of them;
-- sorting, which gives a list with the same members; the clock, whose instants are arguments. Of a
-- loop over `select!` each turn is told which branch was chosen and what it yielded: what a bounded
-- channel or the socket returned, what the encoder or decoder answered, which timer fired. The
-- theorems on such a loop hold for every sequence of turns.
-- A read may also report that it is pending and the future is dropped: this is how a losing branch
-- of `select!` cancels `decode`.
--
-- Fuel: only the read loops of the decoder run on fuel. Each round reads a byte, so the number of
-- missing bytes is enough, and the loop is proved not to run out of it. The other loops recurse on
-- the list or the number that they walk down.
--
-- Not modelled: the asynchronous runtimes, the accept loops and the start and stop of the services of
-- agent, edge and control plane; TLS and certificates; the agent's side of a session; the SQLite
-- repositories; the HTTP ingress; the operations endpoints; the command lines; logging; and the
-- formatting of error messages. `debug_assert` has no effect.
pub mod Common
pub mod Protocol
pub mod FairQueue
pub mod RateLimit
pub mod PeerAdmission
pub mod Authorization
pub mod RequestHistory
pub mod Registration
pub mod Codes
pub mod PublicHostname
pub mod Multiplex
pub mod EdgeRegistry
pub mod EdgeConfig
pub mod EdgeForwarder
pub mod EdgeHandshake
