-- ===== src/EdgeConfig/Tests.antt =====
-- The smallest configuration of the edge, with its addresses as Booleans that say whether they are
-- loopback addresses.
use tunnel_proxy.Common.{ℕ, Bool, true, ◌≡◌, ◌↔◌, []}
use tunnel_proxy.Common.Results.{ok}
use tunnel_proxy.EdgeRegistry.Policy.{loopback_development}
use tunnel_proxy.EdgeConfig.Multiplexed.{
  MultiplexedEdgeConfig, plaintext_loopback, validate, IsServable, validate_iff,
}

abbrev smallest : MultiplexedEdgeConfig Bool ℕ ℕ ℕ ℕ
smallest = record {
  agent_listener = record {
    listen_addr = true;
    max_agent_sessions = 1;
    handshake_timeout = 1;
    heartbeat_interval = 1;
    pong_timeout = 1;
  };
  security = plaintext_loopback;
  registration = loopback_development [];
  max_streams_per_session = 1;
  session_command_capacity = 1;
  per_stream_queue_capacity = 1;
  control_queue_capacity = 1;
  data_queue_capacity = 1;
  stream_open_timeout = 1;
  stream_idle_timeout = 1;
}

abbrev is_true : Bool → Bool
is_true b = b

validate_iff_example : (validate is_true smallest ≡ ok tt) ↔ IsServable is_true smallest
validate_iff_example = validate_iff is_true smallest
