-- ===== src/Codes/Tests.antt =====
-- Codes and sequence numbers at concrete bytes.
use tunnel_proxy.Common.{◌≡◌, refl, none}
use tunnel_proxy.Codes.Heartbeat
use tunnel_proxy.Codes.Sequence.{u64_max, checked_next}

no_code : Heartbeat.from_be_bytes 0 7 ≡ none
unfolding Heartbeat.from_be_bytes Heartbeat.from_code
no_code = refl

last : checked_next u64_max ≡ none
unfolding checked_next
last = refl
