-- ===== src/Protocol/Wire.antt =====
-- The constants of crates/protocol/src/wire.rs.
use tunnel_proxy.Common.{ℕ, ◌*◌, List, [], ◌∷◌}

-- The four bytes "TPX1".
abbrev pub magic : List ℕ
magic = 0x54 ∷ 0x50 ∷ 0x58 ∷ 0x31 ∷ []

abbrev pub header_size : ℕ
header_size = 16

abbrev pub protocol_version : ℕ
protocol_version = 2

abbrev pub version : ℕ
version = protocol_version

abbrev pub max_frame_payload : ℕ
max_frame_payload = 64 * 1024
