-- ===== src/Protocol/Header.antt =====
-- The header checks of `FrameDecoder::decode`, crates/protocol/src/codec.rs.
use tunnel_proxy.Common.{
  ℕ, zero, suc, Bool, true, false, not, ◌&&◌, Option, none, some, List, [], ◌∷◌, ltb, ◌==◌,
}
use tunnel_proxy.Common.Results.{Result, ok, err, ◌>>=◌, ◌>>◌, reject_if}
use tunnel_proxy.Common.Bytes.{u16_from_be_bytes, u32_from_be_bytes}
use tunnel_proxy.Protocol.Wire.{magic, version, max_frame_payload}
use tunnel_proxy.Protocol.FrameType.{FrameType, StreamId, from_raw}
use tunnel_proxy.Protocol.Errors.{
  ProtocolError, invalid_magic, unsupported_version, unknown_frame_type, unsupported_flags,
  frame_too_large,
}

-- What a header announces: the fields of `PendingFrame` before any payload byte.
pub record Announced : Type 0 where
  pub frame_type : FrameType
  pub flags : ℕ
  pub stream_id : StreamId
  pub payload_len : ℕ

-- `header[i]`; the array has 16 entries and every index below is smaller.
abbrev pub at : List ℕ → ℕ → ℕ
at [] i = 0
at (b ∷ bs) zero = b
at (b ∷ bs) (suc i) = at bs i

abbrev pub bytes_eq : List ℕ → List ℕ → Bool
bytes_eq [] [] = true
bytes_eq (a ∷ as') (b ∷ bs) = a == b && bytes_eq as' bs
bytes_eq _ _ = false

known_type : ℕ → Option FrameType → Result ProtocolError FrameType
known_type raw (some t) = ok t
known_type raw none = err (unknown_frame_type raw)

abbrev first_four : List ℕ → List ℕ
first_four h = at h 0 ∷ at h 1 ∷ at h 2 ∷ at h 3 ∷ []

unfoldable pub parse_header : List ℕ → Result ProtocolError Announced
unfolding known_type
parse_header h = do
  reject_if (not (bytes_eq (first_four h) magic)) (invalid_magic (first_four h))
  reject_if (not (at h 4 == version)) (unsupported_version (at h 4))
  t ← known_type (at h 5) (from_raw (at h 5))
  let flags = u16_from_be_bytes (at h 6) (at h 7)
  reject_if (not (flags == 0)) (unsupported_flags flags)
  let id = u32_from_be_bytes (at h 8) (at h 9) (at h 10) (at h 11)
  let len = u32_from_be_bytes (at h 12) (at h 13) (at h 14) (at h 15)
  reject_if (ltb max_frame_payload len) (frame_too_large len)
  ok (record { frame_type = t; flags = flags; stream_id = id; payload_len = len })
