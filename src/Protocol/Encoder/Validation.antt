-- ===== src/Protocol/Encoder/Validation.antt =====
-- `FrameEncoder::validate_frame` of crates/protocol/src/codec.rs.
use tunnel_proxy.Common.{◌≡◌, not, arith, ◌==◌, length, inl, inr}
use tunnel_proxy.Common.Results.{Result, ok, ◌>>◌, reject_if, Result-cases}
use tunnel_proxy.Protocol.Errors.{ProtocolError, unsupported_flags}
use tunnel_proxy.Protocol.Frame.{
  Frame, IsValid, check_payload_size, check_payload_size-ok, validate_scope, validate_scope-ok,
  check_payload_size-le, validate_scope-FitsScope,
}

unfoldable pub validate_frame : Frame → Result ProtocolError (Unit {0})
validate_frame f = do
  check_payload_size (length f.payload)
  reject_if (not (f.flags == 0)) (unsupported_flags f.flags)
  validate_scope f.frame_type f.stream_id

pub validate_frame-ok : (f : Frame) → IsValid f → validate_frame f ≡ ok tt
unfolding validate_frame
validate_frame-ok f v = ground (
  arith,
  check_payload_size-ok (length f.payload) v.bounded,
  validate_scope-ok f.frame_type f.stream_id v.in_scope,
)

pub validate_frame-IsValid : (f : Frame) → validate_frame f ≡ ok tt → IsValid f
unfolding validate_frame
validate_frame-IsValid f h = elim (Result-cases (check_payload_size (length f.payload))) [
  | inr (e, p) ↦ absurd (ground arith)
  | inl (u, p) ↦ elim (Result-cases (validate_scope f.frame_type f.stream_id)) [
    | inr (e, q) ↦ absurd (ground arith)
    | inl (v, q) ↦ record {
      no_flags = ground arith;
      bounded = check_payload_size-le (length f.payload) u p;
      in_scope = validate_scope-FitsScope f.frame_type f.stream_id v q;
    }
  ]
]
