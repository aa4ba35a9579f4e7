-- ===== src/Protocol/Frame.antt =====
-- `Frame` of crates/protocol/src/frame.rs: construction and its checks.
use tunnel_proxy.Common.{
  Bool, ℕ, ◌-◌, ◌^◌, ◌≤◌, ◌<◌, ◌≡◌, ◌↔◌, not, none, some, List, arith, ltb, ◌==◌, if◌then◌else◌,
  length, inl, inr,
}
use tunnel_proxy.Common.Results.{Result, ok, err, ◌>>◌, reject_if, Result-cases}
use tunnel_proxy.Common.Bytes.{u32_try_from}
use tunnel_proxy.Protocol.Wire.{max_frame_payload}
use tunnel_proxy.Protocol.FrameType.{
  FrameType, Scope, control, stream, scope, StreamId, control_id, is_control,
}
use tunnel_proxy.Protocol.Errors.{
  ProtocolError, unsupported_flags, encode_frame_too_large, invalid_stream_scope,
}

pub record Frame : Type 0 where
  pub frame_type : FrameType
  pub flags : ℕ
  pub stream_id : StreamId
  pub payload : List ℕ

scope_check : Scope → FrameType → StreamId → Result ProtocolError (Unit {0})
scope_check control t id =
    if not (is_control id) then err (invalid_stream_scope t "0 (control)" id) else ok tt
scope_check stream t id =
    if is_control id then err (invalid_stream_scope t "> 0 (stream)" id) else ok tt

unfoldable pub validate_scope : FrameType → StreamId → Result ProtocolError (Unit {0})
unfolding scope_check
validate_scope t id = scope_check (scope t) t id

-- `u32::try_from(len)` with its error, and the test against the maximum.
unfoldable pub check_payload_size : ℕ → Result ProtocolError (Unit {0})
check_payload_size n = elim (u32_try_from n) [
  | none ↦ err (encode_frame_too_large (2 ^ 32 - 1))
  | some len ↦ reject_if (ltb max_frame_payload len) (encode_frame_too_large len)
]

unfoldable pub new : FrameType → ℕ → StreamId → List ℕ → Result ProtocolError Frame
new t flags id payload = do
  reject_if (not (flags == 0)) (unsupported_flags flags)
  check_payload_size (length payload)
  validate_scope t id
  ok (record { frame_type = t; flags = flags; stream_id = id; payload = payload })

unfoldable pub control_frame : FrameType → List ℕ → Result ProtocolError Frame
unfolding new
control_frame t payload = new t 0 control_id payload

unfoldable pub stream_frame : StreamId → FrameType → List ℕ → Result ProtocolError Frame
unfolding new
stream_frame id t payload = new t 0 id payload

-- The identifier fits the scope of the type: zero for control frames, positive for stream frames.
abbrev pub FitsScope : Scope → StreamId → Type 0
FitsScope control id = id ≡ 0
FitsScope stream id = 0 < id

pub record IsValid (f : Frame) : Type 0 where
  pub no_flags : f.flags ≡ 0
  pub bounded : length f.payload ≤ max_frame_payload
  pub in_scope : FitsScope (scope f.frame_type) f.stream_id

scope_check-ok :
    (s : Scope) (t : FrameType) (id : StreamId) → FitsScope s id → scope_check s t id ≡ ok tt
unfolding scope_check
scope_check-ok control t id h = ground arith
scope_check-ok stream t id h = ground arith

scope_check-FitsScope :
    (s : Scope) (t : FrameType) (id : StreamId) (u : Unit {0})
    → scope_check s t id ≡ ok u
    → FitsScope s id
unfolding scope_check
scope_check-FitsScope control t id u h = ground arith
scope_check-FitsScope stream t id u h = ground arith

pub validate_scope-ok :
    (t : FrameType) (id : StreamId) → FitsScope (scope t) id → validate_scope t id ≡ ok tt
unfolding validate_scope
validate_scope-ok t id h = scope_check-ok (scope t) t id h

pub validate_scope-FitsScope :
    (t : FrameType) (id : StreamId) (u : Unit {0})
    → validate_scope t id ≡ ok u
    → FitsScope (scope t) id
unfolding validate_scope
validate_scope-FitsScope t id u h = scope_check-FitsScope (scope t) t id u h

pub check_payload_size-ok : (n : ℕ) → n ≤ max_frame_payload → check_payload_size n ≡ ok tt
unfolding check_payload_size
check_payload_size-ok n h = ground arith

pub new-ok :
    (t : FrameType) (flags : ℕ) (id : StreamId) (payload : List ℕ)
    → IsValid (record { frame_type = t; flags = flags; stream_id = id; payload = payload })
    → new t flags id payload
      ≡ ok (record { frame_type = t; flags = flags; stream_id = id; payload = payload })
unfolding new
new-ok t flags id payload v =
    ground
      (arith, check_payload_size-ok (length payload) v.bounded, validate_scope-ok t id v.in_scope)

pub check_payload_size-le :
    (n : ℕ) (u : Unit {0}) → check_payload_size n ≡ ok u → n ≤ max_frame_payload
unfolding check_payload_size
check_payload_size-le n u h = ground arith

new-IsValid : (f : Frame) → new f.frame_type f.flags f.stream_id f.payload ≡ ok f → IsValid f
unfolding new
new-IsValid f h = elim (Result-cases (check_payload_size (length f.payload))) [
  | inr (e, p) ↦ absurd (ground arith)
  | inl (u, p) ↦ elim (Result-cases (validate_scope f.frame_type f.stream_id)) [
    | inr (e, q) ↦ absurd (ground arith)
    | inl (v, q) ↦ record {
      no_flags = ground arith;
      bounded = check_payload_size-le (length f.payload) u p;
      in_scope = validate_scope-FitsScope f.frame_type f.stream_id v q;
    }
  ]
]

-- `new` accepts its arguments, and stores them as they are, exactly when there are no flags, the
-- payload is at most 64 KiB and the identifier fits the scope of the type.
pub new_iff : (f : Frame) → (new f.frame_type f.flags f.stream_id f.payload ≡ ok f) ↔ IsValid f
new_iff f = (new-IsValid f, new-ok f.frame_type f.flags f.stream_id f.payload)

abbrev pub frame_is_control : Frame → Bool
frame_is_control f = is_control f.stream_id

abbrev pub frame_is_stream : Frame → Bool
frame_is_stream f = not (is_control f.stream_id)
