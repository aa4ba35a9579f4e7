-- ===== src/Protocol/Decoder.antt =====
-- `FrameDecoder` of crates/protocol/src/codec.rs.
-- The `AsyncRead` that it reads from is a parameter: a state, and `read` into a buffer of a given
-- size. `suspended` is a read that is still pending when the future is dropped.
pub mod Filling
pub mod Parse
pub mod Refinement
use tunnel_proxy.Common.{
  ℕ, zero, suc, ◌+◌, ◌-◌, Option, none, some, List, [], ◌∷◌, ◌++◌, ltb, ◌==◌, if◌then◌else◌, length,
  take, drop, replicate,
}
use tunnel_proxy.Common.Results.{Result, ok, err}
use tunnel_proxy.Protocol.Wire.{header_size}
use tunnel_proxy.Protocol.FrameType.{FrameType, StreamId}
use tunnel_proxy.Protocol.Errors.{IoError, ProtocolError, io, truncated_header, truncated_payload}
use tunnel_proxy.Protocol.Frame.{Frame, new}
use tunnel_proxy.Protocol.Header.{Announced, parse_header}

pub data ReadOutcome : Type 0 where
  got : List ℕ → ReadOutcome
  failed : IoError → ReadOutcome
  suspended : ReadOutcome

pub record PendingFrame : Type 0 where
  pub frame_type : FrameType
  pub flags : ℕ
  pub stream_id : StreamId
  pub payload : List ℕ
  pub payload_offset : ℕ

pub record FrameDecoder : Type 0 where
  pub header : List ℕ
  pub header_offset : ℕ
  pub pending : Option PendingFrame

unfoldable pub decoder_new : FrameDecoder
decoder_new = record { header = replicate header_size 0; header_offset = 0; pending = none }

abbrev pub reset : FrameDecoder → FrameDecoder
reset d = record d { header_offset = 0; pending = none }

-- How a loop `while offset < buf.len() { read(&mut buf[offset..]) }` ends, with the buffer.
pub data Fill : Type 0 where
  filled : List ℕ → Fill
  ended : List ℕ → ℕ → Fill
  broken : List ℕ → IoError → Fill
  cut_off : List ℕ → ℕ → Fill
  out_of_rounds : Fill

pub data DecodeOutcome : Type 0 where
  done : Result ProtocolError (Option Frame) → DecodeOutcome
  cancelled : DecodeOutcome
  no_fuel : DecodeOutcome

-- `bs` written over `buf` from `offset` on.
unfoldable pub store : List ℕ → ℕ → List ℕ → List ℕ
store buf offset bs = take offset buf ++ bs ++ drop (offset + length bs) buf

abbrev pub start : Announced → PendingFrame
start a = record {
  frame_type = a.frame_type;
  flags = a.flags;
  stream_id = a.stream_id;
  payload = replicate a.payload_len 0;
  payload_offset = 0;
}

map_some : Result ProtocolError Frame → Result ProtocolError (Option Frame)
map_some (ok f) = ok (some f)
map_some (err e) = err e

-- `Frame::new(..).map(Some)`
unfoldable pub finish : FrameType → ℕ → StreamId → List ℕ → Result ProtocolError (Option Frame)
unfolding map_some
finish t flags id payload = map_some (new t flags id payload)

unfoldable pub end_of_header : ℕ → FrameDecoder → DecodeOutcome × FrameDecoder
end_of_header got_bytes d =
    if got_bytes == 0
    then (done (ok none), d)
    else (done (err (truncated_header got_bytes)), reset d)

module _ {R : Type 0} (read : R → ℕ → ReadOutcome × R) where
  unfoldable pub on_read : List ℕ → ℕ → (List ℕ → ℕ → R → Fill × R) → ReadOutcome × R → Fill × R
  on_read buf offset continue (failed e, r) = (broken buf e, r)
  on_read buf offset continue (suspended, r) = (cut_off buf offset, r)
  on_read buf offset continue (got [], r) = (ended buf offset, r)
  on_read buf offset continue (got (b ∷ bs), r) =
      continue (store buf offset (b ∷ bs)) (offset + length (b ∷ bs)) r

  -- Every round that goes on reads a byte, so `length buf - offset` rounds are enough.
  unfoldable pub fill : ℕ → List ℕ → ℕ → R → Fill × R
  fill zero buf offset r = if ltb offset (length buf) then (out_of_rounds, r) else (filled buf, r)
  fill (suc n) buf offset r =
      let more = on_read buf offset (fill n) (read r (length buf - offset)) in
      if ltb offset (length buf) then more else (filled buf, r)

  unfoldable pub end_payload :
      FrameDecoder → PendingFrame → Fill × R → DecodeOutcome × FrameDecoder × R
  end_payload d p (filled buf, r) =
      (done (finish p.frame_type p.flags p.stream_id buf), record d { pending = none }, r)
  end_payload d p (ended buf offset, r) =
      (done (err (truncated_payload offset (length buf))), reset d, r)
  end_payload d p (broken buf e, r) = (done (err (io e)), reset d, r)
  end_payload d p (cut_off buf offset, r) = (
    cancelled,
    record d { pending = some (record p { payload = buf; payload_offset = offset }) },
    r,
  )
  end_payload d p (out_of_rounds, r) = (no_fuel, d, r)

  -- The second loop, and the frame.
  unfoldable pub read_payload : FrameDecoder → PendingFrame → R → DecodeOutcome × FrameDecoder × R
  read_payload d p r =
      end_payload d p (fill (length p.payload - p.payload_offset) p.payload p.payload_offset r)

  unfoldable pub begin_payload :
      FrameDecoder → Result ProtocolError Announced → R → DecodeOutcome × FrameDecoder × R
  begin_payload d (err e) r = (done (err e), reset d, r)
  begin_payload d (ok a) r =
      read_payload (record d { header_offset = 0; pending = some (start a) }) (start a) r

  unfoldable pub end_header : FrameDecoder → Fill × R → DecodeOutcome × FrameDecoder × R
  end_header d (filled buf, r) =
      begin_payload (record d { header = buf; header_offset = length buf }) (parse_header buf) r
  end_header d (ended buf offset, r) =
      let (o, d') = end_of_header offset (record d { header = buf; header_offset = offset }) in
      (o, d', r)
  end_header d (broken buf e, r) = (done (err (io e)), reset (record d { header = buf }), r)
  end_header d (cut_off buf offset, r) =
      (cancelled, record d { header = buf; header_offset = offset }, r)
  end_header d (out_of_rounds, r) = (no_fuel, d, r)

  unfoldable pub decode_from :
      Option PendingFrame → FrameDecoder → R → DecodeOutcome × FrameDecoder × R
  decode_from none d r =
      end_header d (fill (length d.header - d.header_offset) d.header d.header_offset r)
  decode_from (some p) d r = read_payload d p r

  unfoldable pub decode : FrameDecoder → R → DecodeOutcome × FrameDecoder × R
  unfolding decode_from
  decode d r = decode_from d.pending d r
