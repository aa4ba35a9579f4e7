-- ===== src/Protocol/RoundTrip.antt =====
-- A frame that `FrameEncoder::encode` writes is the frame that `FrameDecoder::decode` reads.
use mathlib.Core.List.{append_assoc}
use tunnel_proxy.Common.{
  ℕ, ◌+◌, ◌≡◌, refl, sym, ap, ◌∙◌, ◌⊎◌, inl, inr, some, List, ◌++◌, arith, length, length-append,
}
use tunnel_proxy.Common.Results.{Result, ok, err, Result-cases}
use tunnel_proxy.Common.Bytes.{IsU32, u32_round_trip}
use tunnel_proxy.Protocol.Wire.{header_size}
use tunnel_proxy.Protocol.FrameType.{from_raw-as_u8}
use tunnel_proxy.Protocol.Errors.{IoError, ProtocolError, io}
use tunnel_proxy.Protocol.Frame.{Frame, IsValid, new-ok}
use tunnel_proxy.Protocol.Header.{parse_header}
use tunnel_proxy.Protocol.Encoder.{
  header, encode, encode-ok, validate_frame, validate_frame-ok, validate_frame-IsValid,
  encode-refused,
}
use tunnel_proxy.Protocol.Resume.{resume, resume-Decodes}
use tunnel_proxy.Protocol.Decoder.Refinement as Decoder
use tunnel_proxy.Protocol.Decoder.Refinement.{held, Decodes}
use tunnel_proxy.Protocol.Decoder.Filling.{IsStream, Reported}
use tunnel_proxy.Protocol.Decoder.{
  ReadOutcome, FrameDecoder, DecodeOutcome, done, cancelled, no_fuel, finish,
}
use tunnel_proxy.Protocol.Decoder.Parse.{Parsed, parse, parse-announced, parse_payload-full}

abbrev pub frame_bytes : Frame → List ℕ
frame_bytes f = header f (length f.payload) ++ f.payload

length-header : (f : Frame) (len : ℕ) → length (header f len) ≡ header_size
unfolding header
length-header f len = refl

length-frame_bytes : (f : Frame) → length (frame_bytes f) ≡ header_size + length f.payload
length-frame_bytes f =
    length-append (header f (length f.payload)) f.payload
    ∙ ap (λ n. n + length f.payload) (length-header f (length f.payload))

parse_header-header :
    (f : Frame)
    → IsValid f
    → IsU32 f.stream_id
    → parse_header (header f (length f.payload))
      ≡ ok (record {
        frame_type = f.frame_type;
        flags = f.flags;
        stream_id = f.stream_id;
        payload_len = length f.payload;
      })
unfolding parse_header header
parse_header-header f v u =
    rw from_raw-as_u8 (
      ground (arith, u32_round_trip f.stream_id u, u32_round_trip (length f.payload) (omega arith)))

finish-ok :
    (f : Frame) → IsValid f → finish f.frame_type f.flags f.stream_id f.payload ≡ ok (some f)
unfolding finish
finish-ok f v = rw (new-ok f.frame_type f.flags f.stream_id f.payload v) refl

-- The bytes of a frame that passes the checks parse to that frame, whatever follows them.
pub parse-frame_bytes :
    (f : Frame) (rest : List ℕ)
    → IsValid f
    → IsU32 f.stream_id
    → parse (frame_bytes f ++ rest) ≡ (ok (some f), rest)
parse-frame_bytes f rest v u = rw (append_assoc (header f (length f.payload)) f.payload rest) (
    parse-announced (header f (length f.payload)) (f.payload ++ rest) _ (length-header f _)
      (parse_header-header f v u)
    ∙ parse_payload-full _ f.payload rest refl
    ∙ rw (finish-ok f v) refl)

module _ {W : Type 0} (written : W → List ℕ) where
  -- A writer that takes every byte and never fails, such as a `Vec<u8>`.
  abbrev pub IsReliable : (W → List ℕ → W × Result IoError (Unit {0})) → Type 0
  IsReliable write_all =
      (w : W) (bs : List ℕ)
      → (w' : W) × (write_all w bs ≡ (w', ok tt)) × (written w' ≡ written w ++ bs)

  -- The bytes of a valid frame are appended.
  encode-frame_bytes :
      (write_all : W → List ℕ → W × Result IoError (Unit {0}))
      → IsReliable write_all
      → (f : Frame) (w : W) → IsValid f
      → (w' : W) × (encode write_all f w ≡ (w', ok (header_size + length f.payload)))
        × (written w' ≡ written w ++ frame_bytes f)
  encode-frame_bytes write_all reliable f w v =
      let (w₁, ran, bytes) = reliable w (header f (length f.payload)) in
      let (w₂, ran', bytes') = reliable w₁ f.payload in
      (
        w₂,
        encode-ok write_all f w w₁ w₂ v ran ran',
        bytes'
            ∙ ap (λ t. t ++ f.payload) bytes
            ∙ append_assoc (written w) (header f (length f.payload)) f.payload,
      )

  -- How `encode` ends on a reliable writer.
  pub data Encodes (f : Frame) (w : W) (end : W × Result ProtocolError ℕ) : Type 0 where
    wrote :
        (w' : W) (bs : List ℕ)
        → IsValid f
        → end ≡ (w', ok (length bs))
        → written w' ≡ written w ++ bs
        → ((rest : List ℕ) → parse (bs ++ rest) ≡ (ok (some f), rest))
        → Encodes f w end
    refused : (e : ProtocolError) → ¬ IsValid f → end ≡ (w, err e) → Encodes f w end

  -- On a reliable writer `encode` accepts exactly the valid frames. For such a frame it appends some
  -- bytes and returns their number, and `parse` reads these bytes, with any others behind them, as
  -- that very frame and leaves the others. For any other frame it fails and writes nothing.
  pub encode-Encodes :
      (write_all : W → List ℕ → W × Result IoError (Unit {0}))
      → IsReliable write_all
      → (f : Frame) (w : W) → IsU32 f.stream_id
      → Encodes f w (encode write_all f w)
  encode-Encodes write_all reliable f w u = elim (Result-cases (validate_frame f)) [
    | inr (e, bad) ↦
        refused e (λ v. let fine = validate_frame-ok f v in cc (fine, bad))
          (encode-refused write_all f w e bad)
    | inl (_, fine) ↦
        let v = validate_frame-IsValid f fine in
        let (w', ran, bytes) = encode-frame_bytes write_all reliable f w v in
        wrote w' (frame_bytes f) v (ran ∙ ap (λ n. (w', ok n)) (sym (length-frame_bytes f))) bytes
          (λ rest. parse-frame_bytes f rest v u)
  ]

module _ {R : Type 0} (contents : R → List ℕ) (read : R → ℕ → ReadOutcome × R) where
  -- How a call of `decode` may end on a stream that starts with the bytes of `f`.
  abbrev pub Yields : Frame → List ℕ → DecodeOutcome × FrameDecoder × R → Type 0
  Yields f rest (done result, d, r) =
      (((e : IoError) × (result ≡ err (io e)) × Reported contents read e r))
      ⊎ ((result ≡ ok (some f)) × (contents r ≡ rest))
  Yields f rest (cancelled, d, r) = held d ++ contents r ≡ frame_bytes f ++ rest
  Yields f rest (no_fuel, d, r) = ⊥

  yields :
      (f : Frame) (rest all : List ℕ) (end : DecodeOutcome × FrameDecoder × R)
      → IsValid f
      → IsU32 f.stream_id
      → all ≡ frame_bytes f ++ rest
      → Decodes contents read all end
      → Yields f rest end
  yields f rest all (done result, d, r) v u e (_, _, inl failure) = inl failure
  yields f rest all (done result, d, r) v u e (_, _, inr parsed) =
      let same : ◌≡◌ {A = Parsed} (ok (some f), rest) (result, contents r) =
        sym (parse-frame_bytes f rest v u) ∙ ap parse (sym e) ∙ parsed in
      inr (sym (ap (λ p. p.0) same), sym (ap (λ p. p.1) same))
  yields f rest all (cancelled, d, r) v u e h = sym h.1 ∙ e
  yields f rest all (no_fuel, d, r) v u e h = h

  -- If what a valid decoder holds and what its stream still delivers are the bytes of a valid frame
  -- and more, then `decode`, called again after any number of dropped futures, returns that frame
  -- and leaves what follows, unless a read reports an I/O error or the last future is dropped too.
  pub resume-frame_bytes :
      (n : ℕ) (d : FrameDecoder) (r : R) (f : Frame) (rest : List ℕ)
      → IsStream contents read
      → Decoder.IsValid d
      → IsValid f
      → IsU32 f.stream_id
      → held d ++ contents r ≡ frame_bytes f ++ rest
      → Yields f rest (resume read n d r)
  resume-frame_bytes n d r f rest stream ready v u e =
      yields f rest _ _ v u e (resume-Decodes contents read stream n d r ready)
