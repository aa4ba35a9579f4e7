-- ===== src/Protocol/Tests.antt =====
-- Runs of the frame codec on concrete bytes, and its theorems at concrete inputs.
use mathlib.Core.List.{append_assoc}
use tunnel_proxy.Common.{
  ℕ, zero, suc, ◌≡◌, refl, sym, ap, ◌∙◌, List, [], ◌∷◌, ◌++◌, arith, take, drop, length-take,
  take-append-drop,
}
use tunnel_proxy.Common.Results.{Result, ok, err}
use tunnel_proxy.Protocol.Errors.{IoError, unsupported_version}
use tunnel_proxy.Protocol.FrameType.{data_frame, scope, from_raw, as_u8}
use tunnel_proxy.Protocol.Frame.{Frame, IsValid, check_payload_size, validate_scope, new}
use tunnel_proxy.Protocol.Header.{parse_header}
use tunnel_proxy.Protocol.Encoder.{header, validate_frame, or_too_large, write_bytes, encode}
use tunnel_proxy.Protocol.Decoder.{
  ReadOutcome, got, suspended, cancelled, decoder_new, store, finish, end_of_header, on_read, fill,
  end_payload, read_payload, begin_payload, end_header, decode,
}
use tunnel_proxy.Protocol.Decoder.Filling.{IsStream}
use tunnel_proxy.Protocol.Decoder.Parse.{parse, parse_rest, parse_payload}
use tunnel_proxy.Protocol.Decoder.Refinement.{Decodes, decoder_new-IsValid}
use tunnel_proxy.Protocol.Resume.{resume, resume-Decodes}
use tunnel_proxy.Protocol.RoundTrip.{
  frame_bytes, IsReliable, Encodes, encode-Encodes, Yields, resume-frame_bytes,
}

program : Unit {0}
unfolding scope from_raw as_u8 new parse_header check_payload_size validate_scope header
    validate_frame or_too_large write_bytes encode decoder_new store finish end_of_header on_read
    fill end_payload read_payload begin_payload end_header decode parse parse_rest parse_payload
program = tt

-- A stream in chunks. A chunk that is empty is a moment at which no byte has arrived.
abbrev serve : List (List ℕ) → ℕ → ReadOutcome × List (List ℕ)
serve [] k = (got [], [])
serve ([] ∷ cs) k = (suspended, cs)
serve ((b ∷ bs) ∷ cs) k = (got (take k (b ∷ bs)), drop k (b ∷ bs) ∷ cs)

abbrev joined : List (List ℕ) → List ℕ
joined [] = []
joined (c ∷ cs) = c ++ joined cs

serve-IsStream : IsStream joined serve
serve-IsStream [] k h = (refl, omega arith, λ e. refl)
serve-IsStream ([] ∷ cs) k h = refl
serve-IsStream ((b ∷ bs) ∷ cs) zero h = absurd (omega arith)
serve-IsStream ((b ∷ bs) ∷ cs) (suc k) h = (
  ap (λ t. t ++ joined cs) (sym (take-append-drop (suc k) (b ∷ bs)))
      ∙ append_assoc (take (suc k) (b ∷ bs)) (drop (suc k) (b ∷ bs)) (joined cs),
  omega (arith, length-take (suc k) (b ∷ bs)),
  λ e. cc,
)

abbrev extend : List ℕ → List ℕ → List ℕ × Result IoError (Unit {0})
extend w bs = (w ++ bs, ok tt)

extend-IsReliable : IsReliable (λ w. w) extend
extend-IsReliable w bs = (w ++ bs, refl, refl)

abbrev hi : Frame
hi = record { frame_type = data_frame; flags = 0; stream_id = 7; payload = 104 ∷ 105 ∷ [] }

hi-IsValid : IsValid hi
unfolding scope
hi-IsValid = record { no_flags = refl; bounded = omega arith; in_scope = omega arith }

abbrev hi_bytes : List ℕ
hi_bytes =
    0x54 ∷ 0x50 ∷ 0x58 ∷ 0x31 ∷ 2 ∷ 0x11 ∷ 0 ∷ 0 ∷ 0 ∷ 0 ∷ 0 ∷ 7 ∷ 0 ∷ 0 ∷ 0 ∷ 2 ∷ 104 ∷ 105 ∷ []

encode-hi : encode extend hi [] ≡ (hi_bytes, ok 18)
unfolding program
encode-hi = refl

-- Three chunks: the header is cut, and so is the payload; then one more byte.
abbrev chunks : List (List ℕ)
chunks = take 7 hi_bytes ∷ drop 7 (take 17 hi_bytes) ∷ (105 ∷ 9 ∷ []) ∷ []

decode_hi : (decode serve decoder_new chunks).0 ≡ cancelled
unfolding program
decode_hi = refl

decode_bad_version :
    parse (0x54 ∷ 0x50 ∷ 0x58 ∷ 0x31 ∷ 1 ∷ 1 ∷ 0 ∷ 0 ∷ 0 ∷ 0 ∷ 0 ∷ 0 ∷ 0 ∷ 0 ∷ 0 ∷ 0 ∷ [])
    ≡ (err (unsupported_version 1), [])
unfolding program
decode_bad_version = refl

resume-Decodes_example : Decodes joined serve hi_bytes (resume serve 3 decoder_new (hi_bytes ∷ []))
unfolding decoder_new
resume-Decodes_example =
    resume-Decodes joined serve serve-IsStream 3 decoder_new (hi_bytes ∷ []) decoder_new-IsValid

hi_wire : frame_bytes hi ≡ hi_bytes
unfolding program
hi_wire = refl

encode-Encodes_example : Encodes (λ w. w) hi (1 ∷ []) (encode extend hi (1 ∷ []))
encode-Encodes_example = encode-Encodes (λ w. w) extend extend-IsReliable hi (1 ∷ []) (omega arith)

resume-frame_bytes_example : Yields joined serve hi (9 ∷ []) (resume serve 5 decoder_new chunks)
unfolding program
resume-frame_bytes_example =
    resume-frame_bytes joined serve 5 decoder_new chunks hi (9 ∷ []) serve-IsStream
      decoder_new-IsValid hi-IsValid (omega arith) refl
