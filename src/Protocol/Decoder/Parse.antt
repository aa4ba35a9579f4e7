-- ===== src/Protocol/Decoder/Parse.antt =====
-- What the decoder promises: one frame parsed from the bytes of a whole stream, with no buffer, no
-- partial read and no cancellation. Beside the result stand the bytes that follow.
use tunnel_proxy.Common.{
  ℕ, ◌+◌, ◌≤◌, ◌<◌, ◌≡◌, refl, ◌∙◌, Option, none, List, [], ◌∷◌, ◌++◌, arith, ltb, if◌then◌else◌,
  length, take, drop, length-append, take-append_left, drop-append_left,
}
use tunnel_proxy.Common.Results.{Result, ok, err}
use tunnel_proxy.Protocol.Wire.{header_size}
use tunnel_proxy.Protocol.Errors.{ProtocolError, truncated_header, truncated_payload}
use tunnel_proxy.Protocol.Frame.{Frame}
use tunnel_proxy.Protocol.Header.{Announced, parse_header}
use tunnel_proxy.Protocol.Decoder.{finish}

abbrev pub Parsed : Type 0
Parsed = Result ProtocolError (Option Frame) × List ℕ

unfoldable pub parse_payload : Announced → List ℕ → Parsed
parse_payload a rest =
    if ltb (length rest) a.payload_len
    then (err (truncated_payload (length rest) a.payload_len), [])
    else (
      finish a.frame_type a.flags a.stream_id (take a.payload_len rest),
      drop a.payload_len rest,
    )

unfoldable pub parse_rest : Result ProtocolError Announced → List ℕ → Parsed
parse_rest (err e) rest = (err e, rest)
parse_rest (ok a) rest = parse_payload a rest

unfoldable pub parse : List ℕ → Parsed
parse [] = (ok none, [])
parse (b ∷ bs) =
    if ltb (length (b ∷ bs)) header_size
    then (err (truncated_header (length (b ∷ bs))), [])
    else parse_rest (parse_header (take header_size (b ∷ bs))) (drop header_size (b ∷ bs))

pub parse-long :
    (bs : List ℕ)
    → header_size ≤ length bs
    → parse bs ≡ parse_rest (parse_header (take header_size bs)) (drop header_size bs)
unfolding parse
parse-long [] h = absurd (omega arith)
parse-long (b ∷ bs) h = ground arith

pub parse-empty : (bs : List ℕ) → 0 ≡ length bs → parse bs ≡ (ok none, [])
unfolding parse
parse-empty [] h = refl
parse-empty (b ∷ bs) h = absurd (omega arith)

pub parse-short :
    (bs : List ℕ)
    → 0 < length bs
    → length bs < header_size
    → parse bs ≡ (err (truncated_header (length bs)), [])
unfolding parse
parse-short [] h k = absurd (omega arith)
parse-short (b ∷ bs) h k = ground arith

pub parse-header :
    (h rest : List ℕ)
    → length h ≡ header_size
    → parse (h ++ rest) ≡ parse_rest (parse_header h) rest
parse-header h rest e =
    parse-long (h ++ rest) (omega (arith, length-append h rest))
    ∙ rw (take-append_left header_size h rest e, drop-append_left header_size h rest e) refl

pub parse-announced :
    (h rest : List ℕ) (a : Announced)
    → length h ≡ header_size
    → parse_header h ≡ ok a
    → parse (h ++ rest) ≡ parse_payload a rest
unfolding parse_rest
parse-announced h rest a e q = parse-header h rest e ∙ rw q refl

pub parse_payload-full :
    (a : Announced) (buf tail : List ℕ)
    → length buf ≡ a.payload_len
    → parse_payload a (buf ++ tail) ≡ (finish a.frame_type a.flags a.stream_id buf, tail)
unfolding parse_payload
parse_payload-full a buf tail e =
    let k : length (buf ++ tail) ≡ a.payload_len + length tail =
      omega (arith, length-append buf tail) in
    rw (take-append_left a.payload_len buf tail e, drop-append_left a.payload_len buf tail e)
      (ground arith)

pub parse_payload-short :
    (a : Announced) (rest : List ℕ)
    → length rest < a.payload_len
    → parse_payload a rest ≡ (err (truncated_payload (length rest) a.payload_len), [])
unfolding parse_payload
parse_payload-short a rest h = ground arith
