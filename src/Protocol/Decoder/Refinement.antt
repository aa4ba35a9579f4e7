-- ===== src/Protocol/Decoder/Refinement.antt =====
-- The decoder of crates/protocol/src/codec.rs refines `parse`, however its reads are split and
-- wherever its future is dropped.
use mathlib.Core.List.{append-nil, append_assoc}
use tunnel_proxy.Common.{
  ℕ, zero, suc, ◌-◌, ◌≤◌, ◌<◌, ◌≡◌, refl, sym, subst, ◌∙◌, ◌⊎◌, inl, inr, Option, none, some, List,
  [], ◌++◌, arith, length, take, length-replicate,
}
use tunnel_proxy.Common.Results.{Result, ok, err}
use tunnel_proxy.Protocol.Errors.{IoError, ProtocolError, io, truncated_header}
use tunnel_proxy.Protocol.Wire.{header_size}
use tunnel_proxy.Protocol.Header.{Announced, parse_header}
use tunnel_proxy.Protocol.Decoder.{
  ReadOutcome, FrameDecoder, PendingFrame, Fill, filled, ended, broken, cut_off, out_of_rounds,
  DecodeOutcome, done, cancelled, no_fuel, decoder_new, reset, start, end_of_header, fill,
  end_payload, read_payload, begin_payload, end_header, decode_from, decode,
}
use tunnel_proxy.Protocol.Decoder.Filling.{IsStream, Reported, Fills, fill-Fills}
use tunnel_proxy.Protocol.Decoder.Parse.{
  parse_rest, parse, parse-empty, parse-short, parse-header, parse-announced, parse_payload-full,
  parse_payload-short,
}

abbrev pub announced : PendingFrame → Announced
announced p = record {
  frame_type = p.frame_type;
  flags = p.flags;
  stream_id = p.stream_id;
  payload_len = length p.payload;
}

-- The bytes of the current frame that the decoder has taken.
abbrev pub held_from : Option PendingFrame → FrameDecoder → List ℕ
held_from none d = take d.header_offset d.header
held_from (some p) d = d.header ++ take p.payload_offset p.payload

abbrev pub held : FrameDecoder → List ℕ
held d = held_from d.pending d

abbrev pub IsResumable : Option PendingFrame → FrameDecoder → Type 0
IsResumable none d = d.header_offset < header_size
IsResumable (some p) d =
    (d.header_offset ≡ 0)
    × (p.payload_offset ≤ length p.payload)
    × (parse_header d.header ≡ ok (announced p))

pub record IsValid (d : FrameDecoder) : Type 0 where
  pub sized : length d.header ≡ header_size
  pub resumable : IsResumable d.pending d

pub decoder_new-IsValid : IsValid decoder_new
unfolding decoder_new
decoder_new-IsValid = record { sized = refl; resumable = omega arith }

pub held-decoder_new : held decoder_new ≡ []
unfolding decoder_new
held-decoder_new = refl

module _ {R : Type 0} (contents : R → List ℕ) (read : R → ℕ → ReadOutcome × R) where
  -- How a call of `decode` may end if `all` was held by the decoder or still to come.
  abbrev pub Decodes : List ℕ → DecodeOutcome × FrameDecoder × R → Type 0
  Decodes all (done result, d, r) =
      IsValid d
      × (held d ≡ [])
      × ((((e : IoError) × (result ≡ err (io e)) × Reported contents read e r))
          ⊎ (parse all ≡ (result, contents r)))
  Decodes all (cancelled, d, r) = IsValid d × (all ≡ held d ++ contents r)
  Decodes all (no_fuel, d, r) = ⊥

end_of_header-zero : (d : FrameDecoder) → end_of_header 0 d ≡ (done (ok none), d)
unfolding end_of_header
end_of_header-zero d = refl

end_of_header-suc :
    (o : ℕ) (d : FrameDecoder)
    → end_of_header (suc o) d ≡ (done (err (truncated_header (suc o))), reset d)
unfolding end_of_header
end_of_header-suc o d = ground arith

module _ {R : Type 0} (contents : R → List ℕ) (read : R → ℕ → ReadOutcome × R) where
  end_payload-Decodes :
      (d : FrameDecoder) (p : PendingFrame) (rest : List ℕ) (end : Fill × R)
      → length d.header ≡ header_size
      → d.header_offset ≡ 0
      → parse_header d.header ≡ ok (announced p)
      → Fills contents read (length p.payload) rest end
      → Decodes contents read (d.header ++ rest) (end_payload read d p end)
  unfolding end_payload
  end_payload-Decodes d p rest (filled buf, r) s z a f = (
    record { sized = s; resumable = omega arith },
    rw z,
    inr (
        parse-announced d.header rest (announced p) s a
        ∙ rw f.1 (parse_payload-full (announced p) buf (contents r) f.0)),
  )
  end_payload-Decodes d p rest (ended buf o, r) s z a (len, less, all, over) = (
    record { sized = s; resumable = omega arith },
    refl,
    inr (
        parse-announced d.header rest (announced p) s a
        ∙ rw (all, len, over) (parse_payload-short (announced p) rest (omega arith))),
  )
  end_payload-Decodes d p rest (broken buf e, r) s z a f =
      (record { sized = s; resumable = omega arith }, refl, inl (e, refl, f.1))
  end_payload-Decodes d p rest (cut_off buf o, r) s z a (len, less, all) = (
    record { sized = s; resumable = (z, omega arith, rw len a) },
    rw all (sym (append_assoc d.header (take o buf) (contents r))),
  )
  end_payload-Decodes d p rest (out_of_rounds, r) s z a f = absurd f

  module _ (stream : IsStream contents read) where
    read_payload-Decodes :
        (d : FrameDecoder) (p : PendingFrame) (r : R)
        → length d.header ≡ header_size
        → IsResumable (some p) d
        → Decodes contents read (held_from (some p) d ++ contents r) (read_payload read d p r)
    unfolding read_payload
    read_payload-Decodes d p r s (z, o, a) =
        rw (append_assoc d.header (take p.payload_offset p.payload) (contents r)) (
          end_payload-Decodes d p (take p.payload_offset p.payload ++ contents r) _ s z a (
            fill-Fills contents read stream (length p.payload - p.payload_offset) p.payload
              p.payload_offset r o (omega arith)))

    begin_payload-Decodes :
        (d : FrameDecoder) (result : Result ProtocolError Announced) (r : R)
        → length d.header ≡ header_size
        → parse_header d.header ≡ result
        → Decodes contents read (d.header ++ contents r) (begin_payload read d result r)
    unfolding begin_payload
    begin_payload-Decodes d (err e) r s q = (
      record { sized = s; resumable = omega arith },
      refl,
      inr (parse-header d.header (contents r) s ∙ rw q (unfold parse_rest in refl)),
    )
    begin_payload-Decodes d (ok a) r s q =
        let d' : FrameDecoder = record d { header_offset = 0; pending = some (start a) } in
        let ready : IsResumable (some (start a)) d' =
          (refl, omega arith, rw (length-replicate {A = ℕ} a.payload_len 0) q) in
        rw append-nil at (read_payload-Decodes d' (start a) r s ready)

    end_header-Decodes :
        (d : FrameDecoder) (all : List ℕ) (end : Fill × R)
        → d.pending ≡ none
        → Fills contents read header_size all end
        → Decodes contents read all (end_header read d end)
    unfolding end_header
    end_header-Decodes d all (filled buf, r) q f =
        rw f.1 (
          begin_payload-Decodes (record d { header = buf; header_offset = length buf }) _ r f.0
            refl)
    end_header-Decodes d all (ended buf zero, r) q (len, less, here, over) = rw end_of_header-zero (
      record { sized = len; resumable = rw q less },
      rw q refl,
      inr (rw over (parse-empty all here)),
    )
    end_header-Decodes d all (ended buf (suc o), r) q (len, less, here, over) =
        rw end_of_header-suc (
          record { sized = len; resumable = omega arith },
          refl,
          inr (rw (here, over) (parse-short all (omega arith) (omega arith))),
        )
    end_header-Decodes d all (broken buf e, r) q f =
        (record { sized = f.0; resumable = omega arith }, refl, inl (e, refl, f.1))
    end_header-Decodes d all (cut_off buf o, r) q (len, less, here) =
        (record { sized = len; resumable = rw q less }, rw q here)
    end_header-Decodes d all (out_of_rounds, r) q f = absurd f

    decode_from-Decodes :
        (o : Option PendingFrame) (d : FrameDecoder) (r : R)
        → d.pending ≡ o
        → length d.header ≡ header_size
        → IsResumable o d
        → Decodes contents read (held_from o d ++ contents r) (decode_from read o d r)
    unfolding decode_from
    decode_from-Decodes none d r q s v =
        end_header-Decodes d (take d.header_offset d.header ++ contents r) _ q (
          subst
            (λ n.
              Fills contents read n (take d.header_offset d.header ++ contents r)
                (fill read (length d.header - d.header_offset) d.header d.header_offset r))
            s
            (fill-Fills contents read stream (length d.header - d.header_offset) d.header
              d.header_offset r (omega arith) (omega arith)))
    decode_from-Decodes (some p) d r q s v = read_payload-Decodes d p r s v

    -- One call of `decode` on a valid decoder ends in one of three ways, and leaves a valid decoder.
    -- It reports the outcome that `parse` has on the bytes held and still to come, holds nothing
    -- and leaves the stream where `parse` does; or it reports an I/O error that a read reported; or
    -- its future was dropped, and then the bytes held and still to come are those there were before.
    pub decode-Decodes :
        (d : FrameDecoder) (r : R)
        → IsValid d
        → Decodes contents read (held d ++ contents r) (decode read d r)
    unfolding decode
    decode-Decodes d r v = decode_from-Decodes d.pending d r refl v.sized v.resumable
