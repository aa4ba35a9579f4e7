-- ===== src/Protocol/Resume.antt =====
-- Calls of `FrameDecoder::decode` as `tokio::select!` makes them: a future that loses is dropped,
-- and `decode` is called again on the same decoder.
use tunnel_proxy.Common.{ℕ, zero, suc, List, ◌++◌}
use tunnel_proxy.Protocol.Decoder.{
  ReadOutcome, FrameDecoder, DecodeOutcome, done, cancelled, no_fuel, decode,
}
use tunnel_proxy.Protocol.Decoder.Filling.{IsStream}
use tunnel_proxy.Protocol.Decoder.Refinement.{IsValid, held, Decodes, decode-Decodes}

module _ {R : Type 0} (read : R → ℕ → ReadOutcome × R) where
  again :
      (FrameDecoder → R → DecodeOutcome × FrameDecoder × R)
      → DecodeOutcome × FrameDecoder × R
      → DecodeOutcome × FrameDecoder × R
  again call (done result, d, r) = (done result, d, r)
  again call (no_fuel, d, r) = (no_fuel, d, r)
  again call (cancelled, d, r) = call d r

  -- `decode` called until it ends, at most `suc n` times.
  pub resume : ℕ → FrameDecoder → R → DecodeOutcome × FrameDecoder × R
  unfolding again
  resume zero d r = decode read d r
  resume (suc n) d r = again (resume n) (decode read d r)

module _ {R : Type 0} (contents : R → List ℕ) (read : R → ℕ → ReadOutcome × R)
    (stream : IsStream contents read) where
  again-Decodes :
      (call : FrameDecoder → R → DecodeOutcome × FrameDecoder × R) (all : List ℕ)
      (end : DecodeOutcome × FrameDecoder × R)
      → Decodes contents read all end
      → ((d : FrameDecoder) (r : R)
          → IsValid d
          → Decodes contents read (held d ++ contents r) (call d r))
      → Decodes contents read all (again read call end)
  unfolding again
  again-Decodes call all (done result, d, r) h go = h
  again-Decodes call all (no_fuel, d, r) h go = h
  again-Decodes call all (cancelled, d, r) (v, e) go = rw e (go d r v)

  -- Dropping the future any number of times and calling `decode` again changes nothing: the last
  -- call reports what `parse` has on the bytes held at first and still to come, holds nothing and
  -- leaves the stream where `parse` does; or it reports an I/O error that a read reported; or it was
  -- dropped too, and then the bytes held and still to come are those there were at first.
  pub resume-Decodes :
      (n : ℕ) (d : FrameDecoder) (r : R)
      → IsValid d
      → Decodes contents read (held d ++ contents r) (resume read n d r)
  unfolding resume
  resume-Decodes zero d r v = decode-Decodes contents read stream d r v
  resume-Decodes (suc n) d r v =
      again-Decodes (resume read n) (held d ++ contents r) (decode read d r)
        (decode-Decodes contents read stream d r v) (resume-Decodes n)
