-- ===== src/Protocol/Encoder.antt =====
-- `FrameEncoder` of crates/protocol/src/codec.rs.
-- The `AsyncWrite` that it writes to is a parameter: a state, and `write_all` on it.
mod Validation
unfoldable pub use Validation.{validate_frame}
pub use Validation.{validate_frame-ok, validate_frame-IsValid}
use tunnel_proxy.Common.{
  ℕ, ◌+◌, ◌/◌, ◌%◌, ◌^◌, ◌-◌, ◌≤◌, ◌<◌, ◌≡◌, refl, Option, none, some, List, [], ◌∷◌, ◌++◌, arith,
  length, length-append, All, All-append,
}
use tunnel_proxy.Common.Results.{Result, ok, err}
use tunnel_proxy.Common.Bytes.{IsByte, byte_at, u32_try_from}
use tunnel_proxy.Protocol.Wire.{magic, version, header_size, max_frame_payload}
use tunnel_proxy.Protocol.FrameType.{as_u8, as_u8-IsByte}
use tunnel_proxy.Protocol.Errors.{IoError, ProtocolError, io, encode_frame_too_large}
use tunnel_proxy.Protocol.Frame.{Frame, IsValid}

-- A step that writes to a `W` and may fail.
abbrev pub Writes : Type 0 → Type 0 → Type 0
Writes W A = W → W × Result ProtocolError A

abbrev pub lift : {W A : Type 0} → Result ProtocolError A → Writes W A
lift r w = (w, r)

abbrev follow :
    {W A B : Type 0} → W × Result ProtocolError A → (A → Writes W B) → W × Result ProtocolError B
follow (w, ok a) f = f a w
follow (w, err e) f = (w, err e)

infixl 5 ◌>>=◌ ◌>>◌
abbrev pub ◌>>=◌ : {W A B : Type 0} → Writes W A → (A → Writes W B) → Writes W B
◌>>=◌ m f w = follow (m w) f

abbrev pub ◌>>◌ : {W B : Type 0} → Writes W (Unit {0}) → Writes W B → Writes W B
m >> k = m >>= λ _. k

-- The 16 bytes in front of a payload of `len` bytes.
unfoldable pub header : Frame → ℕ → List ℕ
header f len =
    magic
    ++ (version
        ∷ as_u8 f.frame_type
        ∷ byte_at f.flags 8
        ∷ f.flags % 256
        ∷ byte_at f.stream_id 24
        ∷ byte_at f.stream_id 16
        ∷ byte_at f.stream_id 8
        ∷ f.stream_id % 256
        ∷ byte_at len 24
        ∷ byte_at len 16
        ∷ byte_at len 8
        ∷ len % 256
        ∷ [])

unfoldable pub or_too_large : Option ℕ → Result ProtocolError ℕ
or_too_large (some len) = ok len
or_too_large none = err (encode_frame_too_large (2 ^ 32 - 1))

io_result : {W : Type 0} → W × Result IoError (Unit {0}) → W × Result ProtocolError (Unit {0})
io_result (w, ok u) = (w, ok u)
io_result (w, err e) = (w, err (io e))

module _ {W : Type 0} (write_all : W → List ℕ → W × Result IoError (Unit {0})) where
  unfoldable pub write_bytes : List ℕ → Writes W (Unit {0})
  unfolding io_result
  write_bytes bs w = io_result (write_all w bs)

  -- The number of bytes written.
  unfoldable pub encode : Frame → Writes W ℕ
  encode f = do
    lift (validate_frame f)
    len ← lift (or_too_large (u32_try_from (length f.payload)))
    write_bytes (header f len)
    write_bytes f.payload
    lift (ok (header_size + length f.payload))

  write_bytes-ok :
      (w : W) (bs : List ℕ) (w' : W) → write_all w bs ≡ (w', ok tt) → write_bytes bs w ≡ (w', ok tt)
  unfolding write_bytes
  write_bytes-ok w bs w' h = rw h refl

  or_too_large-ok : (n : ℕ) → n < 2 ^ 32 → or_too_large (u32_try_from n) ≡ ok n
  unfolding or_too_large
  or_too_large-ok n h = ground arith

  -- Both writes succeed: the frame passes the checks and the writer takes all bytes.
  pub encode-ok :
      (f : Frame) (w w₁ w₂ : W)
      → IsValid f
      → write_all w (header f (length f.payload)) ≡ (w₁, ok tt)
      → write_all w₁ f.payload ≡ (w₂, ok tt)
      → encode f w ≡ (w₂, ok (header_size + length f.payload))
  unfolding encode
  encode-ok f w w₁ w₂ v p q =
      rw
        (
          validate_frame-ok f v,
          or_too_large-ok (length f.payload) (omega arith),
          write_bytes-ok w _ w₁ p,
          write_bytes-ok w₁ _ w₂ q,
        )
        refl

  -- A frame that fails the checks: nothing is written.
  pub encode-refused :
      (f : Frame) (w : W) (e : ProtocolError) → validate_frame f ≡ err e → encode f w ≡ (w, err e)
  unfolding encode
  encode-refused f w e h = rw h refl
