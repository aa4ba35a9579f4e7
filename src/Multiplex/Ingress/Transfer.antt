-- ===== src/Multiplex/Ingress/Transfer.antt =====
-- What the task of a stream hands on in either direction, chunk by chunk: from the client to the
-- agent, and from the agent to the client.
use mathlib.Core.List.{append_assoc}
use tunnel_proxy.Common.{ℕ, ◌≡◌, refl, Bool, true, false, none, some, List, [], ◌∷◌, ◌++◌}
use tunnel_proxy.Protocol.FrameType.{
  FrameType, hello, register, registered, open_stream, data_frame, end_stream, reset_stream, ping,
  pong, error,
}
use tunnel_proxy.Multiplex.Errors.{graceful}
use tunnel_proxy.Multiplex.Ingress.Model.{
  Answers, StreamEvent, inbound, read_bytes, read_failed, timer, Effect, to_control, to_data,
  respond, complete, closed_event, write_all, shutdown, reset_idle,
}

-- Some bytes, or the end of them.
pub data Chunk : Type 0 where
  chunk : List ℕ → Chunk
  end_of_bytes : Chunk

-- By the type and the payload of a frame.
unfoldable pub chunks_of : FrameType → List ℕ → List Chunk
chunks_of data_frame payload = chunk payload ∷ []
chunks_of end_stream payload = end_of_bytes ∷ []
chunks_of open_stream payload = []
chunks_of reset_stream payload = []
chunks_of hello payload = []
chunks_of register payload = []
chunks_of registered payload = []
chunks_of ping payload = []
chunks_of pong payload = []
chunks_of error payload = []

unfoldable pub to_agent : Effect → List Chunk
unfolding chunks_of
to_agent (to_data frame) = chunks_of frame.frame_type frame.payload
to_agent _ = []

unfoldable pub to_client : Effect → List Chunk
to_client (write_all bytes) = chunk bytes ∷ []
to_client shutdown = end_of_bytes ∷ []
to_client _ = []

unfoldable pub moved : (Effect → List Chunk) → List Effect → List Chunk
moved p [] = []
moved p (e ∷ es) = p e ++ moved p es

-- What the client sends, up to its end.
unfoldable pub sent_by_client : Bool → List (Answers × StreamEvent) → List Chunk
sent_by_client true events = []
sent_by_client false [] = []
sent_by_client false ((env, read_bytes []) ∷ events) = end_of_bytes ∷ []
sent_by_client false ((env, read_bytes (byte ∷ bytes)) ∷ events) =
    chunk (byte ∷ bytes) ∷ sent_by_client false events
sent_by_client false ((env, inbound f) ∷ events) = sent_by_client false events
sent_by_client false ((env, read_failed) ∷ events) = sent_by_client false events
sent_by_client false ((env, timer) ∷ events) = sent_by_client false events

unfoldable pub then_chunks : List Chunk → List Chunk → List Chunk
then_chunks (end_of_bytes ∷ _) more = end_of_bytes ∷ []
then_chunks (chunk bytes ∷ _) more = chunk bytes ∷ more
then_chunks [] more = more

-- What the agent sends, up to its end.
unfoldable pub sent_by_agent : Bool → List (Answers × StreamEvent) → List Chunk
unfolding chunks_of then_chunks
sent_by_agent true events = []
sent_by_agent false [] = []
sent_by_agent false ((env, inbound (some frame)) ∷ events) =
    then_chunks (chunks_of frame.frame_type frame.payload) (sent_by_agent false events)
sent_by_agent false ((env, inbound none) ∷ events) = sent_by_agent false events
sent_by_agent false ((env, read_bytes bytes) ∷ events) = sent_by_agent false events
sent_by_agent false ((env, read_failed) ∷ events) = sent_by_agent false events
sent_by_agent false ((env, timer) ∷ events) = sent_by_agent false events

-- The task has reported no reason for its end but `graceful`.
unfoldable pub IsClean : List Effect → Type 0
IsClean [] = Unit {0}
IsClean (complete reason ∷ es) = (reason ≡ graceful) × IsClean es
IsClean (_ ∷ es) = IsClean es

pub record Transfers (p : Effect → List Chunk) (expected : List Chunk) (effects : List Effect)
    : Type 0 where
  pub in_order : (rest : List Chunk) × (moved p effects ++ rest ≡ expected)
  pub whole : IsClean effects → moved p effects ≡ expected

pub moved-append :
    (p : Effect → List Chunk) (es fs : List Effect) → moved p (es ++ fs) ≡ moved p es ++ moved p fs
unfolding moved
moved-append p [] fs = refl
moved-append p (e ∷ es) fs = simp (moved-append p es fs, append_assoc) refl

pub IsClean-right : (es fs : List Effect) → IsClean (es ++ fs) → IsClean fs
unfolding IsClean
IsClean-right [] fs c = c
IsClean-right (complete reason ∷ es) fs c = IsClean-right es fs c.1
IsClean-right (to_control f ∷ es) fs c = IsClean-right es fs c
IsClean-right (to_data f ∷ es) fs c = IsClean-right es fs c
IsClean-right (respond r ∷ es) fs c = IsClean-right es fs c
IsClean-right (closed_event id ∷ es) fs c = IsClean-right es fs c
IsClean-right (write_all b ∷ es) fs c = IsClean-right es fs c
IsClean-right (shutdown ∷ es) fs c = IsClean-right es fs c
IsClean-right (reset_idle ∷ es) fs c = IsClean-right es fs c
