-- ===== src/Multiplex/Ingress/Brought.antt =====
-- What one event of the relay brings of either direction.
use tunnel_proxy.Common.{ℕ, ◌≡◌, refl, ◌⊎◌, inl, inr, Bool, true, false, none, some, List, [], ◌∷◌}
use tunnel_proxy.Protocol.FrameType.{
  FrameType, hello, register, registered, open_stream, data_frame, end_stream, reset_stream, ping,
  pong, error,
}
use tunnel_proxy.Protocol.Frame.{Frame}
use tunnel_proxy.Multiplex.Ingress.Model.{
  Answers, StreamEvent, inbound, read_bytes, read_failed, timer, is_empty,
}
use tunnel_proxy.Multiplex.Ingress.Transfer.{
  chunk, end_of_bytes, chunks_of, sent_by_client, then_chunks, sent_by_agent,
}

-- The events that bring nothing of the direction.
pub skip_client :
    (b : Bool) (env : Answers) (event : StreamEvent) (events : List (Answers × StreamEvent))
    → ((bytes : List ℕ) → ¬ (event ≡ read_bytes bytes))
    → sent_by_client b events ≡ sent_by_client b ((env, event) ∷ events)
unfolding sent_by_client
skip_client true env event events h = refl
skip_client false env (read_bytes bytes) events h = absurd (h bytes refl)
skip_client false env (inbound f) events h = refl
skip_client false env read_failed events h = refl
skip_client false env timer events h = refl

pub skip_agent :
    (b : Bool) (env : Answers) (event : StreamEvent) (events : List (Answers × StreamEvent))
    → ((frame : Frame) → ¬ (event ≡ inbound (some frame)))
    → sent_by_agent b events ≡ sent_by_agent b ((env, event) ∷ events)
unfolding sent_by_agent
skip_agent true env event events h = refl
skip_agent false env (inbound (some frame)) events h = absurd (h frame refl)
skip_agent false env (inbound none) events h = refl
skip_agent false env (read_bytes bytes) events h = refl
skip_agent false env read_failed events h = refl
skip_agent false env timer events h = refl

-- What a frame of the agent brings.
pub agent_data :
    (b : Bool) (env : Answers) (frame : Frame) (events : List (Answers × StreamEvent))
    → b ≡ false
    → frame.frame_type ≡ data_frame
    → chunk frame.payload ∷ sent_by_agent b events
      ≡ sent_by_agent b ((env, inbound (some frame)) ∷ events)
unfolding sent_by_agent chunks_of then_chunks
agent_data true env frame events e f = cc
agent_data false env frame events e f = simp f refl

pub agent_end :
    (b : Bool) (env : Answers) (frame : Frame) (events : List (Answers × StreamEvent))
    → b ≡ false
    → frame.frame_type ≡ end_stream
    → end_of_bytes ∷ [] ≡ sent_by_agent b ((env, inbound (some frame)) ∷ events)
unfolding sent_by_agent chunks_of then_chunks
agent_end true env frame events e f = cc
agent_end false env frame events e f = simp f refl

-- What a read of the socket brings.
pub client_end :
    (b : Bool) (env : Answers) (bytes : List ℕ) (events : List (Answers × StreamEvent))
    → b ≡ false
    → bytes ≡ []
    → end_of_bytes ∷ [] ≡ sent_by_client b ((env, read_bytes bytes) ∷ events)
unfolding sent_by_client
client_end true env bytes events e f = cc
client_end false env [] events e f = refl
client_end false env (byte ∷ bytes) events e f = cc

pub client_data :
    (b : Bool) (env : Answers) (bytes : List ℕ) (events : List (Answers × StreamEvent))
    → b ≡ false
    → is_empty bytes ≡ false
    → chunk bytes ∷ sent_by_client b events ≡ sent_by_client b ((env, read_bytes bytes) ∷ events)
unfolding sent_by_client is_empty
client_data true env bytes events e f = cc
client_data false env [] events e f = cc
client_data false env (byte ∷ bytes) events e f = refl

pub client_over :
    (b : Bool) (env : Answers) (bytes : List ℕ) (events : List (Answers × StreamEvent))
    → b ≡ true
    → sent_by_client b events ≡ sent_by_client b ((env, read_bytes bytes) ∷ events)
unfolding sent_by_client
client_over true env bytes events e = refl
client_over false env bytes events e = cc

pub type-cases :
    (t : FrameType)
    → (t ≡ data_frame) ⊎ ((t ≡ end_stream) ⊎ (¬ (t ≡ data_frame) × ¬ (t ≡ end_stream)))
type-cases data_frame = inl refl
type-cases end_stream = inr (inl refl)
type-cases open_stream = inr (inr (λ e. cc e, λ e. cc e))
type-cases reset_stream = inr (inr (λ e. cc e, λ e. cc e))
type-cases hello = inr (inr (λ e. cc e, λ e. cc e))
type-cases register = inr (inr (λ e. cc e, λ e. cc e))
type-cases registered = inr (inr (λ e. cc e, λ e. cc e))
type-cases ping = inr (inr (λ e. cc e, λ e. cc e))
type-cases pong = inr (inr (λ e. cc e, λ e. cc e))
type-cases error = inr (inr (λ e. cc e, λ e. cc e))
