-- ===== src/Multiplex/Ingress/Accounts.antt =====
-- How often the task of a stream answers its caller and reports its end.
use tunnel_proxy.Common.{
  ℕ, ◌+◌, ◌≡◌, refl, subst, Bool, true, false, ◌&&◌, Option, none, some, List, [], ◌∷◌, ◌++◌,
  if◌then◌else◌, arith, Bool-cases, inl, inr,
}
use tunnel_proxy.Common.Results.{Result, ok, err}
use tunnel_proxy.Protocol.FrameType.{StreamId}
use tunnel_proxy.Protocol.Frame.{Frame}
use tunnel_proxy.Codes.StreamReset.{StreamResetCode}
use tunnel_proxy.Multiplex.Errors.{AgentTransportError, RouteError, RoutedStreamCloseReason}
use tunnel_proxy.Multiplex.Frames.{send_reset}
use tunnel_proxy.Multiplex.Ingress.Model.{
  Phase, opening, relaying, finished, IngressStream, Answers, Effect, respond, complete,
  closed_event, Turn, finish_stream, sent_reset, closing, break_with, loop_head, after, on_reset,
}

abbrev pub is_response : Effect → Bool
is_response (respond r) = true
is_response _ = false

abbrev pub is_completion : Effect → Bool
is_completion (complete reason) = true
is_completion _ = false

abbrev pub is_closed : Effect → Bool
is_closed (closed_event id) = true
is_closed _ = false

unfoldable pub count : (Effect → Bool) → List Effect → ℕ
count p [] = 0
count p (e ∷ es) = (if p e then 1 else 0) + count p es

-- How often the caller has been answered, and the end reported, when a phase is reached.
unfoldable pub answered : Phase → ℕ
answered opening = 0
answered relaying = 1
answered finished = 1

unfoldable pub reported : Phase → ℕ
reported opening = 0
reported relaying = 0
reported finished = 1

pub record Accounts (from : Phase) (t : Turn) : Type 0 where
  pub responses : count is_response t.0 + answered from ≡ answered t.1.phase
  pub completions : count is_completion t.0 + reported from ≡ reported t.1.phase
  pub events : count is_closed t.0 + reported from ≡ reported t.1.phase

-- Effects that are neither an answer nor a report.
pub record IsSilent (es : List Effect) : Type 0 where
  pub no_response : count is_response es ≡ 0
  pub no_completion : count is_completion es ≡ 0
  pub no_event : count is_closed es ≡ 0

pub count-append :
    (p : Effect → Bool) (es fs : List Effect) → count p (es ++ fs) ≡ count p es + count p fs
unfolding count
count-append p [] fs = omega arith
count-append p (e ∷ es) fs = omega (arith, count-append p es fs)

pub sent_reset-IsSilent : (r : Result AgentTransportError Frame) → IsSilent (sent_reset r)
unfolding sent_reset count
sent_reset-IsSilent (ok frame) = record {
  no_response = refl;
  no_completion = refl;
  no_event = refl;
}
sent_reset-IsSilent (err e) = record { no_response = refl; no_completion = refl; no_event = refl }

pub after-Accounts :
    (from : Phase) (es : List Effect) (t : Turn)
    → IsSilent es
    → Accounts from t
    → Accounts from (after es t)
unfolding after
after-Accounts from es (more, s) q a = record {
  responses = omega (arith, count-append is_response es more, q.no_response, a.responses);
  completions = omega (arith, count-append is_completion es more, q.no_completion, a.completions);
  events = omega (arith, count-append is_closed es more, q.no_event, a.events);
}

pub stays : (s : IngressStream) → Accounts s.phase ([], s)
unfolding count
stays s = record { responses = omega arith; completions = omega arith; events = omega arith }

pub closing-Accounts :
    (id : StreamId) (reason : RoutedStreamCloseReason) (s : IngressStream)
    → Accounts relaying (closing id reason, finish_stream s)
unfolding count answered reported
closing-Accounts id reason s = record { responses = refl; completions = refl; events = refl }

-- An answer, with the end of the task.
pub refused-Accounts :
    (answer : Result (RouteError ℕ) StreamId) (id : StreamId) (reason : RoutedStreamCloseReason)
    (es : List Effect) (s : IngressStream)
    → IsSilent es
    → Accounts opening (respond answer ∷ es ++ closing id reason, finish_stream s)
unfolding count answered reported
refused-Accounts answer id reason es s q = record {
  responses = omega (arith, count-append is_response es (closing id reason), q.no_response);
  completions = omega (arith, count-append is_completion es (closing id reason), q.no_completion);
  events = omega (arith, count-append is_closed es (closing id reason), q.no_event);
}

pub break_with-Accounts :
    (env : Answers) (id : StreamId) (code : StreamResetCode) (reason : RoutedStreamCloseReason)
    (s : IngressStream)
    → Accounts relaying (break_with env id code reason s)
unfolding break_with after
break_with-Accounts env id code reason s =
    after-Accounts relaying (sent_reset (send_reset env.writer_open id code)) _
      (sent_reset-IsSilent (send_reset env.writer_open id code)) (closing-Accounts id reason s)

pub loop_head-Accounts :
    (id : StreamId) (s : IngressStream) → s.phase ≡ relaying → Accounts relaying (loop_head id s)
unfolding loop_head
loop_head-Accounts id s here = elim (Bool-cases (s.ingress_ended && s.agent_ended)) [
  | inl over ↦ rw over (closing-Accounts id RoutedStreamCloseReason.graceful s)
  | inr more ↦ rw more (subst (λ p. Accounts p ([], s)) here (stays s))
]

pub nothing_said-IsSilent : IsSilent []
unfolding count
nothing_said-IsSilent = record { no_response = refl; no_completion = refl; no_event = refl }

pub one-IsSilent :
    (e : Effect)
    → is_response e ≡ false
    → is_completion e ≡ false
    → is_closed e ≡ false
    → IsSilent (e ∷ [])
unfolding count
one-IsSilent e a b c = record {
  no_response = rw a refl;
  no_completion = rw b refl;
  no_event = rw c refl;
}

pub on_reset-Accounts :
    (env : Answers) (id : StreamId) (code : Option StreamResetCode) (s : IngressStream)
    → Accounts relaying (on_reset env id code s)
unfolding on_reset
on_reset-Accounts env id (some code) s =
    closing-Accounts id (RoutedStreamCloseReason.peer_reset code) s
on_reset-Accounts env id none s = break_with-Accounts env id _ _ s
