-- ===== src/Multiplex/Ingress/Tests.antt =====
-- A stream that both sides end, and the theorems at concrete streams.
use tunnel_proxy.Common.{◌≡◌, refl, true, false, some, List, [], ◌∷◌}
use tunnel_proxy.Protocol.FrameType.{open_stream, data_frame, end_stream, scope}
use tunnel_proxy.Protocol.Frame.{stream_frame, new, check_payload_size, validate_scope}
use tunnel_proxy.Multiplex.Frames.{send_frame, send_stream, send_data}
use tunnel_proxy.Multiplex.Ingress.Model.{
  relaying, finished, IngressStream, Answers, StreamEvent, inbound, read_bytes, opened, start,
  is_empty, on_answer, step_opening, loop_head, after, on_relayed, sent_data, on_read,
  step_relaying, step_in, step, run_from, run,
}
use tunnel_proxy.Multiplex.Ingress.Accounts.{
  is_response, is_completion, is_closed, count, answered, reported,
}
use tunnel_proxy.Multiplex.Ingress.Lifecycle.{run-Accounts}
use tunnel_proxy.Multiplex.Ingress.Transfer.{
  to_agent, to_client, sent_by_client, sent_by_agent, Transfers,
}
use tunnel_proxy.Multiplex.Ingress.Directions.{to_agent-Transfers, to_client-Transfers}

program : Unit {0}
unfolding scope validate_scope check_payload_size new stream_frame send_frame send_stream send_data
    opened start is_empty on_answer step_opening loop_head after on_relayed sent_data on_read
    step_relaying step_in step run_from run
program = tt

abbrev works : Answers
works = record { writer_open = true; data_open = true; ingress_works = true }

abbrev exchange : List (Answers × StreamEvent)
exchange =
    (works, read_bytes (71 ∷ 69 ∷ []))
    ∷ (
      works,
      inbound
          (some (record { frame_type = data_frame; flags = 0; stream_id = 3; payload = 72 ∷ [] })),
    )
    ∷ (works, read_bytes [])
    ∷ (
      works,
      inbound (some (record { frame_type = end_stream; flags = 0; stream_id = 3; payload = [] })),
    )
    ∷ []

abbrev accepted : List (Answers × StreamEvent)
accepted =
    (
      works,
      inbound (some (record { frame_type = open_stream; flags = 0; stream_id = 3; payload = [] })),
    )
    ∷ exchange

abbrev fresh : IngressStream
fresh = record { phase = relaying; ingress_ended = false; agent_ended = false }

exchange_end : (run 9 3 works accepted).1.phase ≡ finished
unfolding program
exchange_end = refl

run-Accounts_example :
    (count is_response (run 9 3 works accepted).0 ≡ answered (run 9 3 works accepted).1.phase)
    × (count is_completion (run 9 3 works accepted).0 ≡ reported (run 9 3 works accepted).1.phase)
    × (count is_closed (run 9 3 works accepted).0 ≡ reported (run 9 3 works accepted).1.phase)
run-Accounts_example = run-Accounts 9 3 works accepted

to_agent-Transfers_example :
    Transfers to_agent (sent_by_client false exchange) (run_from 9 3 exchange fresh).0
to_agent-Transfers_example = to_agent-Transfers 9 3 exchange fresh refl

to_client-Transfers_example :
    Transfers to_client (sent_by_agent false exchange) (run_from 9 3 exchange fresh).0
to_client-Transfers_example = to_client-Transfers 9 3 exchange fresh refl
