-- ===== src/Examples/Senders.antt =====
-- The H2 clients on a host in memory: stdin is stream 0, and a request is sent on stream 7.
use muxly.Base.{
  ℕ, ◌+◌, ◌%◌, ◌^◌, ◌≡◌, refl, arith, false, some, List, [], ◌∷◌, ◌++◌, Text, codes, drop,
}
use muxly.Std.Decimal.{to_text}
use muxly.Std.Str.{starts_with, contains}
use muxly.Outcome.{ok}
use muxly.Host.{Io}
use muxly.Line.{pop_if, read_line_message, read_line_message_with_cap}
use muxly.Decoder.{read_h2_request_body}
use muxly.Decoder.Body.{joined, whole}
use muxly.Net.{authority}
use muxly.H2Client.{H2Sender, start_h2_request}
use muxly.H2Client.Received.{Sent, start_h2_request-received}
use muxly.SessionClient.{ClientState, session}
use muxly.SessionRun.{Runtime, request_result, task_result, run_session}
use muxly.SessionRun.Requests.{run_session-cut}
use muxly.H3Client.{H3State, H3Branch, new_h3_client, run_h3wt_session}
use muxly.H3Client
use muxly.H3Client.Same.{as_client, as_outcome, h3_events, run_h3wt_session-session}
use muxly.Examples.Memory.{
  Memory, memory, memory_readable, with_input, set_at, write_all_memory, write_law,
}

-- A new request starts on an empty stream.
abbrev open_stream : Text → Io Memory ℕ
open_stream uri w = (ok 7, record w { outgoing = set_at w.outgoing 7 [] })

abbrev sender : H2Sender memory
sender = record {
  ready = λ w. (ok tt, w);
  build_request = λ uri. ok tt;
  send_request = open_stream;
  send_data = λ k bytes end_of_stream. write_all_memory k bytes;
  response = λ k w. (ok (200, []), w);
}

opened_law :
    (w : Memory) (uri : Text) (stream : ℕ)
    → (open_stream uri w).0 ≡ ok stream
    → (open_stream uri w).1.outgoing stream ≡ []
opened_law w uri stream e = ground arith

abbrev sent_log : Sent memory sender
sent_log = record {
  sent = λ w k. w.outgoing k;
  send_request_law = opened_law;
  send_data_law = λ w k bytes end_of_stream e. write_law w k bytes e;
}

abbrev host_name : Text
host_name = codes "localhost"

start_h2_request-received_example :
    read_h2_request_body (whole (codes "hel" ∷ codes "lo\n" ∷ [])) 100
    ≡ ok (pop_if b'\r' (codes "hello"))
unfolding start_h2_request authority contains starts_with to_text joined
start_h2_request-received_example =
    start_h2_request-received sent_log host_name 80 (codes "/rpc") (codes "hello") (with_input []) 7
      (codes "hel" ∷ codes "lo\n" ∷ []) 100 refl refl (omega arith) (omega arith)

-- The first two bytes of stdin have arrived when a task ends.
abbrev runtime : Runtime memory
runtime = record {
  drop_read_until =
      λ k limit d w. record w { incoming = set_at w.incoming k (drop 2 (w.incoming k)) };
  timeout = λ response. response;
}

abbrev one_task : ClientState
one_task = record { stdin_closed = false; tasks = 1; connection_done = false }

abbrev typed : Memory
typed = with_input (codes "{\"id\":1}\n")

-- The world in which the rest of the line has been read.
abbrev rest_read : Memory
rest_read =
    (read_line_message memory 0 100 (runtime.drop_read_until 0 ((100 + 1) % 2 ^ 64) b'\n' typed)).1

abbrev rest_sent : Memory
rest_sent =
    (start_h2_request memory sender host_name 80 (codes "/rpc") (codes "id\":1}") rest_read).1

run_session-cut_example :
    ((read_line_message memory 0 100 typed).0
      ≡ ok (some (pop_if b'\r' (codes "{\"" ++ codes "id\":1}"))))
    × (run_session memory sender runtime 0 host_name 80
          (codes "/rpc")
          100
          (task_result (ok tt) ∷ request_result ∷ [])
          one_task
          typed
        ≡ run_session memory sender runtime 0 host_name 80 (codes "/rpc") 100 [] one_task rest_sent)
    × (rest_sent.outgoing 7 ≡ pop_if b'\r' (codes "id\":1}") ++ b'\n' ∷ [])
unfolding start_h2_request authority contains starts_with to_text read_line_message_with_cap
run_session-cut_example =
    run_session-cut memory sender runtime 0 host_name 80 (codes "/rpc") 100 memory_readable sent_log
      (omega arith) [] one_task typed rest_sent (codes "{\"") (codes "id\":1}") [] 7 refl
      (omega arith) (omega arith) (omega arith) refl refl refl

abbrev h3_branches : List H3Branch
h3_branches = H3Client.request_result ∷ H3Client.task_result (ok tt) ∷ []

run_h3wt_session-session_example :
    as_outcome (run_h3wt_session memory runtime 0 100 h3_branches new_h3_client typed).0
    ≡ session
        (h3_events memory runtime 0 100 h3_branches new_h3_client typed)
        (as_client new_h3_client)
run_h3wt_session-session_example =
    run_h3wt_session-session memory runtime 0 100 h3_branches new_h3_client typed
