-- ===== src/Examples/Orders.antt =====
-- A session client that sends two lines, on a host in memory whose streams share one journal.
use muxly.Base.{
  ℕ, ◌≡◌, refl, arith, true, false, Option, some, List, [], ◌∷◌, ◌++◌, Bytes, codes, take,
}
use muxly.Std.Decimal.{to_text}
use muxly.Std.Str.{starts_with, contains}
use muxly.Outcome.{Result, ok}
use muxly.Line.{read_line_message, read_line_message_with_cap}
use muxly.Decoder.Output.{printed}
use muxly.Stream.Responses.{forwarded}
use muxly.Net.{authority}
use muxly.H2Client.{H2Sender, start_h2_request}
use muxly.SessionClient.{ClientState, new_client, is_enabled, take_event}
use muxly.SessionRun.{Runtime, Branch, request_result, task_result, run_session}
use muxly.SessionRun.Started.{Journal}
use muxly.SessionRun.InOrder.{run_session-in_order, run_session-sends_every_line}
use muxly.Examples.Memory.{Memory, memory, memory_readable, with_input, write_all_memory}

abbrev one_journal : H2Sender memory
one_journal = record {
  ready = λ w. (ok tt, w);
  build_request = λ uri. ok tt;
  send_request = λ uri w. (ok 7, w);
  send_data = λ k bytes end_of_stream. write_all_memory 7 bytes;
  response = λ k w. (ok (200, []), w);
}

-- A dropped read has taken nothing.
abbrev patient : Runtime memory
patient = record { drop_read_until = λ k limit d w. w; timeout = λ response. response }

journal_sends :
    (w : Memory) (bytes : Bytes) → (write_all_memory 7 bytes w).1.outgoing 7 ≡ w.outgoing 7 ++ bytes
journal_sends w bytes = ground arith

abbrev outgoing_journal : Journal memory memory_readable one_journal patient 0
outgoing_journal = record {
  journal = λ w. w.outgoing 7;
  ready_keeps = λ w s d. (d, refl);
  send_request_keeps = λ w s uri d. (d, refl);
  send_data_keeps = λ w s k bytes end_of_stream d. d;
  send_data_sends = λ w k bytes end_of_stream e. journal_sends w bytes;
  send_data_fails = λ w k bytes end_of_stream x e. cc e;
  read_until_journal = λ w limit d. refl;
  drop_journal = λ w limit d. refl;
}

abbrev lines : List Bytes
lines = codes "a" ∷ codes "b\r" ∷ []

abbrev typed : Memory
typed = with_input (codes "a\nb\r\n")

abbrev branches : List Branch
branches =
    request_result
    ∷ request_result
    ∷ task_result (ok tt)
    ∷ request_result
    ∷ task_result (ok tt)
    ∷ []

abbrev finished : ClientState
finished = record { stdin_closed = true; tasks = 0; connection_done = false }

abbrev run : List Branch → Option (Result ClientState) × Memory
run bs =
    run_session memory one_journal patient 0 (codes "localhost") 80 (codes "/rpc") 100 bs new_client
      typed

run-ends : (run branches).0 ≡ some (ok finished)
unfolding run_session new_client is_enabled take_event start_h2_request authority contains
    starts_with to_text read_line_message read_line_message_with_cap
run-ends = refl

run_session-in_order_example :
    (n : ℕ) × ((run (request_result ∷ [])).1.outgoing 7 ≡ [] ++ forwarded (take n lines))
unfolding printed
run_session-in_order_example =
    run_session-in_order outgoing_journal (codes "localhost") 80 (codes "/rpc") 100 (omega arith)
      (λ w s d. d) (request_result ∷ []) new_client typed lines (omega arith) refl

run_session-sends_every_line_example : (run branches).1.outgoing 7 ≡ [] ++ forwarded lines
unfolding printed new_client
run_session-sends_every_line_example =
    run_session-sends_every_line outgoing_journal (codes "localhost") 80 (codes "/rpc") 100
      (omega arith) (λ w s d. d) branches new_client finished typed lines refl (omega arith) refl
      run-ends
