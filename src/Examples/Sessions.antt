-- ===== src/Examples/Sessions.antt =====
-- A connection of the HTTP server on a host in memory: the client is stream 0, the daemon stream 1.
use muxly.Base.{ℕ, ◌≡◌, refl, arith, [], ◌∷◌, ◌++◌, Bytes, codes}
use muxly.Std.Utf8.{as_bytes, from_utf8}
use muxly.Std.Decimal.{to_text, parse}
use muxly.Std.Str.{starts_with, trim, split_whitespace, split_once, eq_ignore_ascii_case}
use muxly.Outcome.{ok}
use muxly.Line.{pop_if, read_line_message, read_line_message_with_cap}
use muxly.Upstream.{forward_request}
use muxly.Http.{
  read_http_request, read_http_response, write_http_request, error_head, request_head,
  read_first_line, read_headers, header_round, header_length, parse_content_length, read_http_line,
  http_line, parse_request_line,
}
use muxly.Http.Messages.{request_bytes, response_bytes}
use muxly.Relay.Lines.{Flows}
use muxly.Session.{run_http_client_on_stream, handle_http_connection}
use muxly.Session.Requests.{run_http_client_on_stream-answered}
use muxly.Session.Answers.{handle_http_connection-answered, handle_http_connection-not_found}
use muxly.Examples.Memory.{
  Memory, memory, memory_readable, MemoryDelivers, set_at, write_all_memory,
}
use muxly.Examples.Messages.{path, host_header, small_request}

takes :
    (k : ℕ) (w : Memory) (s b : Bytes)
    → MemoryDelivers w k s
    → (w' : Memory) × (write_all_memory 0 b w ≡ (ok tt, w'))
      × (w'.outgoing 0 ≡ w.outgoing 0 ++ b)
      × MemoryDelivers w' k s
takes k w s b d = ((write_all_memory 0 b w).1, refl, ground arith, d)

abbrev client_flows : (k : ℕ) → Flows memory memory_readable k 0
client_flows k = record {
  written = λ w. w.outgoing 0;
  read_until_written = λ w limit d. refl;
  write_all_flows = takes k;
  flush_flows = λ w s d. (w, refl, refl, d);
}

abbrev start : Memory
start = record {
  incoming =
      set_at (set_at (λ _. []) 0 (request_bytes path host_header (codes "{}") ++ [])) 1
        (codes "[]\n");
  outgoing = λ _. [];
}

-- The world in which the daemon has the request.
abbrev asked : Memory
asked =
    (forward_request memory (codes "/sock") (codes "{}")
      (read_http_request memory 5 0 100 start).1).1

asked-connected :
    forward_request memory (codes "/sock") (codes "{}") (read_http_request memory 5 0 100 start).1
    ≡ (ok 1, asked)
unfolding forward_request
asked-connected = refl

asked-answers : MemoryDelivers asked 1 (codes "[]\n")
unfolding forward_request as_bytes to_text request_head read_http_request read_first_line
    read_headers header_round header_length parse_content_length read_http_line http_line
    read_line_message_with_cap parse_request_line trim split_whitespace split_once starts_with
    eq_ignore_ascii_case parse from_utf8
asked-answers = refl

handle_http_connection-answered_example :
    (w' : Memory) × (handle_http_connection memory 2 5 0 (codes "/sock") path 100 start
      ≡ handle_http_connection memory 1 5 0 (codes "/sock") path 100 w')
    × (w'.outgoing 0
        ≡ (read_line_message memory 1 100 asked).1.outgoing 0
          ++ response_bytes (pop_if b'\r' (codes "[]")))
handle_http_connection-answered_example =
    handle_http_connection-answered 5 100 (omega arith) (omega arith) (client_flows 1) start asked 1
      (codes "/sock") path host_header (codes "{}") [] (codes "[]") [] small_request refl
      asked-connected (omega arith) (omega arith) asked-answers

handle_http_connection-not_found_example :
    (w' : Memory) × (handle_http_connection memory 2 5 0 (codes "/sock") (codes "/other") 100 start
      ≡ handle_http_connection memory 1 5 0 (codes "/sock") (codes "/other") 100 w')
    × (w'.outgoing 0
        ≡ (read_http_request memory 5 0 100 start).1.outgoing 0
          ++ as_bytes (error_head 404 (codes "Not Found")))
    × MemoryDelivers w' 0 []
handle_http_connection-not_found_example =
    handle_http_connection-not_found 5 100 (omega arith) (omega arith) (client_flows 0) start 1
      (codes "/sock") (codes "/other") path host_header (codes "{}") [] small_request (λ e. cc) refl

-- The client: stdin is stream 2, the server stream 1, and stdout stream 0.
abbrev asking : Memory
asking = record {
  incoming = set_at (set_at (λ _. []) 2 (codes "{}\n")) 1 (response_bytes (codes "[1]") ++ []);
  outgoing = λ _. [];
}

abbrev request_sent : Memory
request_sent =
    (write_http_request memory 1 path host_header (codes "{}")
      (read_line_message memory 2 100 asking).1).1

request_sent-written :
    write_http_request memory 1 path host_header
      (pop_if b'\r' (codes "{}"))
      (read_line_message memory 2 100 asking).1
    ≡ (ok tt, request_sent)
unfolding write_http_request
request_sent-written = refl

request_sent-answered : MemoryDelivers request_sent 1 (response_bytes (codes "[1]") ++ [])
unfolding write_http_request read_line_message read_line_message_with_cap
request_sent-answered = refl

run_http_client_on_stream-answered_example :
    (w' : Memory) × (run_http_client_on_stream memory 2 4 2 0 1 host_header path 100 asking
      ≡ run_http_client_on_stream memory 1 4 2 0 1 host_header path 100 w')
    × (w'.outgoing 0
        ≡ (read_http_response memory 4 1 100 request_sent).1.outgoing 0
          ++ (codes "[1]" ++ b'\n' ∷ []))
    × MemoryDelivers w' 1 []
run_http_client_on_stream-answered_example =
    run_http_client_on_stream-answered 4 100 (omega arith) (omega arith) (omega arith)
      (client_flows 1) asking request_sent request_sent 2 1 host_header path (codes "{}") []
      (codes "[1]") [] (omega arith) (omega arith) refl request_sent-written refl (omega arith)
      request_sent-answered
