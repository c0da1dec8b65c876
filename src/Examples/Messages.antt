-- ===== src/Examples/Messages.antt =====
-- Messages, requests and bodies at concrete inputs.
use muxly.Base.{
  ◌≤◌, ◌≡◌, ◌≢◌, refl, Option, none, some, List, [], ◌∷◌, ◌++◌, arith, Bytes, Text, codes,
  usize_max,
}
use muxly.Outcome.{
  Result, ok, err, out_of_fuel, eof_in_headers, multiple_messages, message_exceeds_cap,
}
use muxly.Std.Decimal.{parse}
use muxly.Std.Utf8.{as_bytes, from_utf8}
use muxly.Std.Str.{starts_with, trim, split_whitespace, split_once, eq_ignore_ascii_case}
use muxly.Line.{read_line_message_with_cap, pop_if, read_line_message}
use muxly.Line.Framing.{Framed, read_line_message-Framed, read_line_message_wraps}
use muxly.Http.{
  read_first_line, header_round, header_length, parse_content_length, read_http_line, http_line,
  parse_request_line, read_headers, read_http_request, read_http_response, write_http_request,
  write_http_response,
}
use muxly.Http.Messages.{Sendable}
use muxly.Http.Wire.{read_http_request-write_http_request, read_http_response-write_http_response}
use muxly.Http.Cap.{read_headers_cap}
use muxly.Http.Fuel.{read_http_terminates}
use muxly.Decoder.{
  copy_chunks, push_chunk, drain_lines, finish, write_lines, new, read_h2_request_body,
  copy_h2_body_to_stdout,
}
use muxly.Decoder.Body.{joined, whole, read_h2_request_body_message, read_h2_request_body_two}
use muxly.Decoder.Output.{payload, output, copy_h2_body_to_stdout-written}
use muxly.Examples.Memory.{
  Memory, memory, memory_readable, memory_writable, MemoryDelivers, with_input,
}

abbrev two_lines : Memory
two_lines = with_input (codes "ab\r\ncd")

read_line_message-Framed_example :
    (r : Result (Option Bytes)) × (s' : Bytes) × (w' : Memory) × Framed 8 (codes "ab\r\ncd") r s'
    × (read_line_message memory 0 8 two_lines ≡ (r, w'))
    × MemoryDelivers w' 0 s'
read_line_message-Framed_example =
    read_line_message-Framed memory_readable two_lines 0 (codes "ab\r\ncd") 8 (omega arith) refl

read_line_message_runs : (read_line_message memory 0 8 two_lines).0 ≡ ok (some (codes "ab"))
unfolding read_line_message read_line_message_with_cap
read_line_message_runs = refl

-- A message of five bytes and its newline are over a cap of five.
read_line_message_cap :
    (read_line_message memory 0 5 (with_input (codes "abcde\n"))).0 ≡ err (message_exceeds_cap 5)
unfolding read_line_message read_line_message_with_cap
read_line_message_cap = refl

read_line_message_wraps_example :
    (w' : Memory) × (read_line_message memory 0 usize_max two_lines ≡ (ok none, w'))
    × MemoryDelivers w' 0 (codes "ab\r\ncd")
read_line_message_wraps_example =
    read_line_message_wraps memory_readable two_lines 0 (codes "ab\r\ncd") refl

abbrev pub path : Text
path = codes "/rpc"

abbrev pub host_header : Text
host_header = codes "localhost:80"

-- What a writer sent on a fresh stream, and a reader to whom it is delivered with more behind it.
abbrev sent : Memory
sent = (write_http_request memory 0 path host_header (codes "{}") (with_input [])).1

abbrev received : Memory
received = with_input (sent.outgoing 0 ++ codes "POST")

pub small_request : Sendable 100 path host_header (codes "{}")
unfolding as_bytes
small_request = record {
  path_ne_nil = λ e. cc;
  path_solid = (refl, (refl, (refl, (refl, tt))));
  path_scalar = omega arith;
  path_fits = omega arith;
  host_scalar = omega arith;
  host_line = omega arith;
  host_fits = omega arith;
  body_fits = omega arith;
  room = omega arith;
}

read_http_request-write_http_request_example :
    (v' : Memory) × (read_http_request memory 5 0 100 received
      ≡ (ok (some (record { path = path; body = codes "{}" })), v'))
    × MemoryDelivers v' 0 (codes "POST")
unfolding write_http_request
read_http_request-write_http_request_example =
    read_http_request-write_http_request memory_writable memory_readable 5 100 (omega arith)
      (with_input []) received 0 0 path host_header (codes "{}") (codes "POST") (omega arith)
      small_request refl refl refl

abbrev answered : Memory
answered =
    with_input ((write_http_response memory 0 (codes "[1]") (with_input [])).1.outgoing 0 ++ [])

read_http_response-write_http_response_example :
    (v' : Memory) × (read_http_response memory 4 0 100 answered ≡ (ok (codes "[1]"), v'))
    × MemoryDelivers v' 0 []
unfolding write_http_response
read_http_response-write_http_response_example =
    read_http_response-write_http_response memory_writable memory_readable 4 100 (omega arith)
      (with_input []) answered 0 0 (codes "[1]") [] (omega arith) (omega arith) (omega arith) refl
      refl refl

-- A run of the server's side on a request as another client may write it.
read_http_request_runs :
    (read_http_request memory 9 0 100
      (with_input (codes "\r\nPOST /rpc HTTP/1.1\r\ncontent-length: 2\r\n\r\n{}"))).0
    ≡ ok (some (record { path = path; body = codes "{}" }))
unfolding read_http_request read_first_line read_headers header_round header_length
    parse_content_length read_http_line http_line read_line_message_with_cap parse_request_line trim
    split_whitespace split_once starts_with eq_ignore_ascii_case parse from_utf8
read_http_request_runs = refl

-- A request line and half a header.
abbrev broken_off : Bytes
broken_off = codes "POST /rpc HTTP/1.1\r\nConte"

read_http_terminates_example :
    ((read_http_request memory 30 0 100 (with_input broken_off)).0 ≢ err out_of_fuel)
    × ((read_http_response memory 30 0 100 (with_input broken_off)).0 ≢ err out_of_fuel)
read_http_terminates_example =
    read_http_terminates memory_readable 0 30 100 (with_input broken_off) broken_off refl
      (omega arith)

abbrev headers : Memory
headers = with_input (codes "Content-Length: 7\r\n\r\n")

read_headers_cap_example : 7 ≤ 100
unfolding read_headers header_round header_length parse_content_length read_http_line http_line
    read_line_message_with_cap trim split_once eq_ignore_ascii_case parse from_utf8
read_headers_cap_example = read_headers_cap memory 100 5 eof_in_headers 0 headers 7 refl

-- One message in three chunks.
abbrev chunks : List Bytes
chunks = codes "{\"a" ∷ codes "\":1}" ∷ codes "\n" ∷ []

read_h2_request_body_message_example :
    read_h2_request_body (whole chunks) 100 ≡ ok (pop_if b'\r' (codes "{\"a\":1}"))
unfolding joined
read_h2_request_body_message_example =
    read_h2_request_body_message chunks (codes "{\"a\":1}") 100 (omega arith) (omega arith) refl

read_h2_request_body_two_example :
    (read_h2_request_body (ok (codes "a\nb\n") ∷ []) 100 ≡ err multiple_messages)
    × (read_h2_request_body (ok (codes "a\n") ∷ ok (codes "b\n") ∷ []) 100 ≡ ok (codes "a"))
read_h2_request_body_two_example =
    read_h2_request_body_two (codes "a") (codes "b") 100 (omega arith) (omega arith) (omega arith)

abbrev events : List (Result Bytes)
events = ok (codes "x\ny") ∷ ok (codes "z") ∷ []

copy_h2_body_to_stdout-written_example :
    (copy_h2_body_to_stdout memory 1 events 10 (with_input [])).1.outgoing 1
    ≡ [] ++ output (payload events)
unfolding copy_h2_body_to_stdout copy_chunks push_chunk drain_lines finish write_lines split_once
    new
copy_h2_body_to_stdout-written_example =
    copy_h2_body_to_stdout-written memory_writable 1 events 10 (with_input []) refl
