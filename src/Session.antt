-- ===== src/Session.antt =====
-- HTTP connections from end to end: `run_http_client_on_stream` and `handle_http_connection` of
-- tools/transport_bridge/src/main.rs. `fuel` is for the lines of a head, `rounds` for the messages.
pub mod Answers
pub mod Requests
use muxly.Base.{
  ℕ, zero, suc, Bool, true, false, Option, none, some, List, [], ◌∷◌, Bytes, Text, codes, same,
}
use muxly.Outcome.{Result, ok, err, ok_or, out_of_fuel, upstream_closed}
use muxly.Host.{Host, Io, pure, fail, lift, ◌>>=◌, ◌>>◌}
use muxly.Line.{read_line_message}
use muxly.Http.{
  HttpRequest, read_http_request, read_http_response, write_http_request, write_http_response,
  write_http_error,
}
use muxly.Upstream.{forward_request}

module _ (host : Host) where
  open host use {World, Handle, write_all, flush}

  unfoldable pub run_http_client_on_stream :
      (rounds fuel : ℕ) (stdin stdout network : Handle) (host_header path : Text)
      (max_message_bytes : ℕ)
      → Io World (Unit {0})
  run_http_client_on_stream zero fuel stdin stdout network host_header path max_message_bytes =
      fail out_of_fuel
  run_http_client_on_stream (suc rounds) fuel stdin stdout network host_header path
        max_message_bytes =
      do
        next ← read_line_message host stdin max_message_bytes
        elim next [
          | none ↦ pure tt
          | some request_body ↦ do
            write_http_request host network path host_header request_body
            flush network
            response_body ← read_http_response host fuel network max_message_bytes
            write_all stdout response_body
            write_all stdout (b'\n' ∷ [])
            flush stdout
            run_http_client_on_stream rounds fuel stdin stdout network host_header path
                max_message_bytes
        ]

  -- A round of `handle_http_connection`, by whether the path is the expected one.
  unfoldable pub answer_request : Bool → Handle → Text → Bytes → ℕ → Io World (Unit {0})
  answer_request false client upstream_unix body max_message_bytes = do
    write_http_error host client 404 (codes "Not Found")
    flush client
  answer_request true client upstream_unix body max_message_bytes = do
    upstream ← forward_request host upstream_unix body
    reply ← read_line_message host upstream max_message_bytes
    response ← lift (ok_or reply upstream_closed)
    write_http_response host client response
    flush client

  unfoldable pub handle_http_connection :
      (rounds fuel : ℕ) (client : Handle) (upstream_unix path : Text) (max_message_bytes : ℕ)
      → Io World (Unit {0})
  handle_http_connection zero fuel client upstream_unix path max_message_bytes = fail out_of_fuel
  handle_http_connection (suc rounds) fuel client upstream_unix path max_message_bytes = do
    next ← read_http_request host fuel client max_message_bytes
    elim next [
      | none ↦ pure tt
      | some request ↦ do
        answer_request (same request.path path) client upstream_unix request.body max_message_bytes
        handle_http_connection rounds fuel client upstream_unix path max_message_bytes
    ]
