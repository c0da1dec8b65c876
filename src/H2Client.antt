-- ===== src/H2Client.antt =====
-- The requests of the H2 clients: `start_h2_request`, `finish_h2_request`, `send_h2_request` and
-- `run_h2_client_on_stream` of tools/transport_bridge/src/main.rs.
pub mod Received
use muxly.Base.{
  ℕ, zero, suc, Bool, true, false, Option, none, some, List, [], ◌∷◌, ◌++◌, Bytes, Text, codes,
  ◌==◌, if◌then◌else◌,
}
use muxly.Outcome.{Result, ok, err, out_of_fuel, unexpected_h2_status}
use muxly.Host.{Host, Io, pure, fail, lift, ◌>>=◌, ◌>>◌}
use muxly.Line.{read_line_message}
use muxly.Decoder.{copy_h2_body_to_stdout}
use muxly.Net.{authority}

-- What the bridge takes from the h2 and http libraries on the client's side. A handle stands for a
-- stream, with the future of its response.
pub record H2Sender (host : Host) : Type 0 where
  -- `sender.clone().ready().await`
  pub ready : Io host.World (Unit {0})
  -- `Request::builder().method("POST").uri(uri).body(())`
  pub build_request : (uri : Text) → Result (Unit {0})
  -- `sender.send_request(request_head, false)`
  pub send_request : (uri : Text) → Io host.World host.Handle
  -- `send_stream.send_data(bytes, end_of_stream)`
  pub send_data : host.Handle → Bytes → Bool → Io host.World (Unit {0})
  -- `response.await`: the status, and what `body.data()` gives
  pub response : host.Handle → Io host.World (ℕ × List (Result Bytes))

module _ (host : Host) (h2 : H2Sender host) where
  open host use {World, Handle}
  open h2 use {ready, build_request, send_request, send_data, response}

  unfoldable pub start_h2_request : Text → ℕ → Text → Bytes → Io World Handle
  start_h2_request host_name port path request = do
    ready
    let uri = codes "http://" ++ (authority host_name port ++ path)
    lift (build_request uri)
    stream ← send_request uri
    send_data stream (request ++ b'\n' ∷ []) true
    pure stream

  unfoldable pub finish_h2_request : Handle → Io World (List (Result Bytes))
  finish_h2_request stream = do
    (status, body) ← response stream
    if status == 200 then pure body else fail (unexpected_h2_status status)

  unfoldable pub send_h2_request : Text → ℕ → Text → Bytes → Io World (List (Result Bytes))
  send_h2_request host_name port path request = do
    stream ← start_h2_request host_name port path request
    finish_h2_request stream

  -- The loop of `run_h2_client_on_stream`.
  unfoldable pub run_h2_client_on_stream :
      (rounds : ℕ) (stdin stdout : Handle) → Text → ℕ → Text → ℕ → Io World (Unit {0})
  run_h2_client_on_stream zero stdin stdout host_name port path max_message_bytes = fail out_of_fuel
  run_h2_client_on_stream (suc rounds) stdin stdout host_name port path max_message_bytes = do
    next ← read_line_message host stdin max_message_bytes
    elim next [
      | none ↦ pure tt
      | some request ↦ do
        body ← send_h2_request host_name port path request
        copy_h2_body_to_stdout host stdout body max_message_bytes
        run_h2_client_on_stream rounds stdin stdout host_name port path max_message_bytes
    ]
