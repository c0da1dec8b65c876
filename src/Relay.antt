-- ===== src/Relay.antt =====
-- WebTransport requests, one on a stream each: `handle_h3wt_bi_stream`,
-- and the loop of `run_h3wt_client`, in tools/transport_bridge/src/main.rs.
pub mod Lines
pub mod Requests
use muxly.Base.{
  ℕ, zero, suc, Bool, true, false, not, Option, none, some, List, [], ◌∷◌, Bytes, Text, same,
  if◌then◌else◌,
}
use muxly.Outcome.{
  Result, ok, err, ok_or, out_of_fuel, upstream_closed, missing_h3wt_body, unexpected_h3wt_path,
}
use muxly.Host.{Host, Io, pure, fail, lift, ◌>>=◌, ◌>>◌}
use muxly.Line.{read_line_message}
use muxly.Upstream.{forward_request}

-- What the bridge takes from the wtransport library.
pub record H3 (host : Host) : Type 0 where
  -- `connection.open_bi().await?.await?` under its timeouts: the two directions of a new stream
  pub open_bi : Io host.World (host.Handle × host.Handle)
  -- `send_stream.finish()`
  pub finish : host.Handle → Io host.World (Unit {0})

module _ (host : Host) where
  open host use {World, Handle, write_all, flush}

  -- The loop that copies responses, line by line, to the end of the stream that they come from; it
  -- returns whether there has been one.
  unfoldable pub relay : ℕ → (reader writer : Handle) → ℕ → Bool → Io World Bool
  relay zero reader writer max_message_bytes wrote_response = fail out_of_fuel
  relay (suc fuel) reader writer max_message_bytes wrote_response = do
    next ← read_line_message host reader max_message_bytes
    elim next [
      | none ↦ pure wrote_response
      | some response ↦ do
        write_all writer response
        write_all writer (b'\n' ∷ [])
        flush writer
        relay fuel reader writer max_message_bytes true
    ]

  module _ (h3 : H3 host) where
    open h3 use {open_bi, finish}

    unfoldable pub handle_h3wt_bi_stream : ℕ → (send recv : Handle) → Text → ℕ → Io World (Unit {0})
    handle_h3wt_bi_stream fuel send recv upstream_unix max_message_bytes = do
      first ← read_line_message host recv max_message_bytes
      request ← lift (ok_or first missing_h3wt_body)
      upstream ← forward_request host upstream_unix request
      wrote_response ← relay fuel upstream send max_message_bytes false
      if not wrote_response then fail upstream_closed else finish send

    -- A round of the loop of `run_h3wt_client`.
    unfoldable pub h3wt_request : ℕ → (stdout : Handle) → Bytes → ℕ → Io World (Unit {0})
    h3wt_request fuel stdout request max_message_bytes = do
      (send_stream, recv_stream) ← open_bi
      write_all send_stream request
      write_all send_stream (b'\n' ∷ [])
      flush send_stream
      finish send_stream
      _ ← relay fuel recv_stream stdout max_message_bytes false
      pure tt

    unfoldable pub h3wt_requests :
        (rounds fuel : ℕ) → (stdin stdout : Handle) → ℕ → Io World (Unit {0})
    h3wt_requests zero fuel stdin stdout max_message_bytes = fail out_of_fuel
    h3wt_requests (suc rounds) fuel stdin stdout max_message_bytes = do
      next ← read_line_message host stdin max_message_bytes
      elim next [
        | none ↦ pure tt
        | some request ↦ do
          h3wt_request fuel stdout request max_message_bytes
          h3wt_requests rounds fuel stdin stdout max_message_bytes
      ]
