-- ===== src/Stream.antt =====
-- One stream of the H2 server, from its request to the end of its response: `start_h2_stream`,
-- `finish_server_h2_stream`, `send_h2_error_response` and the task of `handle_h2_connection` in
-- tools/transport_bridge/src/main.rs. The calls on the shared gate and on the lanes are recorded in
-- order, the drops of the guards included; Gate and LaneQueue say what the calls do.
pub mod Calls
pub mod Responses
use muxly.Base.{
  ℕ, zero, suc, Bool, true, false, not, Option, none, some, List, [], ◌∷◌, ◌++◌, Bytes, Text, same,
  if◌then◌else◌,
}
use muxly.Outcome.{Result, ok, err, out_of_fuel, unexpected_h2_path, upstream_closed}
use muxly.Host.{Host, Io, pure, fail, lift, attempt, ◌>>=◌, ◌>>◌}
use muxly.Line.{read_line_message}
use muxly.Upstream.{forward_request}
use muxly.Decoder.{read_h2_request_body}
use muxly.Lane.{Json, UpstreamLaneKey, classify_upstream_lane_key, request_is_stream_open}

-- What the bridge takes from the h2 library.
pub record H2 (host : Host) : Type 0 where
  -- `respond.send_response(response, false)` with this status
  pub send_response : host.Handle → ℕ → Io host.World host.Handle
  -- `send.send_data(bytes, end_of_stream)`
  pub send_data : host.Handle → Bytes → Bool → Io host.World (Unit {0})

pub data Call : Type 0 where
  acquire_body : ℕ → Call
  release_body : Call
  acquire_lane : UpstreamLaneKey → ℕ → Call
  release_lane : UpstreamLaneKey → Call

-- The world, and the calls that the task of the stream has made.
pub record Task (World : Type 0) : Type 0 where
  pub world : World
  pub calls : List Call

abbrev pub call : {W : Type 0} → Call → Io (Task W) (Unit {0})
call c t = (ok tt, record t { calls = t.calls ++ c ∷ [] })

-- A step that leaves the gate and the lanes alone.
abbrev pub outside : {W A : Type 0} → Io W A → Io (Task W) A
outside m t = ((m t.world).0, record t { world = (m t.world).1 })

-- A guard, by its lane.
pub record ActiveServerH2Stream (Handle : Type 0) : Type 0 where
  pub upstream : Handle
  pub send : Handle
  pub lane_guard : Option UpstreamLaneKey

-- The drop of an `Option<LaneGuard>`.
unfoldable pub drop_guard : {W : Type 0} → Option UpstreamLaneKey → Io (Task W) (Unit {0})
drop_guard none = pure tt
drop_guard (some key) = call (release_lane key)

module _ (host : Host) (h2 : H2 host) where
  open host use {World, Handle, write_all, flush, connect_unix}
  open h2 use {send_response, send_data}

  unfoldable pub send_h2_error_response : Handle → ℕ → Io World (Unit {0})
  send_h2_error_response respond status = do
    send ← send_response respond status
    send_data send [] true

  -- The loop of `finish_server_h2_stream`, and the end of the response behind it.
  unfoldable pub forward_responses : ℕ → Handle → Handle → ℕ → Bool → Io World (Unit {0})
  forward_responses zero upstream send max_message_bytes wrote_response = fail out_of_fuel
  forward_responses (suc fuel) upstream send max_message_bytes wrote_response = do
    next ← read_line_message host upstream max_message_bytes
    elim next [
      | none ↦ elim wrote_response [ false ↦ fail upstream_closed | true ↦ send_data send [] true ]
      | some response ↦ do
        send_data send response false
        send_data send (b'\n' ∷ []) false
        forward_responses fuel upstream send max_message_bytes true
    ]

  -- However the loop ends, the guard is dropped behind it.
  unfoldable pub finish_server_h2_stream :
      ℕ → ActiveServerH2Stream Handle → ℕ → Io (Task World) (Unit {0})
  finish_server_h2_stream fuel active max_message_bytes = do
    ended ←
        attempt
          (outside (forward_responses fuel active.upstream active.send max_message_bytes false))
    drop_guard active.lane_guard
    lift ended

  -- What follows the response head, by what sending it returned: a request that opens a stream gives
  -- its guard back.
  unfoldable pub keep_guard :
      UpstreamLaneKey
      → Handle
      → (stream_open : Bool) → Result Handle
      → Io (Task World) (ActiveServerH2Stream Handle)
  keep_guard lane_key upstream stream_open (err e) = do call (release_lane lane_key); fail e
  keep_guard lane_key upstream false (ok send) =
      pure (record { upstream = upstream; send = send; lane_guard = some lane_key })
  keep_guard lane_key upstream true (ok send) = do
    call (release_lane lane_key)
    pure (record { upstream = upstream; send = send; lane_guard = none })

  -- What follows the request to the daemon, by what `forward_request` returned.
  unfoldable pub answer :
      Handle
      → UpstreamLaneKey
      → (stream_open : Bool) → Result Handle
      → Io (Task World) (ActiveServerH2Stream Handle)
  answer respond lane_key stream_open (err e) = do
    _ ← attempt (outside (send_h2_error_response respond 502))
    call (release_lane lane_key)
    fail e
  answer respond lane_key stream_open (ok upstream) = do
    answered ← attempt (outside (send_response respond 200))
    keep_guard lane_key upstream stream_open answered

  module _ (json : Json) where
    -- What follows the request's body, by what `read_h2_request_body` returned. An early return drops
    -- the guard that is held.
    unfoldable pub take_lane :
        (respond : Handle) (upstream_unix : Text) (accept_sequence : ℕ)
        → Result Bytes
        → Io (Task World) (ActiveServerH2Stream Handle)
    take_lane respond upstream_unix accept_sequence (err e) = do
      _ ← attempt (outside (send_h2_error_response respond 400))
      call release_body
      fail e
    take_lane respond upstream_unix accept_sequence (ok request) = do
      call release_body
      let lane_key = classify_upstream_lane_key json request
      call (acquire_lane lane_key accept_sequence)
      forwarded ← attempt (outside (forward_request host upstream_unix request))
      answer respond lane_key (request_is_stream_open json request) forwarded

    unfoldable pub start_h2_stream :
        (path : Text) (body : List (Result Bytes)) (respond : Handle)
        (upstream_unix expected_path : Text) (max_message_bytes accept_sequence : ℕ)
        → Io (Task World) (ActiveServerH2Stream Handle)
    start_h2_stream path body respond upstream_unix expected_path max_message_bytes
          accept_sequence =
        elim (same path expected_path) [
          | false ↦ do outside (send_h2_error_response respond 404); fail (unexpected_h2_path path)
          | true ↦ do
            call (acquire_body accept_sequence)
            take_lane respond upstream_unix accept_sequence
                (read_h2_request_body body max_message_bytes)
        ]

    -- The task that `handle_h2_connection` spawns; its errors are only logged.
    unfoldable pub run_h2_stream :
        ℕ
        → (path : Text) (body : List (Result Bytes)) (respond : Handle)
          (upstream_unix expected_path : Text) (max_message_bytes accept_sequence : ℕ)
        → Io (Task World) (Unit {0})
    run_h2_stream fuel path body respond upstream_unix expected_path max_message_bytes
          accept_sequence =
        do
          active ←
              start_h2_stream path body respond upstream_unix expected_path max_message_bytes
                accept_sequence
          finish_server_h2_stream fuel active max_message_bytes
