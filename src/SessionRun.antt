-- ===== src/SessionRun.antt =====
-- The session client at work: `run_h2_session_client_on_stream` of tools/transport_bridge/src/main.rs
-- with its calls on stdin and on the H2 connection, and the task that it spawns for a response. The
-- branches of `select!` that complete, one after the other, are a list; SessionClient has the state of
-- the loop, its guards and the bodies of the branches.
pub mod Requests
pub mod Started
pub mod Rounds
pub mod Sends
pub mod InOrder
use muxly.Base.{
  ◌+◌, ◌%◌, ◌^◌, ℕ, Bool, true, false, Option, none, some, List, [], ◌∷◌, Bytes, Text,
  if◌then◌else◌,
}
use muxly.Outcome.{Result, ok, err}
use muxly.Host.{Host, Io, ◌>>=◌}
use muxly.Line.{read_line_message}
use muxly.Decoder.{copy_h2_body_to_stdout}
use muxly.H2Client.{H2Sender, start_h2_request, finish_h2_request}
use muxly.SessionClient.{
  ClientState, Event, read_failed, stdin_ended, request_failed, request_started, task_ended,
  connection_ended, is_enabled, take_event, is_finished,
}

-- What the loop takes from tokio beside its streams.
pub record Runtime (host : Host) : Type 0 where
  -- The future of `reader.take(limit).read_until(delimiter, ..)` is dropped before it is ready, after
  -- any number of polls. tokio documents that `read_until` is not cancellation safe: what it has read
  -- by then is gone with the future.
  pub drop_read_until : host.Handle → (limit delimiter : ℕ) → host.World → host.World
  -- `timeout(Duration::from_secs(20), ..)` around the future of a response
  pub timeout : Io host.World (List (Result Bytes)) → Io host.World (List (Result Bytes))

-- A branch of `select!` that completes. How a task or the connection ended is up to them.
pub data Branch : Type 0 where
  request_result : Branch
  task_result : Result (Unit {0}) → Branch
  connection_result : Result (Unit {0}) → Branch

module _ (host : Host) (h2 : H2Sender host) (runtime : Runtime host) where
  open host use {World, Handle}
  open runtime use {drop_read_until, timeout}

  -- The task that is spawned for a request that has been started.
  unfoldable pub response_task : Handle → (stdout : Handle) → ℕ → Io World (Unit {0})
  response_task stream stdout max_message_bytes = do
    response ← timeout (finish_h2_request host h2 stream)
    copy_h2_body_to_stdout host stdout response max_message_bytes

  module _ (stdin : Handle) (host_name : Text) (port : ℕ) (path : Text)
      (max_message_bytes : ℕ) where
    abbrev pub started_event : Result Handle → Event
    started_event (ok stream) = request_started
    started_event (err e) = request_failed e

    -- What comes of the first branch.
    abbrev pub request_event : Result (Option Bytes) × World → Event × World
    request_event (err e, w) = (read_failed e, w)
    request_event (ok none, w) = (stdin_ended, w)
    request_event (ok (some request), w) =
        let started = start_h2_request host h2 host_name port path request w in
        (started_event started.0, started.1)

    -- Another branch completes first: the future of `read_line_message` is dropped, where there is one.
    abbrev pub drop_request : ClientState → World → World
    drop_request state w =
        if state.stdin_closed
        then w
        else drop_read_until stdin ((max_message_bytes + 1) % 2 ^ 64) b'\n' w

    abbrev pub observe : Branch → ClientState → World → Event × World
    observe request_result state w =
        request_event (read_line_message host stdin max_message_bytes w)
    observe (task_result r) state w = (task_ended r, drop_request state w)
    observe (connection_result r) state w = (connection_ended r, drop_request state w)

    abbrev pub after_branch :
        Result ClientState × World
        → (ClientState → World → Option (Result ClientState) × World)
        → Option (Result ClientState) × World
    after_branch (err e, w) again = (some (err e), w)
    after_branch (ok state, w) again = again state w

    -- The loop; `none` where it still waits, or where a branch cannot complete.
    unfoldable pub run_session :
        List Branch → ClientState → World → Option (Result ClientState) × World
    run_session [] state w = (if is_finished state then some (ok state) else none, w)
    run_session (branch ∷ branches) state w =
        let (event, w') = observe branch state w in
        if is_finished state
        then (some (ok state), w)
        else if is_enabled state event
        then after_branch (take_event state event, w') (λ s v. run_session branches s v)
        else (none, w)

    -- The events that the branches stand for.
    unfoldable pub events : List Branch → ClientState → World → List Event
    events [] state w = []
    events (branch ∷ branches) state w =
        let (event, w') = observe branch state w in
        event ∷ (elim (take_event state event) [ err e ↦ [] | ok s ↦ events branches s w' ])
