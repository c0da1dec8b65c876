-- ===== src/SessionRun/Rounds.antt =====
-- One round of the loop of the session client.
use muxly.Base.{
  ℕ, ◌≡◌, ◌≢◌, refl, ap, arith, Bool, true, false, Option, none, some, List, ◌∷◌, Bytes, Text,
  if◌then◌else◌,
}
use muxly.Outcome.{Error, Result, ok, err}
use muxly.Host.{Host}
use muxly.Line.{read_line_message}
use muxly.H2Client.{H2Sender, start_h2_request}
use muxly.SessionClient.{
  ClientState, Event, request_started, request_failed, task_ended, connection_ended, is_enabled,
  take_event, is_finished,
}
use muxly.SessionRun.{
  Runtime, Branch, request_result, request_event, started_event, after_branch, run_session,
}

pub task_ended-open :
    (r : Result (Unit {0})) (state after : ClientState)
    → take_event state (task_ended r) ≡ ok after
    → after.stdin_closed ≡ state.stdin_closed
unfolding take_event
task_ended-open (ok u) state after e = ground arith
task_ended-open (err x) state after e = absurd (ground arith)

pub connection_ended-ne-ok :
    (r : Result (Unit {0})) (state after : ClientState)
    → state.stdin_closed ≡ false
    → take_event state (connection_ended r) ≢ ok after
unfolding take_event
connection_ended-ne-ok (ok u) state after opened e = ground arith
connection_ended-ne-ok (err x) state after opened e = ground arith

pub request_started-open :
    (state after : ClientState)
    → take_event state request_started ≡ ok after
    → after.stdin_closed ≡ state.stdin_closed
unfolding take_event
request_started-open state after e = ground arith

pub request_failed-ne-ok :
    (x : Error) (state after : ClientState) → take_event state (request_failed x) ≢ ok after
unfolding take_event
request_failed-ne-ok x state after e = ground arith

module _ (host : Host) (h2 : H2Sender host) (runtime : Runtime host) (stdin : host.Handle)
    (host_name : Text) (port : ℕ) (path : Text) (max : ℕ) where
  open host use {World, Handle}

  abbrev pub loop : List Branch → ClientState → World → Option (Result ClientState) × World
  loop = run_session host h2 runtime stdin host_name port path max

  -- A round that saw this event, in the world `v` after it.
  abbrev pub round :
      ClientState → World → Event → World → List Branch → Option (Result ClientState) × World
  round state w event v branches =
      if is_finished state
      then (some (ok state), w)
      else if is_enabled state event
      then after_branch host h2 runtime stdin host_name port path max (take_event state event, v)
          (λ s u. loop branches s u)
      else (none, w)

  -- A round of a loop that ends well, before the end of stdin has been read.
  pub record Went (last : ClientState) (state : ClientState) (event : Event) (v : World)
      (branches : List Branch) (p : Option (Result ClientState) × World) : Type 0 where
    pub after : ClientState
    pub took : take_event state event ≡ ok after
    pub onward : (loop branches after v).0 ≡ some (ok last)
    pub same_world : p.1 ≡ (loop branches after v).1

  after_branch-Went :
      (last state : ClientState) (event : Event) (taken : Result ClientState) (v : World)
      (branches : List Branch)
      → take_event state event ≡ taken
      → (after_branch host h2 runtime stdin host_name port path max
          (taken, v)
          (λ s u. loop branches s u)).0
        ≡ some (ok last)
      → Went last state event v branches (
          after_branch host h2 runtime stdin host_name port path max
            (taken, v)
            (λ s u. loop branches s u))
  after_branch-Went last state event (ok s) v branches took e = record {
    after = s;
    took = took;
    onward = e;
    same_world = refl;
  }
  after_branch-Went last state event (err x) v branches took e = absurd (ground arith)

  pub round-Went :
      (last state : ClientState) (w : World) (event : Event) (v : World) (branches : List Branch)
      → state.stdin_closed ≡ false
      → (round state w event v branches).0 ≡ some (ok last)
      → Went last state event v branches (round state w event v branches)
  round-Went last state w event v branches opened =
      goes (is_finished state) (is_enabled state event) (rw opened refl) _
        (after_branch-Went last state event (take_event state event) v branches refl)
    where
      goes :
          (finished enabled : Bool)
          → finished ≡ false
          → (p : Option (Result ClientState) × World)
          → (p.0 ≡ some (ok last) → Went last state event v branches p)
          → (if finished then (some (ok state), w) else if enabled then p else (none, w)).0
            ≡ some (ok last)
          → Went last state event v branches
              (if finished then (some (ok state), w) else if enabled then p else (none, w))
      goes true enabled f p there e = absurd (ground arith)
      goes false true f p there e = there e
      goes false false f p there e = absurd (ground arith)

  pub request_round :
      (branches : List Branch) (state : ClientState) (w : World) {p : Result (Option Bytes) × World}
      → read_line_message host stdin max w ≡ p
      → loop (request_result ∷ branches) state w ≡ (
          let (event, v) = request_event host h2 runtime stdin host_name port path max p in
          round state w event v branches)
  unfolding run_session
  request_round branches state w e =
      ap
        (λ p.
          let o = request_event host h2 runtime stdin host_name port path max p in
          round state w o.0 o.1 branches)
        e

  -- The round of a request, by how its start ended.
  pub start_round :
      (branches : List Branch) (state : ClientState) (w : World) (request : Bytes) (u : World)
      {r : Result Handle} {v : World}
      → start_h2_request host h2 host_name port path request u ≡ (r, v)
      → (let (event, x) =
            request_event host h2 runtime stdin host_name port path max (ok (some request), u) in
          round state w event x branches)
        ≡ round state w (started_event host h2 runtime stdin host_name port path max r) v branches
  start_round branches state w request u q =
      ap
        (λ p.
          round state w (started_event host h2 runtime stdin host_name port path max p.0) p.1
            branches)
        q
