-- ===== src/H3Client.antt =====
-- The loop of `run_h3wt_session_client` in tools/transport_bridge/src/main.rs. A request is read in the
-- loop, and sent by a task of its own, which copies the response to stdout.
pub mod Same
use muxly.Base.{
  ℕ, zero, suc, ◌+◌, ◌%◌, ◌^◌, Bool, true, false, not, ◌&&◌, Option, none, some, List, [], ◌∷◌,
  Bytes, ◌==◌, if◌then◌else◌,
}
use muxly.Outcome.{Error, Result, ok, err}
use muxly.Host.{Host}
use muxly.Line.{read_line_message}
use muxly.SessionRun.{Runtime}

pub record H3State : Type 0 where
  pub stdin_closed : Bool
  pub tasks : ℕ  -- the number of tasks in the `JoinSet`

unfoldable pub new_h3_client : H3State
new_h3_client = record { stdin_closed = false; tasks = 0 }

-- A branch of `select!` that completes.
pub data H3Branch : Type 0 where
  request_result : H3Branch
  task_result : Result (Unit {0}) → H3Branch

-- The body of the first branch, by what `read_line_message` returned. A request is spawned as a task,
-- which `h3wt_request` models.
unfoldable pub take_request : Result (Option Bytes) → H3State → Result H3State
take_request (err e) state = err e
take_request (ok none) state = ok (record state { stdin_closed = true })
take_request (ok (some request)) state = ok (record state { tasks = state.tasks + 1 })

-- The body of the second branch.
unfoldable pub take_task : Result (Unit {0}) → H3State → Result H3State
take_task (err e) state = err e
take_task (ok _) state = ok (record state { tasks = elim state.tasks [ zero ↦ zero | suc n ↦ n ] })

module _ (host : Host) (runtime : Runtime host) (stdin : host.Handle) (max_message_bytes : ℕ) where
  open host use {World}
  open runtime use {drop_read_until}

  abbrev pub next_round :
      Result H3State
      → World
      → (H3State → World → Option (Result H3State) × World)
      → Option (Result H3State) × World
  next_round (err e) w again = (some (err e), w)
  next_round (ok state) w again = again state w

  -- The world after the future of `read_line_message` has been dropped, where there is one.
  abbrev pub drop_request : H3State → World → World
  drop_request state w =
      if state.stdin_closed
      then w
      else drop_read_until stdin ((max_message_bytes + 1) % 2 ^ 64) b'\n' w

  -- The loop; `none` where it still waits, or where a branch cannot complete.
  unfoldable pub run_h3wt_session :
      List H3Branch → H3State → World → Option (Result H3State) × World
  run_h3wt_session [] state w =
      (if state.stdin_closed && state.tasks == 0 then some (ok state) else none, w)
  run_h3wt_session (request_result ∷ branches) state w =
      let (read, w') = read_line_message host stdin max_message_bytes w in
      let rest = next_round (take_request read state) w' (λ s v. run_h3wt_session branches s v) in
      if state.stdin_closed && state.tasks == 0
      then (some (ok state), w)
      else if not state.stdin_closed
      then rest
      else (none, w)
  run_h3wt_session (task_result r ∷ branches) state w =
      let rest =
        next_round (take_task r state) (drop_request state w)
          (λ s v. run_h3wt_session branches s v) in
      if state.stdin_closed && state.tasks == 0
      then (some (ok state), w)
      else if not (state.tasks == 0)
      then rest
      else (none, w)
