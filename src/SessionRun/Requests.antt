-- ===== src/SessionRun/Requests.antt =====
-- The requests that the session client starts.
use muxly.Base.{
  ℕ, zero, suc, ◌+◌, ◌%◌, ◌^◌, ◌<◌, ◌≡◌, refl, sym, ap, ◌∙◌, arith, Bool, true, false, Option, none,
  some, List, [], ◌∷◌, ◌++◌, Bytes, Text, Lacks, length, length-append, usize_max, if◌then◌else◌,
}
use muxly.Outcome.{Result, ok, err}
use muxly.Host.{Host, Readable}
use muxly.Line.{pop_if, read_line_message}
use muxly.Line.Framing.{read_line_message_complete}
use muxly.H2Client.{H2Sender, start_h2_request}
use muxly.H2Client.Received.{Sent, start_h2_request-sent}
use muxly.SessionClient.{ClientState, Event, is_enabled, take_event, is_finished, continue, session}
use muxly.SessionRun.{
  Runtime, Branch, request_result, task_result, observe, after_branch, run_session, events,
}

behind-Lacks : (xs ys : Bytes) → Lacks b'\n' (xs ++ ys) → Lacks b'\n' ys
behind-Lacks [] ys h = h
behind-Lacks (x ∷ xs) ys (_, h) = behind-Lacks xs ys h

-- A task is joined, and another one is spawned.
joined_again :
    (state : ClientState)
    → 0 < state.tasks
    → record state { tasks = (elim state.tasks [ zero ↦ zero | suc n ↦ n ]) + 1 } ≡ state
joined_again state busy = ground arith

module _ (host : Host) (h2 : H2Sender host) (runtime : Runtime host) (stdin : host.Handle)
    (host_name : Text) (port : ℕ) (path : Text) (max : ℕ) where
  open host use {World, Handle}
  open runtime use {drop_read_until}

  abbrev loop : List Branch → ClientState → World → Option (Result ClientState) × World
  loop = run_session host h2 runtime stdin host_name port path max

  abbrev seen : List Branch → ClientState → World → List Event
  seen = events host h2 runtime stdin host_name port path max

  -- A round that goes on, or ends with an error, does so in the loop on events too.
  after_branch-continue :
      (taken : Result ClientState) (w : World) (branches : List Branch)
      → ((s : ClientState) → (loop branches s w).0 ≡ session (seen branches s w) s)
      → (after_branch host h2 runtime stdin host_name port path max
          (taken, w)
          (λ s v. loop branches s v)).0
        ≡ continue taken (λ s. session (elim taken [ err e ↦ [] | ok s' ↦ seen branches s' w ]) s)
  after_branch-continue (ok s) w branches ih = ih s
  after_branch-continue (err e) w branches ih = refl

  round-session :
      (finished enabled : Bool) (result : Option (Result ClientState))
      (again : Option (Result ClientState) × World) (rest : Option (Result ClientState))
      (w v : World)
      → again.0 ≡ rest
      → (if finished then (result, w) else if enabled then again else (none, v)).0
        ≡ (if finished then result else if enabled then rest else none)
  round-session true enabled result again rest w v e = refl
  round-session false true result again rest w v e = e
  round-session false false result again rest w v e = refl

  run_session-events :
      (branches : List Branch) (state : ClientState) (w : World)
      → (loop branches state w).0 ≡ session (seen branches state w) state
  unfolding run_session session events
  run_session-events [] state w = refl
  run_session-events (branch ∷ branches) state w =
      let seen_now = observe host h2 runtime stdin host_name port path max branch state w in
      let taken = take_event state seen_now.0 in
      round-session (is_finished state) (is_enabled state seen_now.0) (some (ok state)) _ _ w w (
        after_branch-continue taken seen_now.1 branches
          (λ s. run_session-events branches s seen_now.1))

  task_ended_round :
      (branches : List Branch) (state : ClientState) (w : World)
      → state.stdin_closed ≡ false
      → 0 < state.tasks
      → loop (task_result (ok tt) ∷ branches) state w
        ≡ loop branches
            (record state { tasks = elim state.tasks [ zero ↦ zero | suc n ↦ n ] })
            (drop_read_until stdin ((max + 1) % 2 ^ 64) b'\n' w)
  unfolding run_session is_enabled take_event
  task_ended_round branches state w opened busy = ground arith

  module _ (io : Readable host) (log : Sent host h2) (small : max < usize_max) where
    open io use {Delivers}
    open log use {sent}

    -- A line on stdin is sent as a request, and counts as a task.
    run_session-request :
        (branches : List Branch) (state : ClientState) (w v : World) (line rest : Bytes)
        (stream : Handle)
        → state.stdin_closed ≡ false
        → Lacks b'\n' line
        → length line < max
        → Delivers w stdin (line ++ b'\n' ∷ rest)
        → start_h2_request host h2 host_name port path
            (pop_if b'\r' line)
            (read_line_message host stdin max w).1
          ≡ (ok stream, v)
        → (loop (request_result ∷ branches) state w
            ≡ loop branches (record state { tasks = state.tasks + 1 }) v)
          × (sent v stream ≡ pop_if b'\r' line ++ b'\n' ∷ [])
    unfolding run_session is_enabled take_event
    run_session-request branches state w v line rest stream opened plain fits d starts =
        let (w₁, e, _) = read_line_message_complete io w stdin line rest max small plain fits d in
        let request = pop_if b'\r' line in
        let starts' =
          ap (λ p. start_h2_request host h2 host_name port path request p.1) (sym e) ∙ starts in
        (
          rw (e, starts', opened) refl,
          ap (λ p. sent p.1 stream) (sym starts')
              ∙ start_h2_request-sent log host_name port path request w₁ stream
                  (ap (λ p. p.0) starts'),
        )

    -- If a task ends well while one waits for a line, and the future of the read that is dropped then
    -- has taken the first part of the line off stdin, the client sends the rest of the line as a
    -- request, but for one carriage return at its end, and goes on in the same state, although the
    -- line, read without a break, is the two parts together. Stdin is open and there is a task; the
    -- line holds no newline and fits the cap with it; the cap is below `usize::MAX`; the request is
    -- started.
    pub run_session-cut :
        (branches : List Branch) (state : ClientState) (w v : World) (lost tail rest : Bytes)
        (stream : Handle)
        → state.stdin_closed ≡ false
        → 0 < state.tasks
        → Lacks b'\n' (lost ++ tail)
        → length (lost ++ tail) < max
        → Delivers w stdin ((lost ++ tail) ++ b'\n' ∷ rest)
        → Delivers (drop_read_until stdin ((max + 1) % 2 ^ 64) b'\n' w) stdin (tail ++ b'\n' ∷ rest)
        → start_h2_request host h2 host_name port path
            (pop_if b'\r' tail)
            (read_line_message host stdin max
              (drop_read_until stdin ((max + 1) % 2 ^ 64) b'\n' w)).1
          ≡ (ok stream, v)
        → ((read_line_message host stdin max w).0 ≡ ok (some (pop_if b'\r' (lost ++ tail))))
          × (loop (task_result (ok tt) ∷ request_result ∷ branches) state w ≡ loop branches state v)
          × (sent v stream ≡ pop_if b'\r' tail ++ b'\n' ∷ [])
    run_session-cut branches state w v lost tail rest stream opened busy plain fits d d' starts =
        let (_, e, _) =
          read_line_message_complete io w stdin (lost ++ tail) rest max small plain fits d in
        let joined : ClientState = record state {
          tasks = elim state.tasks [ zero ↦ zero | suc n ↦ n ];
        } in
        let w' = drop_read_until stdin ((max + 1) % 2 ^ 64) b'\n' w in
        let (run', sent') =
          run_session-request branches joined w' v tail rest stream opened
            (behind-Lacks lost tail plain) (omega (arith, length-append lost tail)) d' starts in
        (
          ap (λ p. p.0) e,
          task_ended_round (request_result ∷ branches) state w opened busy
              ∙ run'
              ∙ ap (λ s. loop branches s v) (joined_again state busy),
          sent',
        )
