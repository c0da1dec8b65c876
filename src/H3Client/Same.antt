-- ===== src/H3Client/Same.antt =====
-- The loops of the two session clients.
use muxly.Base.{
  ℕ, ◌≡◌, refl, ap, ◌∙◌, Bool, true, false, not, Option, none, some, List, [], ◌∷◌, Bytes, ◌==◌,
  if◌then◌else◌,
}
use muxly.Outcome.{Result, ok, err}
use muxly.Host.{Host}
use muxly.Line.{read_line_message}
use muxly.SessionClient.{
  ClientState, Event, read_failed, stdin_ended, request_started, task_ended, is_enabled, take_event,
  is_finished, continue, session,
}
use muxly.SessionRun.{Runtime}
use muxly.H3Client.{
  H3State, H3Branch, request_result, task_result, take_request, take_task, next_round, drop_request,
  run_h3wt_session,
}

-- The state of the H2 session client that it stands for: its connection goes on.
abbrev pub as_client : H3State → ClientState
as_client s = record { stdin_closed = s.stdin_closed; tasks = s.tasks; connection_done = false }

abbrev pub as_result : Result H3State → Result ClientState
as_result (ok s) = ok (as_client s)
as_result (err e) = err e

abbrev pub as_outcome : Option (Result H3State) → Option (Result ClientState)
as_outcome none = none
as_outcome (some r) = some (as_result r)

-- What the H2 session client calls the result of its first branch.
abbrev pub read_event : Result (Option Bytes) → Event
read_event (err e) = read_failed e
read_event (ok none) = stdin_ended
read_event (ok (some request)) = request_started

take_request-event :
    (r : Result (Option Bytes)) (s : H3State)
    → as_result (take_request r s) ≡ take_event (as_client s) (read_event r)
unfolding take_request take_event
take_request-event (err e) s = refl
take_request-event (ok none) s = refl
take_request-event (ok (some request)) s = refl

take_task-event :
    (r : Result (Unit {0})) (s : H3State)
    → as_result (take_task r s) ≡ take_event (as_client s) (task_ended r)
unfolding take_task take_event
take_task-event (err e) s = refl
take_task-event (ok u) s = refl

finished_outcome :
    (finished : Bool) (s : H3State)
    → as_outcome (if finished then some (ok s) else none)
      ≡ (if finished then some (ok (as_client s)) else none)
finished_outcome true s = refl
finished_outcome false s = refl

read_event-is_enabled :
    (r : Result (Option Bytes)) (s : H3State)
    → not s.stdin_closed ≡ is_enabled (as_client s) (read_event r)
unfolding is_enabled
read_event-is_enabled (err e) s = refl
read_event-is_enabled (ok none) s = refl
read_event-is_enabled (ok (some request)) s = refl

-- A round of the H2 loop, by whether its branch is enabled and what comes of it.
abbrev one_round : H3State → Bool → Option (Result ClientState) → Option (Result ClientState)
one_round s enabled rest =
    if is_finished (as_client s) then some (ok (as_client s)) else if enabled then rest else none

module _ (host : Host) (runtime : Runtime host) (stdin : host.Handle) (max : ℕ) where
  open host use {World}

  abbrev run : List H3Branch → H3State → World → Option (Result H3State) × World
  run = run_h3wt_session host runtime stdin max

  -- The events that the branches stand for.
  unfoldable pub h3_events : List H3Branch → H3State → World → List Event
  h3_events [] s w = []
  h3_events (request_result ∷ branches) s w =
      let (read, w') = read_line_message host stdin max w in
      read_event read
      ∷ (elim (take_request read s) [ err e ↦ [] | ok s' ↦ h3_events branches s' w' ])
  h3_events (task_result r ∷ branches) s w = task_ended r ∷ (elim (take_task r s) [
    | err e ↦ []
    | ok s' ↦ h3_events branches s' (drop_request host runtime stdin max s w)
  ])

  next_round-continue :
      (taken : Result H3State) (w : World) (branches : List H3Branch)
      → ((s : H3State)
          → as_outcome (run branches s w).0 ≡ session (h3_events branches s w) (as_client s))
      → as_outcome (next_round host runtime stdin max taken w (λ s v. run branches s v)).0
        ≡ continue
            (as_result taken)
            (λ s. session (elim taken [ err e ↦ [] | ok s' ↦ h3_events branches s' w ]) s)
  next_round-continue (ok s) w branches ih = ih s
  next_round-continue (err e) w branches ih = refl

  -- Guards and tests that two loops share.
  same_round :
      (finished enabled : Bool) (s : H3State) (w v : World) (rest : Option (Result H3State) × World)
      (rest' : Option (Result ClientState))
      → as_outcome rest.0 ≡ rest'
      → as_outcome (if finished then (some (ok s), w) else if enabled then rest else (none, v)).0
        ≡ (if finished then some (ok (as_client s)) else if enabled then rest' else none)
  same_round true enabled s w v rest rest' e = refl
  same_round false true s w v rest rest' e = e
  same_round false false s w v rest rest' e = refl

  -- Whatever stdin, the tasks and the order of the branches: the loop of the WebTransport session
  -- client ends, fails or waits as the loop of the H2 session client does on the events that its
  -- branches stand for, with the same state.
  pub run_h3wt_session-session :
      (branches : List H3Branch) (s : H3State) (w : World)
      → as_outcome (run branches s w).0 ≡ session (h3_events branches s w) (as_client s)
  unfolding run_h3wt_session session h3_events is_enabled
  run_h3wt_session-session [] s w = finished_outcome (is_finished (as_client s)) s
  run_h3wt_session-session (request_result ∷ branches) s w =
      let (read, w') = read_line_message host stdin max w in
      let taken = take_request read s in
      let rest = λ (s' : ClientState).
        session (elim taken [ err e ↦ [] | ok s' ↦ h3_events branches s' w' ]) s' in
      let opened = not s.stdin_closed in
      same_round (is_finished (as_client s)) opened s w w _ (continue (as_result taken) rest)
        (next_round-continue taken w' branches (λ s'. run_h3wt_session-session branches s' w'))
      ∙ ap (λ r. one_round s opened (continue r rest)) (take_request-event read s)
      ∙ ap (λ e. one_round s e (continue (take_event (as_client s) (read_event read)) rest))
          (read_event-is_enabled read s)
  run_h3wt_session-session (task_result r ∷ branches) s w =
      let w' = drop_request host runtime stdin max s w in
      let taken = take_task r s in
      let rest = λ (s' : ClientState).
        session (elim taken [ err e ↦ [] | ok s' ↦ h3_events branches s' w' ]) s' in
      let busy = not (s.tasks == 0) in
      same_round (is_finished (as_client s)) busy s w w _ (continue (as_result taken) rest)
        (next_round-continue taken w' branches (λ s'. run_h3wt_session-session branches s' w'))
      ∙ ap (λ t. one_round s busy (continue t rest)) (take_task-event r s)
