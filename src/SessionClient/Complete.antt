-- ===== src/SessionClient/Complete.antt =====
-- When the session client reports success.
use muxly.Base.{
  ℕ, suc, ◌+◌, ◌≡◌, refl, ap, arith, Bool, true, false, Option, some, ◌⊎◌, inl, inr, List, [], ◌∷◌,
  ◌++◌, All, Bool-cases,
}
use muxly.Outcome.{Result, ok, err}
use muxly.SessionClient.{
  ClientState, new_client, Event, read_failed, stdin_ended, request_failed, request_started,
  task_ended, connection_ended, is_enabled, take_event, is_finished, continue, session,
}

abbrev pub starts : List Event → ℕ
starts [] = 0
starts (request_started ∷ events) = suc (starts events)
starts (_ ∷ events) = starts events

abbrev pub completions : List Event → ℕ
completions [] = 0
completions (task_ended (ok _) ∷ events) = suc (completions events)
completions (_ ∷ events) = completions events

abbrev pub closings : List Event → ℕ
closings [] = 0
closings (stdin_ended ∷ events) = suc (closings events)
closings (_ ∷ events) = closings events

-- Events that no error comes from, and the end of the connection is none of them.
abbrev pub IsGood : Event → Type 0
IsGood stdin_ended = Unit
IsGood request_started = Unit
IsGood (task_ended (ok _)) = Unit
IsGood _ = ⊥

abbrev pub open_ends : Bool → ℕ
open_ends true = 0
open_ends false = 1

-- The events up to the end of the loop.
pub record Completed (state : ClientState) (events : List Event) : Type 0 where
  pub taken : List Event
  pub left : List Event
  pub split : events ≡ taken ++ left
  pub good : All IsGood taken
  pub tasks_done : state.tasks + starts taken ≡ completions taken
  pub stdin_once : closings taken ≡ open_ends state.stdin_closed

finished-Completed :
    (state : ClientState) (events : List Event) → is_finished state ≡ true → Completed state events
finished-Completed state events e = record {
  taken = [];
  left = events;
  split = refl;
  good = tt;
  tasks_done = ground arith;
  stdin_once = ground arith;
}

-- A round that goes on.
record Round (event : Event) (events : List Event) (state last : ClientState) : Type 0 where
  after : ClientState
  unfinished : is_finished state ≡ false
  enabled : is_enabled state event ≡ true
  took : take_event state event ≡ ok after
  onward : session events after ≡ some (ok last)

continued :
    (r : Result ClientState) (again : ClientState → Option (Result ClientState))
    (last : ClientState)
    → continue r again ≡ some (ok last)
    → (after : ClientState) × (r ≡ ok after) × (again after ≡ some (ok last))
continued (err e) again last q = absurd (ground arith)
continued (ok after) again last q = (after, refl, q)

session-Round :
    (event : Event) (events : List Event) (state last : ClientState)
    → session (event ∷ events) state ≡ some (ok last)
    → (is_finished state ≡ true) ⊎ Round event events state last
unfolding session
session-Round event events state last e = elim (Bool-cases (is_finished state)) [
  | inl f ↦ inl f
  | inr f ↦ elim (Bool-cases (is_enabled state event)) [
    | inr n ↦ absurd (ground (arith, f, n))
    | inl n ↦
        let (after, took, onward) =
          continued (take_event state event) (λ next. session events next) last
            (ground (arith, f, n)) in
        inr (record { after = after; unfinished = f; enabled = n; took = took; onward = onward })
  ]
]

extend :
    (event : Event) (state after : ClientState) (events : List Event)
    → is_finished state ≡ false
    → is_enabled state event ≡ true
    → take_event state event ≡ ok after
    → Completed after events
    → Completed state (event ∷ events)
unfolding take_event is_enabled
extend (read_failed x) state after events f n e c = absurd (ground arith)
extend stdin_ended state after events f n e c = record {
  taken = stdin_ended ∷ c.taken;
  left = c.left;
  split = ap (◌∷◌ stdin_ended) c.split;
  good = (tt, c.good);
  tasks_done = ground (arith, c.tasks_done);
  stdin_once = ground (arith, c.stdin_once);
}
extend (request_failed x) state after events f n e c = absurd (ground arith)
extend request_started state after events f n e c = record {
  taken = request_started ∷ c.taken;
  left = c.left;
  split = ap (◌∷◌ request_started) c.split;
  good = (tt, c.good);
  tasks_done = ground (arith, c.tasks_done);
  stdin_once = ground (arith, c.stdin_once);
}
extend (task_ended (err x)) state after events f n e c = absurd (ground arith)
extend (task_ended (ok u)) state after events f n e c = record {
  taken = task_ended (ok u) ∷ c.taken;
  left = c.left;
  split = ap (◌∷◌ (task_ended (ok u))) c.split;
  good = (tt, c.good);
  tasks_done = ground (arith, c.tasks_done);
  stdin_once = ground (arith, c.stdin_once);
}
extend (connection_ended (err x)) state after events f n e c = absurd (ground arith)
extend (connection_ended (ok u)) state after events f n e c = absurd (ground arith)

session-Completed :
    (events : List Event) (state last : ClientState)
    → session events state ≡ some (ok last)
    → Completed state events
unfolding session
session-Completed [] state last e = finished-Completed state [] (ground arith)
session-Completed (event ∷ events) state last e = elim (session-Round event events state last e) [
  | inl f ↦ finished-Completed state (event ∷ events) f
  | inr r ↦
      extend event state r.after events r.unfinished r.enabled r.took
        (session-Completed events r.after last r.onward)
]

-- When the loop of a new client ends without an error, the events up to there hold one end of stdin,
-- a successful end of a task for each request that was started, no error, and no end of the
-- connection: no request is dropped, and the end of the connection, clean or not, is always an error.
pub session_complete :
    (events : List Event) (last : ClientState)
    → session events new_client ≡ some (ok last)
    → (taken left : List Event) × (events ≡ taken ++ left)
      × All IsGood taken
      × (starts taken ≡ completions taken)
      × (closings taken ≡ 1)
unfolding new_client
session_complete events last e =
    let c = session-Completed events new_client last e in
    (c.taken, c.left, c.split, c.good, omega (arith, c.tasks_done), c.stdin_once)
