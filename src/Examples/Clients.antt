-- ===== src/Examples/Clients.antt =====
-- The session client at a concrete run of its loop.
use muxly.Base.{◌≡◌, refl, true, false, some, List, [], ◌∷◌, ◌++◌, All}
use muxly.Outcome.{ok, err, connection_ended_early}
use muxly.SessionClient.{
  ClientState, new_client, Event, stdin_ended, request_started, task_ended, connection_ended,
  is_enabled, take_event, session,
}
use muxly.SessionClient.Complete.{starts, completions, closings, IsGood, session_complete}

abbrev run : List Event
run = request_started ∷ request_started ∷ task_ended (ok tt) ∷ stdin_ended ∷ task_ended (ok tt) ∷ []

abbrev last : ClientState
last = record { stdin_closed = true; tasks = 0; connection_done = false }

run-ends : session run new_client ≡ some (ok last)
unfolding session new_client is_enabled take_event
run-ends = refl

connection_drops :
    session (request_started ∷ connection_ended (ok tt) ∷ []) new_client
    ≡ some (err connection_ended_early)
unfolding session new_client is_enabled take_event
connection_drops = refl

session_complete_example :
    (taken left : List Event) × (run ≡ taken ++ left)
    × All IsGood taken
    × (starts taken ≡ completions taken)
    × (closings taken ≡ 1)
session_complete_example = session_complete run last run-ends
