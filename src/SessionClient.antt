-- ===== src/SessionClient.antt =====
-- The select loop of `run_h2_session_client_on_stream` in tools/transport_bridge/src/main.rs: which
-- branch of `select!` completes, and with what, is an event; the events come in any order.
pub mod Complete
use muxly.Base.{
  ℕ, zero, suc, ◌+◌, Bool, true, false, not, ◌&&◌, ◌||◌, Option, none, some, List, [], ◌∷◌, ltb,
  ◌==◌, if◌then◌else◌,
}
use muxly.Outcome.{Error, Result, ok, err, connection_ended_early}

pub record ClientState : Type 0 where
  pub stdin_closed : Bool
  pub tasks : ℕ  -- the number of tasks in the `JoinSet`
  pub connection_done : Bool

unfoldable pub new_client : ClientState
new_client = record { stdin_closed = false; tasks = 0; connection_done = false }

pub data Event : Type 0 where
  -- `read_line_message` on stdin: an error, the end, or a request, which `start_h2_request` refuses
  -- with an error or starts
  read_failed : Error → Event
  stdin_ended : Event
  request_failed : Error → Event
  request_started : Event
  -- `tasks.join_next()`: how the task ended
  task_ended : Result (Unit {0}) → Event
  -- `&mut connection_task`
  connection_ended : Result (Unit {0}) → Event

-- The guards of the branches.
unfoldable pub is_enabled : ClientState → Event → Bool
is_enabled state (task_ended r) = not (state.tasks == 0)
is_enabled state (connection_ended r) = not state.connection_done
is_enabled state (read_failed e) = not state.stdin_closed
is_enabled state stdin_ended = not state.stdin_closed
is_enabled state (request_failed e) = not state.stdin_closed
is_enabled state request_started = not state.stdin_closed

-- The bodies of the branches; `tasks.len()` less one stands for the task that was joined.
unfoldable pub take_event : ClientState → Event → Result ClientState
take_event state (read_failed e) = err e
take_event state stdin_ended = ok (record state { stdin_closed = true })
take_event state (request_failed e) = err e
take_event state request_started = ok (record state { tasks = state.tasks + 1 })
take_event state (task_ended (err e)) = err e
take_event state (task_ended (ok _)) =
    ok (record state { tasks = elim state.tasks [ zero ↦ zero | suc n ↦ n ] })
take_event state (connection_ended (err e)) = err e
take_event state (connection_ended (ok _)) =
    if not state.stdin_closed || not (state.tasks == 0)
    then err connection_ended_early
    else ok (record state { connection_done = true })

-- The test at the top of the loop.
abbrev pub is_finished : ClientState → Bool
is_finished state = state.stdin_closed && state.tasks == 0

abbrev pub continue :
    Result ClientState → (ClientState → Option (Result ClientState)) → Option (Result ClientState)
continue (err e) again = some (err e)
continue (ok state) again = again state

-- The loop on the events in their order; `none` where it still waits, or an event cannot happen.
unfoldable pub session : List Event → ClientState → Option (Result ClientState)
session [] state = if is_finished state then some (ok state) else none
session (event ∷ events) state =
    if is_finished state
    then some (ok state)
    else if is_enabled state event
    then continue (take_event state event) (λ state'. session events state')
    else none
