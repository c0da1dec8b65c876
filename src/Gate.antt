-- ===== src/Gate.antt =====
-- `OrderedSequenceGate` of tools/transport_bridge/src/main.rs, and the streams that go through it on
-- their way to their request bodies: `handle_h2_connection` and the first part of `start_h2_stream`.
pub mod Order
pub mod Stall
use muxly.Base.{
  ℕ, ◌+◌, ◌%◌, ◌^◌, ◌<◌, ◌≡◌, Bool, true, false, not, ◌&&◌, Option, none, some, ◌==◌, if◌then◌else◌,
  usize_max,
}

pub record OrderedSequenceGateState : Type 0 where
  pub busy : Bool
  pub next_sequence : ℕ  -- u64

-- `OrderedSequenceGate::default`
unfoldable pub new_gate : OrderedSequenceGateState
new_gate = record { busy = false; next_sequence = 1 }

-- One pass of the loop of `acquire` under the mutex: the new state where the pass returns the guard;
-- `none` where the caller waits to be notified.
unfoldable pub try_acquire : OrderedSequenceGateState → ℕ → Option OrderedSequenceGateState
try_acquire state sequence =
    if not state.busy && state.next_sequence == sequence
    then some (record state { busy = true })
    else none

-- `release`, which the drop of the guard calls. Every waiting task is notified, and makes a pass.
unfoldable pub release : OrderedSequenceGateState → OrderedSequenceGateState
release state = record state { busy = false; next_sequence = (state.next_sequence + 1) % 2 ^ 64 }

-- Where the task of a stream stands.
pub data Stage : Type 0 where
  absent : Stage  -- no stream with this sequence number has been accepted
  started : Stage  -- the path has not been compared
  rejected : Stage  -- another path: answered with 404, and the task has ended
  waiting : Stage  -- in `acquire`
  reading : Stage  -- holds the guard
  left : Stage  -- the guard has been dropped, whether the body was read or refused

-- All tasks that share a gate, by their sequence numbers.
pub record Server : Type 0 where
  pub gate : OrderedSequenceGateState
  pub next_accept_sequence : ℕ  -- an `AtomicU64`
  pub stage : ℕ → Stage

abbrev pub update : (ℕ → Stage) → ℕ → Stage → ℕ → Stage
update f i p j = if j == i then p else f j

-- `run_h2_server` before the first connection.
unfoldable pub new_server : Server
unfolding new_gate
new_server = record { gate = new_gate; next_accept_sequence = 1; stage = λ _. absent }

-- A step of one task, in any order. `accept` stands for the `fetch_add` of `handle_h2_connection`,
-- for fewer than 2^64 - 1 streams, so that it does not wrap around.
pub data Step (s : Server) : Server → Type 0 where
  accept :
      s.next_accept_sequence < usize_max
      → Step s (record s {
        next_accept_sequence = s.next_accept_sequence + 1;
        stage = update s.stage s.next_accept_sequence started;
      })
  -- `request.uri().path() != expected_path`: the function returns before it calls `acquire`
  reject : (i : ℕ) → s.stage i ≡ started → Step s (record s { stage = update s.stage i rejected })
  wait : (i : ℕ) → s.stage i ≡ started → Step s (record s { stage = update s.stage i waiting })
  enter :
      (i : ℕ) (g : OrderedSequenceGateState)
      → s.stage i ≡ waiting
      → try_acquire s.gate i ≡ some g
      → Step s (record s { gate = g; stage = update s.stage i reading })
  leave :
      (i : ℕ)
      → s.stage i ≡ reading
      → Step s (record s { gate = release s.gate; stage = update s.stage i left })

pub data Reach (s : Server) : Server → Type 0 where
  here : Reach s s
  next : {t u : Server} → Reach s t → Step t u → Reach s u
