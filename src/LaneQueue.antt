-- ===== src/LaneQueue.antt =====
-- `LaneQueue` of tools/transport_bridge/src/main.rs, and the requests that go through the queue of
-- one lane: the second part of `start_h2_stream`, and the end of `finish_server_h2_stream`.
pub mod Waiting
pub mod Fifo
use muxly.Base.{
  ℕ, ◌<◌, ◌≡◌, Bool, true, false, not, ◌&&◌, ◌||◌, Option, none, some, List, [], ◌∷◌, ltb, ◌==◌,
  if◌then◌else◌,
}

-- A `BTreeSet<u64>`, in ascending order.
pub record LaneQueueState : Type 0 where
  pub busy : Bool
  pub waiting_sequences : List ℕ

-- `LaneQueueState::default`
unfoldable pub new_queue : LaneQueueState
new_queue = record { busy = false; waiting_sequences = [] }

-- `BTreeSet::insert`
unfoldable pub insert : ℕ → List ℕ → List ℕ
insert x [] = x ∷ []
insert x (y ∷ ys) = if ltb x y then x ∷ y ∷ ys else if x == y then y ∷ ys else y ∷ insert x ys

-- `BTreeSet::remove`
unfoldable pub remove : ℕ → List ℕ → List ℕ
remove x [] = []
remove x (y ∷ ys) = if x == y then ys else y ∷ remove x ys

-- `BTreeSet::first() == Some(sequence)`
abbrev pub is_first : ℕ → List ℕ → Bool
is_first x [] = false
is_first x (y ∷ ys) = y == x

-- The first block of `acquire`.
unfoldable pub enqueue : LaneQueueState → ℕ → LaneQueueState
enqueue state sequence = record state {
  waiting_sequences = insert sequence state.waiting_sequences;
}

-- One pass of the loop of `acquire` under the mutex; `none` where the caller waits to be notified.
unfoldable pub try_acquire : LaneQueueState → ℕ → Option LaneQueueState
try_acquire state sequence =
    if not state.busy && is_first sequence state.waiting_sequences
    then some (record { busy = true; waiting_sequences = remove sequence state.waiting_sequences })
    else none

-- `release`, which the drop of the guard calls.
unfoldable pub release : LaneQueueState → LaneQueueState
release state = record state { busy = false }

-- Where a request of the lane stands, from the moment its body has been read.
pub data Stage : Type 0 where
  outside : Stage  -- not in `acquire`: the body has been read, or no such request is there
  queued : Stage  -- in the loop of `acquire`
  holding : Stage  -- has the guard: it is sent to the daemon, or its response is forwarded
  done : Stage  -- the guard has been dropped

pub record Lane : Type 0 where
  pub queue : LaneQueueState
  pub stage : ℕ → Stage

abbrev pub update : (ℕ → Stage) → ℕ → Stage → ℕ → Stage
update f i p j = if j == i then p else f j

unfoldable pub new_lane : Lane
unfolding new_queue
new_lane = record { queue = new_queue; stage = λ _. outside }

-- A step of one request, in any order. A request may arrive at any time here, which is more than the
-- server has, where the gate lets it through first (Serve).
pub data Step (s : Lane) : Lane → Type 0 where
  arrive :
      (i : ℕ)
      → s.stage i ≡ outside
      → Step s (record { queue = enqueue s.queue i; stage = update s.stage i queued })
  enter :
      (i : ℕ) (q : LaneQueueState)
      → s.stage i ≡ queued
      → try_acquire s.queue i ≡ some q
      → Step s (record { queue = q; stage = update s.stage i holding })
  leave :
      (i : ℕ)
      → s.stage i ≡ holding
      → Step s (record { queue = release s.queue; stage = update s.stage i done })

pub data Reach (s : Lane) : Lane → Type 0 where
  here : Reach s s
  next : {t u : Lane} → Reach s t → Step t u → Reach s u
