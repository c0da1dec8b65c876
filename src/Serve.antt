-- ===== src/Serve.antt =====
-- The H2 server as a whole: all streams of all connections of `run_h2_server` in
-- tools/transport_bridge/src/main.rs, with the gate, the map of lanes, and the accept sequence that
-- they share. A step is what one task does between two points at which others can run.
pub mod Views
pub mod GateView
pub mod LaneView
pub mod Safety
pub mod Overtaking
use muxly.Base.{
  ℕ, ◌+◌, ◌<◌, ◌≡◌, Bool, true, false, ◌&&◌, Option, some, List, [], ◌∷◌, ◌++◌, Bytes, Text, same,
  ◌==◌, if◌then◌else◌, usize_max,
}
use muxly.Outcome.{Error, Result, ok, err}
use muxly.Gate.{OrderedSequenceGateState, new_gate}
use muxly.Gate
use muxly.LaneQueue.{LaneQueueState, new_queue, enqueue}
use muxly.LaneQueue
use muxly.Lane.{Json, UpstreamLaneKey, root, document, document_target, classify_upstream_lane_key}

-- `#[derive(Eq, PartialEq)]`
abbrev pub same_key : UpstreamLaneKey → UpstreamLaneKey → Bool
same_key root root = true
same_key (document p) (document p') = same p p'
same_key (document_target p t) (document_target p' t') = same p p' && same t t'
same_key _ _ = false

-- Where the task of a stream stands, with what it holds. `body` is what `read_h2_request_body` gives
-- once the task gets there.
pub data Progress : Type 0 where
  absent : Progress
  started : Progress
  rejected : Progress  -- another path: 404
  waiting : (body : Result Bytes) → Progress  -- in `OrderedSequenceGate::acquire`
  reading : (body : Result Bytes) → Progress  -- holds the guard of the gate
  refused : Error → Progress  -- a bad body: 400; the guard has been dropped
  read : (request : Bytes) → Progress  -- the guard has been dropped
  queued : (request : Bytes) → Progress  -- in the loop of `LaneQueue::acquire`
  holding : (request : Bytes) → Progress  -- holds the guard of its lane
  done : (request : Bytes) → Progress  -- has dropped it

-- The `HashMap` gives a lane that it does not have a new queue: a function stands for it.
pub record Server : Type 0 where
  pub gate : OrderedSequenceGateState
  pub lanes : UpstreamLaneKey → LaneQueueState
  pub next_accept_sequence : ℕ
  pub progress : ℕ → Progress

abbrev pub move : ℕ → Progress → (ℕ → Progress) → ℕ → Progress
move i p f j = if j == i then p else f j

abbrev pub change_lane :
    UpstreamLaneKey
    → LaneQueueState
    → (UpstreamLaneKey → LaneQueueState)
    → UpstreamLaneKey
    → LaneQueueState
change_lane key q lanes k = if same_key key k then q else lanes k

unfoldable pub new_server : Server
unfolding new_gate new_queue
new_server = record {
  gate = new_gate;
  lanes = λ _. new_queue;
  next_accept_sequence = 1;
  progress = λ _. absent;
}

module _ (json : Json) where
  abbrev pub lane_of : Bytes → UpstreamLaneKey
  lane_of = classify_upstream_lane_key json

  pub data Step (s : Server) : Server → Type 0 where
    accept :
        s.next_accept_sequence < usize_max
        → Step s (record s {
          next_accept_sequence = s.next_accept_sequence + 1;
          progress = move s.next_accept_sequence started s.progress;
        })
    reject :
        (i : ℕ)
        → s.progress i ≡ started
        → Step s (record s { progress = move i rejected s.progress })
    wait :
        (i : ℕ) (body : Result Bytes)
        → s.progress i ≡ started
        → Step s (record s { progress = move i (waiting body) s.progress })
    enter_gate :
        (i : ℕ) (body : Result Bytes) (g : OrderedSequenceGateState)
        → s.progress i ≡ waiting body
        → Gate.try_acquire s.gate i ≡ some g
        → Step s (record s { gate = g; progress = move i (reading body) s.progress })
    refuse :
        (i : ℕ) (e : Error)
        → s.progress i ≡ reading (err e)
        → Step s (record s { gate = Gate.release s.gate; progress = move i (refused e) s.progress })
    leave_gate :
        (i : ℕ) (request : Bytes)
        → s.progress i ≡ reading (ok request)
        → Step s
            (record s { gate = Gate.release s.gate; progress = move i (read request) s.progress })
    arrive :
        (i : ℕ) (request : Bytes)
        → s.progress i ≡ read request
        → Step s (record s {
          lanes = change_lane (lane_of request) (enqueue (s.lanes (lane_of request)) i) s.lanes;
          progress = move i (queued request) s.progress;
        })
    enter_lane :
        (i : ℕ) (request : Bytes) (q : LaneQueueState)
        → s.progress i ≡ queued request
        → LaneQueue.try_acquire (s.lanes (lane_of request)) i ≡ some q
        → Step s (record s {
          lanes = change_lane (lane_of request) q s.lanes;
          progress = move i (holding request) s.progress;
        })
    leave_lane :
        (i : ℕ) (request : Bytes)
        → s.progress i ≡ holding request
        → Step s (record s {
          lanes =
              change_lane (lane_of request) (LaneQueue.release (s.lanes (lane_of request))) s.lanes;
          progress = move i (done request) s.progress;
        })

  pub data Reach (s : Server) : Server → Type 0 where
    here : Reach s s
    next : {t u : Server} → Reach s t → Step t u → Reach s u
