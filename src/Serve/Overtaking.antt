-- ===== src/Serve/Overtaking.antt =====
-- The gate lets the streams through in their order, but `start_h2_stream` drops its guard before it
-- calls `LaneQueue::acquire`.
use muxly.Base.{ℕ, ◌+◌, ◌<◌, ◌≡◌, ap, ◌∙◌, arith, true, false, some, [], Bytes, usize_max}
use muxly.Outcome.{ok}
use muxly.Gate.{OrderedSequenceGateState}
use muxly.Gate
use muxly.LaneQueue.{LaneQueueState, enqueue, insert, remove}
use muxly.LaneQueue
use muxly.Lane.{Json}
use muxly.Serve.{
  started, waiting, reading, read, queued, holding, Server, move, change_lane, lane_of, accept,
  wait, enter_gate, leave_gate, arrive, enter_lane, Reach, here, next,
}
use muxly.Serve.Safety.{same_key_refl}

-- A gate that is free for a number lets it in, and is free for the next one afterwards.
enter_free :
    (g : OrderedSequenceGateState) (n : ℕ)
    → g ≡ record { busy = false; next_sequence = n }
    → Gate.try_acquire g n ≡ some (record { busy = true; next_sequence = n })
unfolding Gate.try_acquire
enter_free g n e = rw e (ground arith)

release_free :
    (n : ℕ)
    → n + 1 < usize_max
    → Gate.release (record { busy = true; next_sequence = n })
      ≡ record { busy = false; next_sequence = n + 1 }
unfolding Gate.release
release_free n lt = ground arith

-- A request that enters a lane without another one is let in.
enter_empty :
    (q : LaneQueueState) (n : ℕ)
    → q ≡ record { busy = false; waiting_sequences = [] }
    → LaneQueue.try_acquire (enqueue q n) n ≡ some (record { busy = true; waiting_sequences = [] })
unfolding LaneQueue.try_acquire enqueue insert remove
enter_empty q n e = rw e (ground arith)

-- Two more streams have been accepted, and wait for the gate.
abbrev both_wait : Bytes → Bytes → Server → Server
both_wait request request' s =
    let n = s.next_accept_sequence in
    record s {
      next_accept_sequence = n + 1 + 1;
      progress =
          move (n + 1) (waiting (ok request'))
            (move n (waiting (ok request)) (move (n + 1) started (move n started s.progress)));
    }

abbrev past_gate : ℕ → Bytes → Server → Server
past_gate i request s = record s {
  gate = Gate.release (record { busy = true; next_sequence = i });
  progress = move i (read request) (move i (reading (ok request)) s.progress);
}

abbrev in_lane : Json → ℕ → Bytes → Server → Server
in_lane json i request s =
    let k = lane_of json request in
    record s {
      lanes =
          change_lane k (record { busy = true; waiting_sequences = [] })
            (change_lane k (enqueue (s.lanes k) i) s.lanes);
      progress = move i (holding request) (move i (queued request) s.progress);
    }

abbrev at_lane : Json → ℕ → Bytes → Server → Server
at_lane json i request s =
    let k = lane_of json request in
    record s {
      lanes = change_lane k (enqueue (s.lanes k) i) s.lanes;
      progress = move i (queued request) s.progress;
    }

module _ (json : Json) {r : Server} where
  both_wait-Reach :
      (s : Server) (request request' : Bytes)
      → s.next_accept_sequence + 1 < usize_max
      → Reach json r s
      → Reach json r (both_wait request request' s)
  both_wait-Reach s request request' small before =
      let n = s.next_accept_sequence in
      next
        (next (next (next before (accept (omega arith))) (accept small))
          (wait n (ok request) (ground arith)))
        (wait (n + 1) (ok request') (ground arith))

  past_gate-Reach :
      (s : Server) (i : ℕ) (request : Bytes)
      → s.gate ≡ record { busy = false; next_sequence = i }
      → s.progress i ≡ waiting (ok request)
      → Reach json r s
      → Reach json r (past_gate i request s)
  past_gate-Reach s i request free at before =
      next (next before (enter_gate i (ok request) _ at (enter_free s.gate i free)))
        (leave_gate i request (ground arith))

  in_lane-Reach :
      (s : Server) (i : ℕ) (request : Bytes)
      → s.lanes (lane_of json request) ≡ record { busy = false; waiting_sequences = [] }
      → s.progress i ≡ read request
      → Reach json r s
      → Reach json r (in_lane json i request s)
  in_lane-Reach s i request empty at before =
      let k = lane_of json request in
      next (next before (arrive i request at)) (
        enter_lane i request _ (ground arith)
          (rw (same_key_refl k) (enter_empty (s.lanes k) i empty)))

-- The lanes do not keep the order of the gate. From every state in which the gate is free for the next
-- stream to be accepted, and the lane of a request is free and empty, the server can reach a state in
-- which this stream has read that request and is past the gate while the one accepted behind it, with
-- a request of the same lane, still waits for the gate, and from there a state in which the second
-- stream holds the guard of the lane and the first waits in its queue. The numbers of both are below
-- 2^64 - 1.
pub lane_overtaking :
    (json : Json) (s : Server) (request request' : Bytes)
    → s.gate ≡ record { busy = false; next_sequence = s.next_accept_sequence }
    → s.lanes (lane_of json request) ≡ record { busy = false; waiting_sequences = [] }
    → lane_of json request' ≡ lane_of json request
    → s.next_accept_sequence + 1 < usize_max
    → (u t : Server) × Reach json s u
      × (u.progress s.next_accept_sequence ≡ read request)
      × (u.progress (s.next_accept_sequence + 1) ≡ waiting (ok request'))
      × Reach json u t
      × (t.progress s.next_accept_sequence ≡ queued request)
      × (t.progress (s.next_accept_sequence + 1) ≡ holding request')
lane_overtaking json s request request' free empty same small =
    let n = s.next_accept_sequence in
    let w : Server = both_wait request request' s in
    let u : Server = past_gate n request w in
    let v : Server = past_gate (n + 1) request' u in
    let h : Server = in_lane json (n + 1) request' v in
    (
      u,
      at_lane json n request h,
      past_gate-Reach json w n request free (ground arith)
          (both_wait-Reach json s request request' small here),
      ground arith,
      ground arith,
      next
          (in_lane-Reach json v (n + 1) request' (ap s.lanes same ∙ empty) (ground arith)
            (past_gate-Reach json u (n + 1) request' (release_free n small) (ground arith) here))
          (arrive n request (ground arith)),
      ground arith,
      ground arith,
    )
