-- ===== src/Examples/Servers.antt =====
-- The whole H2 server at a concrete schedule: stream 2 is accepted after stream 1, and both reach the
-- lane of the root, where 1 holds the guard and 2 waits.
use muxly.Base.{ℕ, ◌+◌, ◌≡◌, refl, arith, true, none, [], Bytes, codes}
use muxly.Outcome.{ok}
use muxly.Gate
use muxly.Gate.{new_gate}
use muxly.LaneQueue
use muxly.LaneQueue.{LaneQueueState, new_queue, enqueue, insert, remove}
use muxly.Lane.{Json, root, classify_upstream_lane_key}
use muxly.Serve.{
  Progress, started, waiting, reading, read, queued, holding, Server, move, change_lane, new_server,
  accept, wait, enter_gate, leave_gate, arrive, enter_lane, Reach, here, next,
}
use muxly.Serve.Views.{gate_view, lane_view}
use muxly.Serve.GateView.{gate_refines}
use muxly.Serve.LaneView.{lane_refines}
use muxly.Serve.Safety.{lane_alone}
use muxly.Serve.Overtaking.{lane_overtaking}

-- No text is JSON: every request is on the lane of the root.
abbrev no_json : Json
no_json = record {
  Value = Unit {0};
  from_slice = λ _. none;
  get = λ _ _. none;
  as_str = λ _. none;
  as_u64 = λ _. none;
}

abbrev hello : Bytes
hello = codes "hello"

abbrev accepted : Server → Server
accepted s = record s {
  next_accept_sequence = s.next_accept_sequence + 1;
  progress = move s.next_accept_sequence started s.progress;
}

abbrev moved : ℕ → Progress → Server → Server
moved i p s = record s { progress = move i p s.progress }

abbrev in_gate : ℕ → Server → Server
in_gate i s = record s {
  gate = record s.gate { busy = true };
  progress = move i (reading (ok hello)) s.progress;
}

abbrev past_gate : ℕ → Server → Server
past_gate i s = record s { gate = Gate.release s.gate; progress = move i (read hello) s.progress }

abbrev at_lane : ℕ → Server → Server
at_lane i s = record s {
  lanes = change_lane root (enqueue (s.lanes root) i) s.lanes;
  progress = move i (queued hello) s.progress;
}

abbrev in_lane : ℕ → LaneQueueState → Server → Server
in_lane i q s = record s {
  lanes = change_lane root q s.lanes;
  progress = move i (holding hello) s.progress;
}

abbrev two_accepted : Server
two_accepted = accepted (accepted new_server)

abbrev one_waits : Server
one_waits = moved 1 (waiting (ok hello)) two_accepted

abbrev one_queued : Server
one_queued = at_lane 1 (past_gate 1 (in_gate 1 one_waits))

abbrev one_holds : Server
one_holds = in_lane 1 (record { busy = true; waiting_sequences = [] }) one_queued

one_waits-Reach : Reach no_json new_server one_waits
unfolding new_server
one_waits-Reach =
    next (next (next here (accept (omega arith))) (accept (omega arith))) (wait 1 (ok hello) refl)

one_queued-Reach : Reach no_json new_server one_queued
unfolding new_server new_gate Gate.try_acquire Gate.release classify_upstream_lane_key
one_queued-Reach =
    next
      (next
        (next one_waits-Reach
          (enter_gate 1 (ok hello) (record { busy = true; next_sequence = 1 }) refl refl))
        (leave_gate 1 hello refl))
      (arrive 1 hello refl)

one_holds-Reach : Reach no_json new_server one_holds
unfolding new_server new_gate new_queue Gate.release enqueue insert remove LaneQueue.try_acquire
    classify_upstream_lane_key
one_holds-Reach =
    next one_queued-Reach
      (enter_lane 1 hello (record { busy = true; waiting_sequences = [] }) refl refl)

gate_refines_example : Gate.Reach Gate.new_server (gate_view one_holds)
gate_refines_example = gate_refines no_json one_holds-Reach

lane_refines_example : LaneQueue.Reach LaneQueue.new_lane (lane_view no_json root one_holds)
lane_refines_example = lane_refines no_json root one_holds-Reach

lane_alone_example : ◌≡◌ {A = ℕ} 1 1
unfolding new_server
lane_alone_example = lane_alone no_json one_holds-Reach 1 1 hello hello refl refl refl

lane_overtaking_example :
    (u t : Server) × Reach no_json new_server u
    × (u.progress 1 ≡ read hello)
    × (u.progress 2 ≡ waiting (ok (codes "bye")))
    × Reach no_json u t
    × (t.progress 1 ≡ queued hello)
    × (t.progress 2 ≡ holding (codes "bye"))
unfolding new_server new_gate new_queue classify_upstream_lane_key
lane_overtaking_example =
    lane_overtaking no_json new_server hello (codes "bye") refl refl refl (omega arith)
