-- ===== src/Serve/GateView.antt =====
-- The server refines the gate: what it does to the gate is a run of the streams of Gate.
use mathlib.Core.Path.{fun_ext, subst}
use muxly.Base.{ℕ, ◌≡◌, sym, ap}
use muxly.Gate
use muxly.Gate.{OrderedSequenceGateState, here, next}
use muxly.Lane.{Json}
use muxly.Serve.{
  Progress, absent, started, rejected, waiting, reading, refused, read, queued, holding, done,
  Server, move, new_server, Step, accept, reject, wait, enter_gate, refuse, leave_gate, arrive,
  enter_lane, leave_lane, Reach,
}
use muxly.Serve
use muxly.Serve.Views.{gate_stage, gate_view, view-move, view-move_same}

-- The view after a move that the gate knows of.
moved :
    (g : OrderedSequenceGateState) (n i : ℕ) (p : Progress) (f : ℕ → Progress)
    → ◌≡◌ {A = Gate.Server}
        (record {
          gate = g;
          next_accept_sequence = n;
          stage = Gate.update (λ j. gate_stage (f j)) i (gate_stage p);
        })
        (record { gate = g; next_accept_sequence = n; stage = λ j. gate_stage (move i p f j) })
moved g n i p f =
    let same_stage : ◌≡◌ {A = ℕ → Gate.Stage} (Gate.update (λ j. gate_stage (f j)) i (gate_stage p))
        (λ j. gate_stage (move i p f j)) =
      fun_ext λ j. sym (view-move gate_stage i p f j) in
    ap (λ (st : ℕ → Gate.Stage). record { gate = g; next_accept_sequence = n; stage = st })
      same_stage

-- And after one that it does not.
kept :
    (g : OrderedSequenceGateState) (n i : ℕ) (p : Progress) (f : ℕ → Progress)
    → gate_stage p ≡ gate_stage (f i)
    → ◌≡◌ {A = Gate.Server}
        (record { gate = g; next_accept_sequence = n; stage = λ j. gate_stage (f j) })
        (record { gate = g; next_accept_sequence = n; stage = λ j. gate_stage (move i p f j) })
kept g n i p f e =
    let same_stage : ◌≡◌ {A = ℕ → Gate.Stage} (λ j. gate_stage (f j))
        (λ j. gate_stage (move i p f j)) =
      fun_ext λ j. sym (view-move_same gate_stage i p f e j) in
    ap (λ (st : ℕ → Gate.Stage). record { gate = g; next_accept_sequence = n; stage = st })
      same_stage

module _ (json : Json) {o : Gate.Server} where
  one : {a b b' : Gate.Server} → Gate.Reach o a → Gate.Step a b → b ≡ b' → Gate.Reach o b'
  one r st e = subst (Gate.Reach o) e (next r st)

  step_refines :
      {s t : Server} → Step json s t → Gate.Reach o (gate_view s) → Gate.Reach o (gate_view t)
  step_refines {s} (accept lt) r =
      one r (Gate.accept lt) (moved s.gate _ s.next_accept_sequence started s.progress)
  step_refines {s} (reject i e) r =
      one r (Gate.reject i (ap gate_stage e)) (moved s.gate _ i rejected s.progress)
  step_refines {s} (wait i body e) r =
      one r (Gate.wait i (ap gate_stage e)) (moved s.gate _ i (waiting body) s.progress)
  step_refines {s} (enter_gate i body g e a) r =
      one r (Gate.enter i g (ap gate_stage e) a) (moved g _ i (reading body) s.progress)
  step_refines {s} (refuse i x e) r =
      one r (Gate.leave i (ap gate_stage e))
        (moved (Gate.release s.gate) _ i (refused x) s.progress)
  step_refines {s} (leave_gate i request e) r =
      one r (Gate.leave i (ap gate_stage e))
        (moved (Gate.release s.gate) _ i (read request) s.progress)
  step_refines {s} (arrive i request e) r =
      subst (Gate.Reach o) (kept s.gate _ i (queued request) s.progress (sym (ap gate_stage e))) r
  step_refines {s} (enter_lane i request q e a) r =
      subst (Gate.Reach o) (kept s.gate _ i (holding request) s.progress (sym (ap gate_stage e))) r
  step_refines {s} (leave_lane i request e) r =
      subst (Gate.Reach o) (kept s.gate _ i (done request) s.progress (sym (ap gate_stage e))) r

-- Every run of the server is, as the gate sees it, a run of the gate's own system.
pub gate_refines :
    (json : Json) {s : Server} → Reach json new_server s → Gate.Reach Gate.new_server (gate_view s)
unfolding new_server Gate.new_server
gate_refines json Serve.here = here
gate_refines json (Serve.next r st) = step_refines json st (gate_refines json r)
