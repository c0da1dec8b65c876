-- ===== src/Serve/LaneView.antt =====
-- The server refines every lane: what it does to the queue of a lane is a run of the requests of
-- LaneQueue, those of the other lanes staying outside.
use mathlib.Core.Path.{fun_ext, subst}
use muxly.Base.{
  ℕ, ◌≡◌, refl, sym, ap, ◌∙◌, true, false, inl, inr, Bool-cases, arith, Bytes, ◌==◌, if◌then◌else◌,
}
use muxly.Gate
use muxly.Gate.Order
use muxly.LaneQueue
use muxly.LaneQueue.{LaneQueueState, enqueue, here, next}
use muxly.Lane.{Json, UpstreamLaneKey}
use muxly.Serve.{
  same_key, Progress, absent, started, rejected, waiting, reading, refused, read, queued, holding,
  done, Server, move, change_lane, new_server, lane_of, Step, accept, reject, wait, enter_gate,
  refuse, leave_gate, arrive, enter_lane, leave_lane, Reach,
}
use muxly.Serve
use muxly.Serve.GateView.{gate_refines}
use muxly.Serve.Views.{same_key_iff, gate_stage, lane_stage, lane_view, view-move, view-move_same}

same_lane :
    {q q' : LaneQueueState} {f g : ℕ → LaneQueue.Stage}
    → q ≡ q'
    → ((j : ℕ) → f j ≡ g j)
    → ◌≡◌ {A = LaneQueue.Lane} (record { queue = q; stage = f }) (record { queue = q'; stage = g })
same_lane {q} {q'} {f} {g} e h =
    ap (λ (p : LaneQueueState). record { queue = p; stage = f }) e
    ∙ ap (λ (st : ℕ → LaneQueue.Stage). record { queue = q'; stage = st }) (fun_ext h)

module _ (json : Json) (key : UpstreamLaneKey) where
  -- The lanes and the task after a step on the lane of a request, where that is this lane.
  seen :
      (s : Server) (i : ℕ) (request : Bytes) (p : Progress) {q q' : LaneQueueState}
      (st : LaneQueue.Stage)
      → q ≡ q'
      → same_key (lane_of json request) key ≡ true
      → lane_stage json key p ≡ st
      → ◌≡◌ {A = LaneQueue.Lane}
          (record {
            queue = q;
            stage = LaneQueue.update (λ j. lane_stage json key (s.progress j)) i st;
          })
          (record {
            queue = change_lane (lane_of json request) q' s.lanes key;
            stage = λ j. lane_stage json key (move i p s.progress j);
          })
  seen s i request p st same_queue hit e = same_lane (rw hit same_queue) λ j.
      ap (λ (x : LaneQueue.Stage). if j == i then x else lane_stage json key (s.progress j)) (sym e)
      ∙ sym (view-move (lane_stage json key) i p s.progress j)

module _ (json : Json) (key : UpstreamLaneKey) {o : LaneQueue.Lane} where
  -- A step that the lane does not see.
  unseen :
      (s : Server) (i : ℕ) (p : Progress)
      → LaneQueue.Reach o (lane_view json key s)
      → lane_stage json key p ≡ lane_stage json key (s.progress i)
      → LaneQueue.Reach o
          (record { queue = s.lanes key; stage = λ j. lane_stage json key (move i p s.progress j) })
  unseen s i p r e =
      subst (LaneQueue.Reach o)
        (same_lane refl (λ j. sym (view-move_same (lane_stage json key) i p s.progress e j))) r

  -- And where it is another.
  elsewhere :
      (s : Server) (i : ℕ) (request : Bytes) (p : Progress) (q : LaneQueueState)
      → same_key (lane_of json request) key ≡ false
      → lane_stage json key p ≡ lane_stage json key (s.progress i)
      → LaneQueue.Reach o (lane_view json key s)
      → LaneQueue.Reach o (record {
        queue = change_lane (lane_of json request) q s.lanes key;
        stage = λ j. lane_stage json key (move i p s.progress j);
      })
  elsewhere s i request p q miss e r =
      subst (LaneQueue.Reach o)
        (same_lane (rw miss refl)
          (λ j. sym (view-move_same (lane_stage json key) i p s.progress e j)))
        r

  one :
      {a b b' : LaneQueue.Lane}
      → LaneQueue.Reach o a
      → LaneQueue.Step a b
      → b ≡ b'
      → LaneQueue.Reach o b'
  one r st e = subst (LaneQueue.Reach o) e (next r st)

  step_refines :
      {s t : Server}
      → lane_stage json key (s.progress s.next_accept_sequence) ≡ LaneQueue.outside
      → Step json s t
      → LaneQueue.Reach o (lane_view json key s)
      → LaneQueue.Reach o (lane_view json key t)
  step_refines {s} new (accept lt) r = unseen s s.next_accept_sequence started r (sym new)
  step_refines {s} new (reject i e) r = unseen s i rejected r (sym (ap (lane_stage json key) e))
  step_refines {s} new (wait i body e) r =
      unseen s i (waiting body) r (sym (ap (lane_stage json key) e))
  step_refines {s} new (enter_gate i body g e a) r =
      unseen s i (reading body) r (sym (ap (lane_stage json key) e))
  step_refines {s} new (refuse i x e) r =
      unseen s i (refused x) r (sym (ap (lane_stage json key) e))
  step_refines {s} new (leave_gate i request e) r =
      unseen s i (read request) r (sym (ap (lane_stage json key) e))
  step_refines {s} new (arrive i request e) r =
      let k = lane_of json request in
      elim (Bool-cases (same_key k key)) [
        | inl hit ↦
            let same_queue = ap (λ x. enqueue (s.lanes x) i) (sym ((same_key_iff k key).0 hit)) in
            one r (LaneQueue.arrive i (ap (lane_stage json key) e)) (
              seen json key s i request (queued request) LaneQueue.queued same_queue hit
                (rw hit refl))
        | inr miss ↦
            elsewhere s i request (queued request) (enqueue (s.lanes k) i) miss (rw (miss, e) refl)
              r
      ]
  step_refines {s} new (enter_lane i request q e a) r =
      let k = lane_of json request in
      elim (Bool-cases (same_key k key)) [
        | inl hit ↦
            let a' =
              ap (λ x. LaneQueue.try_acquire (s.lanes x) i) (sym ((same_key_iff k key).0 hit))
              ∙ a in
            one r (LaneQueue.enter i q (ap (lane_stage json key) e ∙ rw hit refl) a')
              (seen json key s i request (holding request) LaneQueue.holding refl hit (rw hit refl))
        | inr miss ↦ elsewhere s i request (holding request) q miss (rw (miss, e) (rw miss refl)) r
      ]
  step_refines {s} new (leave_lane i request e) r =
      let k = lane_of json request in
      elim (Bool-cases (same_key k key)) [
        | inl hit ↦
            let same_queue =
              ap (λ x. LaneQueue.release (s.lanes x)) (sym ((same_key_iff k key).0 hit)) in
            one r (LaneQueue.leave i (ap (lane_stage json key) e ∙ rw hit refl))
              (seen json key s i request (done request) LaneQueue.done same_queue hit (rw hit refl))
        | inr miss ↦
            elsewhere s i request (done request) (LaneQueue.release (s.lanes k)) miss
              (rw (miss, e) (rw miss refl)) r
      ]

outside_absent :
    (json : Json) (key : UpstreamLaneKey) (p : Progress)
    → gate_stage p ≡ Gate.absent
    → lane_stage json key p ≡ LaneQueue.outside
outside_absent json key absent e = refl
outside_absent json key started e = refl
outside_absent json key rejected e = refl
outside_absent json key (waiting body) e = refl
outside_absent json key (reading body) e = refl
outside_absent json key (refused x) e = refl
outside_absent json key (read request) e = refl
outside_absent json key (queued request) e = cc
outside_absent json key (holding request) e = cc
outside_absent json key (done request) e = cc

-- Every run of the server is, as any lane sees it, a run of that lane's own system.
pub lane_refines :
    (json : Json) (key : UpstreamLaneKey) {s : Server}
    → Reach json new_server s
    → LaneQueue.Reach LaneQueue.new_lane (lane_view json key s)
unfolding new_server LaneQueue.new_lane
lane_refines json key Serve.here = here
lane_refines json key (Serve.next {t = s} r st) =
    let v = Order.Reach-Inv Order.Inv-new (gate_refines json r) in
    let n = s.next_accept_sequence in
    step_refines json key (outside_absent json key (s.progress n) (v.fresh n (omega arith))) st
      (lane_refines json key r)
