-- ===== src/Serve/Views.antt =====
-- The server as the gate sees it, and as one lane sees it.
use muxly.Base.{
  ℕ, ◌≡◌, refl, Bool, true, false, ◌↔◌, ap, ◌∙◌, sym, arith, same_iff, ◌==◌, if◌then◌else◌, ==_iff,
  Bool-cases, inl, inr,
}
use muxly.Gate
use muxly.LaneQueue
use muxly.Lane.{Json, UpstreamLaneKey, root, document, document_target}
use muxly.Serve.{
  same_key, Progress, absent, started, rejected, waiting, reading, refused, read, queued, holding,
  done, Server, move, lane_of,
}

pub same_key_iff : (a b : UpstreamLaneKey) → (same_key a b ≡ true) ↔ (a ≡ b)
same_key_iff root root = ground arith
same_key_iff root (document p) = ground arith
same_key_iff root (document_target p t) = ground arith
same_key_iff (document p) root = ground arith
same_key_iff (document p) (document p') = ground (arith, same_iff p p')
same_key_iff (document p) (document_target p' t) = ground arith
same_key_iff (document_target p t) root = ground arith
same_key_iff (document_target p t) (document p') = ground arith
same_key_iff (document_target p t) (document_target p' t') =
    ground (arith, same_iff p p', same_iff t t')

-- What the gate knows of a task.
abbrev pub gate_stage : Progress → Gate.Stage
gate_stage absent = Gate.absent
gate_stage started = Gate.started
gate_stage rejected = Gate.rejected
gate_stage (waiting body) = Gate.waiting
gate_stage (reading body) = Gate.reading
gate_stage (refused e) = Gate.left
gate_stage (read request) = Gate.left
gate_stage (queued request) = Gate.left
gate_stage (holding request) = Gate.left
gate_stage (done request) = Gate.left

abbrev pub gate_view : Server → Gate.Server
gate_view s = record {
  gate = s.gate;
  next_accept_sequence = s.next_accept_sequence;
  stage = λ i. gate_stage (s.progress i);
}

-- The tasks in other lanes are outside.
abbrev pub on : Bool → LaneQueue.Stage → LaneQueue.Stage
on true stage = stage
on false stage = LaneQueue.outside

module _ (json : Json) (key : UpstreamLaneKey) where
  abbrev pub lane_stage : Progress → LaneQueue.Stage
  lane_stage (queued request) = on (same_key (lane_of json request) key) LaneQueue.queued
  lane_stage (holding request) = on (same_key (lane_of json request) key) LaneQueue.holding
  lane_stage (done request) = on (same_key (lane_of json request) key) LaneQueue.done
  lane_stage _ = LaneQueue.outside

  abbrev pub lane_view : Server → LaneQueue.Lane
  lane_view s = record { queue = s.lanes key; stage = λ i. lane_stage (s.progress i) }

-- A view of the moved task, and of the others.
pub view-move :
    {A : Type 0} (view : Progress → A) (i : ℕ) (p : Progress) (f : ℕ → Progress) (j : ℕ)
    → view (move i p f j) ≡ (if j == i then view p else view (f j))
view-move view i p f j = cases (j == i) (f j)
  where
    cases : (b : Bool) (q : Progress) → view (if b then p else q) ≡ (if b then view p else view q)
    cases true q = refl
    cases false q = refl

-- A move that the view does not show.
pub view-move_same :
    {A : Type 0} (view : Progress → A) (i : ℕ) (p : Progress) (f : ℕ → Progress)
    → view p ≡ view (f i)
    → (j : ℕ) → view (move i p f j) ≡ view (f j)
view-move_same view i p f e j = elim (Bool-cases (j == i)) [
  | inl eq ↦ rw eq (e ∙ ap (λ k. view (f k)) (sym ((==_iff j i).0 eq)))
  | inr ne ↦ rw ne refl
]
