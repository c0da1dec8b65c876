-- ===== src/Serve/Safety.antt =====
-- What the server inherits from its lanes.
use muxly.Base.{ℕ, ◌≡◌, refl, sym, ap, ◌∙◌, true, Bytes}
use muxly.LaneQueue.Fifo.{one_holder}
use muxly.Lane.{Json, UpstreamLaneKey}
use muxly.Serve.{same_key, holding, Server, new_server, lane_of, Reach}
use muxly.Serve.Views.{same_key_iff, lane_stage}
use muxly.Serve.LaneView.{lane_refines}

pub same_key_refl : (k : UpstreamLaneKey) → same_key k k ≡ true
same_key_refl k = (same_key_iff k k).1 refl

-- In every state that the server reaches, two requests that both hold the guard of a lane, and whose
-- bodies belong to the same lane, are the same stream.
pub lane_alone :
    (json : Json) {s : Server}
    → Reach json new_server s
    → (i j : ℕ) (request request' : Bytes) → s.progress i ≡ holding request
    → s.progress j ≡ holding request'
    → lane_of json request ≡ lane_of json request'
    → i ≡ j
lane_alone json {s} r i j request request' e e' same =
    let k = lane_of json request in
    one_holder (lane_refines json k r) i j (ap (lane_stage json k) e ∙ rw (same_key_refl k) refl)
      (ap (lane_stage json k) e' ∙ rw ((same_key_iff (lane_of json request') k).1 (sym same)) refl)
