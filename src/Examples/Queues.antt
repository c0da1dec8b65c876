-- ===== src/Examples/Queues.antt =====
-- The queue of a lane at a concrete schedule of three requests.
use muxly.Base.{ℕ, ◌≤◌, ◌≡◌, refl, true, some, ◌⊎◌, [], ◌∷◌}
use muxly.LaneQueue.{
  LaneQueueState, new_queue, insert, remove, enqueue, try_acquire, queued, holding, Lane, update,
  new_lane, arrive, enter, Reach, here, next,
}
use muxly.LaneQueue.Fifo.{enter_least, lane_progress}

abbrev arrived : ℕ → Lane → Lane
arrived i s = record { queue = enqueue s.queue i; stage = update s.stage i queued }

-- Requests 7 and 3 wait, in this order of their calls.
abbrev two_wait : Lane
two_wait = arrived 3 (arrived 7 new_lane)

two_wait-Reach : Reach new_lane two_wait
unfolding new_lane
two_wait-Reach = next (next here (arrive 7 refl)) (arrive 3 refl)

three_in : try_acquire two_wait.queue 3 ≡ some (record { busy = true; waiting_sequences = 7 ∷ [] })
unfolding new_lane new_queue enqueue insert try_acquire remove
three_in = refl

abbrev three_holds : Lane
three_holds = record {
  queue = record { busy = true; waiting_sequences = 7 ∷ [] };
  stage = update two_wait.stage 3 holding;
}

three_holds-Reach : Reach new_lane three_holds
unfolding new_lane
three_holds-Reach = next two_wait-Reach (enter 3 three_holds.queue refl three_in)

enter_least_example : 3 ≤ 7
unfolding new_lane
enter_least_example = enter_least two_wait-Reach 3 7 three_holds.queue three_in refl

lane_progress_example :
    ((j : ℕ) × (three_holds.stage j ≡ holding))
    ⊎ ((j : ℕ) × (q : LaneQueueState) × (three_holds.stage j ≡ queued)
        × (try_acquire three_holds.queue j ≡ some q))
unfolding new_lane
lane_progress_example = lane_progress three_holds-Reach 7 refl
