-- ===== src/Examples/Gates.antt =====
-- The gate at concrete schedules of two and three streams.
use muxly.Base.{ℕ, ◌+◌, ◌<◌, ◌≤◌, ◌≡◌, ◌≢◌, refl, true, some, ◌⊎◌, arith}
use muxly.Gate.{
  new_gate, try_acquire, Stage, started, rejected, waiting, reading, left, Server, update,
  new_server, accept, reject, wait, enter, Reach, here, next,
}
use muxly.Gate.Order.{in_order}
use muxly.Gate.Stall.{rejected_stalls, progress}

abbrev accepted : Server → Server
accepted s = record s {
  next_accept_sequence = s.next_accept_sequence + 1;
  stage = update s.stage s.next_accept_sequence started;
}

abbrev moved : ℕ → Stage → Server → Server
moved i p s = record s { stage = update s.stage i p }

abbrev entered : ℕ → Server → Server
entered i s = record s { gate = record s.gate { busy = true }; stage = update s.stage i reading }

-- Streams 1 and 2 are accepted, and both call `acquire`; 1 is let in.
abbrev two_accepted : Server
two_accepted = accepted (accepted new_server)

abbrev both_wait : Server
both_wait = moved 1 waiting (moved 2 waiting two_accepted)

abbrev first_reads : Server
first_reads = entered 1 both_wait

two_accepted-Reach : Reach new_server two_accepted
unfolding new_server
two_accepted-Reach = next (next here (accept (omega arith))) (accept (omega arith))

both_wait-Reach : Reach new_server both_wait
unfolding new_server
both_wait-Reach = next (next two_accepted-Reach (wait 2 refl)) (wait 1 refl)

first_reads-Reach : Reach new_server first_reads
unfolding new_server new_gate try_acquire
first_reads-Reach =
    next both_wait-Reach (enter 1 (record { busy = true; next_sequence = 1 }) refl refl)

in_order_example :
    ((2 < 1) × (first_reads.stage 2 ≡ left)) ⊎ ((1 ≤ 2) × (first_reads.stage 2 ≢ left))
unfolding new_server
in_order_example = in_order first_reads-Reach 1 2 refl (omega arith)

progress_example :
    (both_wait.stage both_wait.gate.next_sequence ≡ reading)
    ⊎ ((both_wait.stage both_wait.gate.next_sequence ≡ waiting)
        × (try_acquire both_wait.gate both_wait.gate.next_sequence
            ≡ some (record { busy = true; next_sequence = both_wait.gate.next_sequence })))
    ⊎ (both_wait.stage both_wait.gate.next_sequence ≡ started)
unfolding new_server new_gate
progress_example = progress both_wait-Reach 2 refl (λ e. cc)

-- Stream 1 asks for another path, and 2 waits: for good.
abbrev first_rejected : Server
first_rejected = moved 1 rejected two_accepted

first_rejected-Reach : Reach new_server first_rejected
unfolding new_server
first_rejected-Reach = next two_accepted-Reach (reject 1 refl)

rejected_stalls_example :
    ((moved 2 waiting first_rejected).stage 2 ≢ reading)
    × ((moved 2 waiting first_rejected).stage 2 ≢ left)
unfolding new_server
rejected_stalls_example =
    rejected_stalls first_rejected-Reach (next here (wait 2 refl)) 1 2 refl (omega arith)
