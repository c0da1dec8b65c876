-- ===== src/Gate/Stall.antt =====
-- When the gate lets a task through, and when it never does again.
use muxly.Base.{ℕ, ◌<◌, ◌≡◌, ◌≢◌, refl, true, some, ◌⊎◌, inl, inr, arith}
use muxly.Gate.{
  try_acquire, Stage, absent, started, rejected, waiting, reading, left, Server, new_server, Step,
  accept, reject, wait, enter, leave, Reach, here, next,
}
use muxly.Gate.Order.{Inv, Inv-new, Reach-Inv}

-- A task with another path stays where it ended.
Step-rejected :
    {s t : Server} → Step s t → Inv s → (r : ℕ) → s.stage r ≡ rejected → t.stage r ≡ rejected
Step-rejected (accept lt) v r e = ground (arith, v.fresh r)
Step-rejected (reject i e) v r q = ground arith
Step-rejected (wait i e) v r q = ground arith
Step-rejected (enter i g e a) v r q = ground arith
Step-rejected (leave i e) v r q = ground arith

pub Reach-rejected :
    {s t : Server} → Inv s → Reach s t → (r : ℕ) → s.stage r ≡ rejected → t.stage r ≡ rejected
Reach-rejected v here r e = e
Reach-rejected v (next p st) r e = Step-rejected st (Reach-Inv v p) r (Reach-rejected v p r e)

-- The gate stops at a task that never enters it: once the stream `r` is answered with 404, no
-- stream accepted later ever reads its body, in any state that the server can reach from there.
pub rejected_stalls :
    {s t : Server}
    → Reach new_server s
    → Reach s t
    → (r i : ℕ) → s.stage r ≡ rejected
    → r < i
    → (t.stage i ≢ reading) × (t.stage i ≢ left)
rejected_stalls {t} p q r i e lt =
    let v = Reach-Inv Inv-new p in
    let w = Reach-Inv v q in
    let e' = Reach-rejected v q r e in
    (
      λ f. ground (arith, w.holder i f, w.all_passed r, w.no_zero, e'),
      λ f. ground (arith, w.passed i f, w.all_passed r, w.no_zero, e'),
    )

-- If a task waits, and the stream with the next number has not been rejected, then the task with the
-- next number holds the guard, or waits and is let in by its next pass, or has not called `acquire`
-- yet: the gate does not stop by itself.
pub progress :
    {s : Server}
    → Reach new_server s
    → (i : ℕ) → s.stage i ≡ waiting
    → s.stage s.gate.next_sequence ≢ rejected
    → (s.stage s.gate.next_sequence ≡ reading)
      ⊎ ((s.stage s.gate.next_sequence ≡ waiting)
          × (try_acquire s.gate s.gate.next_sequence
              ≡ some (record { busy = true; next_sequence = s.gate.next_sequence })))
      ⊎ (s.stage s.gate.next_sequence ≡ started)
unfolding try_acquire
progress {s} p i e clean = go (s.stage n) refl
  where
    n : ℕ
    n = s.gate.next_sequence

    v : Inv s
    v = Reach-Inv Inv-new p

    go :
        (x : Stage)
        → s.stage n ≡ x
        → (s.stage n ≡ reading)
          ⊎ ((s.stage n ≡ waiting)
              × (try_acquire s.gate n ≡ some (record { busy = true; next_sequence = n })))
          ⊎ (s.stage n ≡ started)
    go absent q = absurd (ground (arith, v.first, v.all_passed i, v.no_zero, v.fresh i, v.given n))
    go started q = inr (inr q)
    go rejected q = absurd (clean q)
    go waiting q = inr (inl (q, ground (arith, q, v.held)))
    go reading q = inl q
    go left q = absurd (ground (arith, v.passed n))
