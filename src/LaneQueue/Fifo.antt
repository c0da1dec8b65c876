-- ===== src/LaneQueue/Fifo.antt =====
-- One request of a lane at a time, the least waiting one first.
use muxly.Base.{
  ℕ, ◌≤◌, ◌≡◌, refl, ap, ◌∙◌, Bool, true, false, some, ◌⊎◌, inl, inr, List, [], ◌∷◌, arith,
  Bool-cases,
}
use muxly.LaneQueue.{
  LaneQueueState, remove, is_first, enqueue, try_acquire, release, outside, queued, holding, done,
  Lane, update, new_lane, Step, arrive, enter, leave, Reach, here, next,
}
use muxly.LaneQueue.Waiting.{
  Ascending, contains, contains-insert, insert-Ascending, contains-remove_first, first-le,
}

pub record Inv (s : Lane) : Type 0 where
  pub ascending : Ascending s.queue.waiting_sequences
  pub waits : (i : ℕ) → s.stage i ≡ queued → contains i s.queue.waiting_sequences ≡ true
  pub waiting : (i : ℕ) → contains i s.queue.waiting_sequences ≡ true → s.stage i ≡ queued
  pub busy : (i : ℕ) → s.stage i ≡ holding → s.queue.busy ≡ true
  pub alone : (i j : ℕ) → s.stage i ≡ holding → s.stage j ≡ holding → i ≡ j
  pub held : s.queue.busy ≡ true → (i : ℕ) × (s.stage i ≡ holding)

Inv-new : Inv new_lane
unfolding new_lane contains
Inv-new = record {
  ascending = tt;
  waits = λ i e. absurd (ground arith);
  waiting = λ i e. absurd (ground arith);
  busy = λ i e. absurd (ground arith);
  alone = λ i j e q. absurd (ground arith);
  held = λ e. absurd (ground arith);
}

-- What a pass that returns the guard has found, and what it leaves.
try_acquire-eq-some :
    (q q' : LaneQueueState) (i : ℕ)
    → try_acquire q i ≡ some q'
    → (q.busy ≡ false)
      × (is_first i q.waiting_sequences ≡ true)
      × (q' ≡ record { busy = true; waiting_sequences = remove i q.waiting_sequences })
unfolding try_acquire
try_acquire-eq-some q q' i e = ground arith

module _ {s : Lane} (v : Inv s) where
  open v use {ascending, waits, waiting, busy, alone, held}

  arrive-Inv :
      (i : ℕ)
      → s.stage i ≡ outside
      → Inv (record { queue = enqueue s.queue i; stage = update s.stage i queued })
  unfolding enqueue
  arrive-Inv i e = record {
    ascending = insert-Ascending i s.queue.waiting_sequences ascending;
    waits = λ j q. ground (arith, waits j, contains-insert j i s.queue.waiting_sequences);
    waiting = λ j q. ground (arith, waiting j, contains-insert j i s.queue.waiting_sequences);
    busy = λ j q. ground (arith, busy j);
    alone = λ j k q r. ground (arith, alone j k);
    held = λ q. let (j, h) = held q in (j, ground arith);
  }

  enter-Inv :
      (i : ℕ) (q : LaneQueueState)
      → s.stage i ≡ queued
      → (s.queue.busy ≡ false)
        × (is_first i s.queue.waiting_sequences ≡ true)
        × (q ≡ record { busy = true; waiting_sequences = remove i s.queue.waiting_sequences })
      → Inv (record { queue = q; stage = update s.stage i holding })
  enter-Inv i q e (free, first, after) =
      let w = s.queue.waiting_sequences in
      rw after (record {
        ascending = (contains-remove_first 0 i w ascending first).1;
        waits = λ j h. ground (arith, waits j, (contains-remove_first j i w ascending first).0);
        waiting = λ j h. ground (arith, waiting j, (contains-remove_first j i w ascending first).0);
        busy = λ j h. refl;
        alone = λ j k h l. ground (arith, busy j, busy k);
        held = λ h. (i, ground arith);
      })

  leave-Inv :
      (i : ℕ)
      → s.stage i ≡ holding
      → Inv (record { queue = release s.queue; stage = update s.stage i done })
  unfolding release
  leave-Inv i e = record {
    ascending = ascending;
    waits = λ j q. ground (arith, waits j);
    waiting = λ j q. ground (arith, waiting j);
    busy = λ j q. ground (arith, alone i j);
    alone = λ j k q r. ground (arith, alone j k);
    held = λ q. absurd (ground arith);
  }

pub Step-Inv : {s t : Lane} → Step s t → Inv s → Inv t
Step-Inv (arrive i e) v = arrive-Inv v i e
Step-Inv {s} (enter i q e a) v = enter-Inv v i q e (try_acquire-eq-some s.queue q i a)
Step-Inv (leave i e) v = leave-Inv v i e

pub Reach-Inv : {s : Lane} → Reach new_lane s → Inv s
Reach-Inv here = Inv-new
Reach-Inv (next r st) = Step-Inv st (Reach-Inv r)

-- In every state that a lane reaches, at most one request holds its guard.
pub one_holder :
    {s : Lane} → Reach new_lane s → (i j : ℕ) → s.stage i ≡ holding → s.stage j ≡ holding → i ≡ j
one_holder r = (Reach-Inv r).alone

-- A request that is let into a lane has the least sequence number of all that wait there then.
pub enter_least :
    {s : Lane}
    → Reach new_lane s
    → (i j : ℕ) (q : LaneQueueState) → try_acquire s.queue i ≡ some q
    → s.stage j ≡ queued
    → i ≤ j
enter_least {s} r i j q e h =
    let v = Reach-Inv r in
    let (free, first, after) = try_acquire-eq-some s.queue q i e in
    first-le j i s.queue.waiting_sequences v.ascending first (v.waits j h)

first-enters :
    (b : Bool) (y : ℕ) (ys : List ℕ)
    → b ≡ false
    → (q : LaneQueueState) × (try_acquire (record { busy = b; waiting_sequences = y ∷ ys }) y
        ≡ some q)
unfolding try_acquire remove
first-enters b y ys e = (record { busy = true; waiting_sequences = ys }, ground arith)

-- A lane is never stuck: where a request waits, one holds the guard, or one that waits is let in by
-- its next pass.
pub lane_progress :
    {s : Lane}
    → Reach new_lane s
    → (i : ℕ) → s.stage i ≡ queued
    → ((j : ℕ) × (s.stage j ≡ holding))
      ⊎ ((j : ℕ) × (q : LaneQueueState) × (s.stage j ≡ queued) × (try_acquire s.queue j ≡ some q))
unfolding contains
lane_progress {s} r i e = elim (Bool-cases s.queue.busy) [
  | inl b ↦ inl (v.held b)
  | inr free ↦ go s.queue.waiting_sequences refl free
]
  where
    v : Inv s
    v = Reach-Inv r

    go :
        (w : List ℕ)
        → s.queue.waiting_sequences ≡ w
        → s.queue.busy ≡ false
        → ((j : ℕ) × (s.stage j ≡ holding))
          ⊎ ((j : ℕ) × (q : LaneQueueState) × (s.stage j ≡ queued)
              × (try_acquire s.queue j ≡ some q))
    go [] p free = absurd (ground (arith, v.waits i e, ap (contains i) p))
    go (y ∷ ys) p free =
        let (q, a) = first-enters s.queue.busy y ys free in
        inr (
          y,
          q,
          v.waiting y (ap (contains y) p ∙ ground arith),
          ap (λ w. try_acquire (record { busy = s.queue.busy; waiting_sequences = w }) y) p ∙ a,
        )
