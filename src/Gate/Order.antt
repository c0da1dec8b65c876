-- ===== src/Gate/Order.antt =====
-- The gate lets one task at a time through, in the order of the sequence numbers.
use native.Mathlib.Decide.{dec_lt}
use muxly.Base.{ℕ, ◌+◌, ◌≤◌, ◌<◌, ◌≡◌, ◌≢◌, refl, true, some, ◌⊎◌, inl, inr, arith, usize_max}
use muxly.Gate.{
  OrderedSequenceGateState, try_acquire, release, Stage, absent, started, rejected, waiting,
  reading, left, Server, update, new_server, Step, accept, reject, wait, enter, leave, Reach, here,
  next,
}

pub record Inv (s : Server) : Type 0 where
  pub first : 1 ≤ s.gate.next_sequence
  pub bound : s.gate.next_sequence ≤ s.next_accept_sequence
  pub small : s.next_accept_sequence ≤ usize_max
  -- the numbers not given out yet, and 0
  pub fresh : (i : ℕ) → s.next_accept_sequence ≤ i → s.stage i ≡ absent
  pub no_zero : s.stage 0 ≡ absent
  pub given : (i : ℕ) → 1 ≤ i → i < s.next_accept_sequence → s.stage i ≢ absent
  -- the tasks that have left are those before the next number
  pub passed : (i : ℕ) → s.stage i ≡ left → i < s.gate.next_sequence
  pub all_passed : (i : ℕ) → 1 ≤ i → i < s.gate.next_sequence → s.stage i ≡ left
  -- the guard is out exactly with the task of the next number
  pub holder : (i : ℕ) → s.stage i ≡ reading → (s.gate.busy ≡ true) × (i ≡ s.gate.next_sequence)
  pub held : s.gate.busy ≡ true → s.stage s.gate.next_sequence ≡ reading

pub Inv-new : Inv new_server
unfolding new_server
Inv-new = record {
  first = omega arith;
  bound = omega arith;
  small = omega arith;
  fresh = λ i h. refl;
  no_zero = refl;
  given = λ i h k. absurd (omega arith);
  passed = λ i e. absurd (ground arith);
  all_passed = λ i h k. absurd (omega arith);
  holder = λ i e. absurd (ground arith);
  held = λ e. absurd (ground arith);
}

module _ {s : Server} (v : Inv s) where
  open v use {first, bound, small, fresh, no_zero, given, passed, all_passed, holder, held}

  -- A task that has been started and does not hold the guard moves on without the gate.
  aside :
      (i : ℕ) (p : Stage)
      → s.stage i ≡ started
      → (p ≢ left) × (p ≢ reading) × (p ≢ absent)
      → Inv (record s { stage = update s.stage i p })
  aside i p e ne = record {
    first = first;
    bound = bound;
    small = small;
    fresh = λ j h. ground (arith, fresh j);
    no_zero = ground (arith, no_zero);
    given = λ j h k q. ground (arith, given j, ne);
    passed = λ j q. ground (arith, passed j, ne);
    all_passed = λ j h k. ground (arith, all_passed j);
    holder = λ j q. ground (arith, holder j, ne);
    held = λ q. ground (arith, held);
  }

  accept-Inv :
      s.next_accept_sequence < usize_max
      → Inv (record s {
        next_accept_sequence = s.next_accept_sequence + 1;
        stage = update s.stage s.next_accept_sequence started;
      })
  accept-Inv lt = record {
    first = first;
    bound = omega arith;
    small = omega arith;
    fresh = λ j h. ground (arith, fresh j);
    no_zero = ground (arith, no_zero);
    given = λ j h k q. ground (arith, given j);
    passed = λ j q. ground (arith, passed j);
    all_passed = λ j h k. ground (arith, all_passed j, fresh j);
    holder = λ j q. ground (arith, holder j);
    held = λ q. ground (arith, held, fresh s.gate.next_sequence);
  }

  enter-Inv :
      (i : ℕ) (g : OrderedSequenceGateState)
      → s.stage i ≡ waiting
      → try_acquire s.gate i ≡ some g
      → Inv (record s { gate = g; stage = update s.stage i reading })
  unfolding try_acquire
  enter-Inv i g e q = record {
    first = ground arith;
    bound = ground arith;
    small = small;
    fresh = λ j h. ground (arith, fresh j);
    no_zero = ground (arith, no_zero);
    given = λ j h k q. ground (arith, given j);
    passed = λ j h. ground (arith, passed j);
    all_passed = λ j h k. ground (arith, all_passed j);
    holder = λ j h. ground (arith, holder j, held);
    held = λ h. ground arith;
  }

  reading-lt :
      (i : ℕ)
      → s.stage i ≡ reading
      → (i ≡ s.gate.next_sequence) × (s.gate.next_sequence < s.next_accept_sequence)
  reading-lt i e = elim (dec_lt s.gate.next_sequence s.next_accept_sequence) [
    | yes lt ↦ ((holder i e).1, lt)
    | no late ↦ absurd (ground (arith, holder i e, fresh i))
  ]

  next_number :
      (i : ℕ) → s.stage i ≡ reading → (release s.gate).next_sequence ≡ s.gate.next_sequence + 1
  unfolding release
  next_number i e = omega (arith, small, reading-lt i e)

  leave-Inv :
      (i : ℕ)
      → s.stage i ≡ reading
      → Inv (record s { gate = release s.gate; stage = update s.stage i left })
  leave-Inv i e = record {
    first = omega (arith, next_number i e);
    bound = omega (arith, next_number i e, reading-lt i e);
    small = small;
    fresh = λ j h. ground (arith, fresh j, reading-lt i e);
    no_zero = ground (arith, no_zero, reading-lt i e);
    given = λ j h k q. ground (arith, given j);
    passed = λ j h. ground (arith, next_number i e, passed j, reading-lt i e);
    all_passed = λ j h k. ground (arith, next_number i e, all_passed j, reading-lt i e);
    holder = λ j h. ground (arith, holder j, holder i);
    held = λ h. unfold release in absurd (ground (arith, h));
  }

-- Every step keeps the invariant.
pub Step-Inv : {s t : Server} → Step s t → Inv s → Inv t
Step-Inv (accept lt) v = accept-Inv v lt
Step-Inv (reject i e) v = aside v i rejected e (λ q. cc, λ q. cc, λ q. cc)
Step-Inv (wait i e) v = aside v i waiting e (λ q. cc, λ q. cc, λ q. cc)
Step-Inv (enter i g e q) v = enter-Inv v i g e q
Step-Inv (leave i e) v = leave-Inv v i e

pub Reach-Inv : {s t : Server} → Inv s → Reach s t → Inv t
Reach-Inv v here = v
Reach-Inv v (next r st) = Step-Inv st (Reach-Inv v r)

-- In every state that the server reaches, at most one task holds the guard.
pub one_reader :
    {s : Server}
    → Reach new_server s
    → (i j : ℕ) → s.stage i ≡ reading
    → s.stage j ≡ reading
    → i ≡ j
one_reader {s} r i j e q = let v = Reach-Inv Inv-new r in omega (arith, v.holder i e, v.holder j q)

-- In every state that the server reaches, where the task `i` holds the guard, every stream accepted
-- before it has left the gate behind, and no other stream has: bodies are read one after the other,
-- in the order in which the streams were accepted.
pub in_order :
    {s : Server}
    → Reach new_server s
    → (i j : ℕ) → s.stage i ≡ reading
    → 1 ≤ j
    → ((j < i) × (s.stage j ≡ left)) ⊎ ((i ≤ j) × (s.stage j ≢ left))
in_order {s} r i j e pos =
    let v = Reach-Inv Inv-new r in
    elim (dec_lt j i) [
      | yes lt ↦ inl (lt, ground (arith, v.holder i e, v.all_passed j))
      | no ge ↦ inr (omega arith, λ q. ground (arith, v.holder i e, v.passed j))
    ]
