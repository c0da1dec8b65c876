-- ===== src/Shared/Whole.antt =====
-- The lines of different responses do not mix.
use mathlib.Core.Path.{subst}
use muxly.Base.{
  ℕ, ◌≡◌, refl, sym, ap, ◌∙◌, arith, true, false, Option, none, some, List, [], ◌∷◌, ◌++◌,
  append_assoc, append-nil, Bytes,
}
use muxly.Shared.{
  Stage, between, locked, wrote_line, wrote_newline, broken, ended, Shared, put, new_shared, Step,
  lock_stdout, write_line, write_newline, unlock, break_line, break_newline, break_flush, break_off,
  Reach, here, next,
}
use muxly.Shared.Pieces.{
  whole, cut, Log, texts, pieces_of, wholes, remnant, begun, current, partial, is_holding,
  texts-snoc, pieces_of-snoc, wholes-snoc,
}

record IsWhole (responses : ℕ → List Bytes) (s : Shared) : Type 0 where
  log : Log
  written : ℕ → List Bytes
  on_stdout : s.stdout ≡ texts log ++ partial s.lock s.stage
  own : (i : ℕ) → pieces_of i log ≡ wholes (written i) ++ remnant (s.stage i)
  complete : (i : ℕ) → written i ++ (current (s.stage i) ++ s.pending i) ≡ responses i
  holder : (i : ℕ) → is_holding (s.stage i) ≡ true → s.lock ≡ some i

module _ {responses : ℕ → List Bytes} {s : Shared} (v : IsWhole responses s) where
  -- A task that is at a line holds the lock.
  written_by_holder :
      (i : ℕ) → is_holding (s.stage i) ≡ true → s.stdout ≡ texts v.log ++ begun (s.stage i)
  written_by_holder i busy =
      v.on_stdout ∙ ap (λ l. texts v.log ++ partial l s.stage) (v.holder i busy)

  -- The rest of stdout as the holder moves on to another stage.
  partial_holder :
      (i : ℕ) (p : Stage)
      → is_holding (s.stage i) ≡ true
      → begun p ≡ partial s.lock (put i p s.stage)
  partial_holder i p busy = ground (arith, v.holder i)

  lock_stdout-IsWhole :
      (i : ℕ) (line : Bytes) (more : List Bytes)
      → s.stage i ≡ between
      → s.pending i ≡ line ∷ more
      → s.lock ≡ none
      → IsWhole responses (record s {
        lock = some i;
        pending = put i more s.pending;
        stage = put i (locked line) s.stage;
      })
  lock_stdout-IsWhole i line more at ready free = record {
    log = v.log;
    written = v.written;
    on_stdout = v.on_stdout ∙ ground arith;
    own = λ j. ground (arith, v.own j);
    complete = λ j. ground (arith, v.complete j);
    holder = λ j h. ground (arith, v.holder j);
  }

  write_line-IsWhole :
      (i : ℕ) (line : Bytes)
      → s.stage i ≡ locked line
      → IsWhole responses
          (record s { stdout = s.stdout ++ line; stage = put i (wrote_line line) s.stage })
  write_line-IsWhole i line at =
      let busy : is_holding (s.stage i) ≡ true = rw at refl in
      let all =
        written_by_holder i busy ∙ ap (λ p. texts v.log ++ begun p) at ∙ append-nil (texts v.log) in
      record {
        log = v.log;
        written = v.written;
        on_stdout =
            ap (λ t. t ++ line) all
            ∙ ap (λ t. texts v.log ++ t) (partial_holder i (wrote_line line) busy);
        own = λ j. ground (arith, v.own j);
        complete = λ j. ground (arith, v.complete j);
        holder = λ j h. ground (arith, v.holder j, v.holder i);
      }

  write_newline-IsWhole :
      (i : ℕ) (line : Bytes)
      → s.stage i ≡ wrote_line line
      → IsWhole responses
          (record s { stdout = s.stdout ++ b'\n' ∷ []; stage = put i wrote_newline s.stage })
  write_newline-IsWhole i line at =
      let busy : is_holding (s.stage i) ≡ true = rw at refl in
      let log' = v.log ++ (i, whole line) ∷ [] in
      let all = written_by_holder i busy ∙ ap (λ p. texts v.log ++ begun p) at in
      record {
        log = log';
        written = put i (v.written i ++ line ∷ []) v.written;
        on_stdout =
            ap (λ t. t ++ b'\n' ∷ []) all
            ∙ append_assoc (texts v.log) line (b'\n' ∷ [])
            ∙ sym (texts-snoc v.log i (whole line))
            ∙ sym (append-nil (texts log'))
            ∙ ap (λ t. texts log' ++ t) (partial_holder i wrote_newline busy);
        own = λ j. ground (
          arith,
          v.own j,
          pieces_of-snoc j i (whole line) v.log,
          wholes-snoc (v.written j) line,
          append-nil (wholes (v.written j)),
          append-nil (wholes (v.written j ++ line ∷ [])),
          append-nil (pieces_of j v.log),
        );
        complete =
            λ j. ground (arith, v.complete j, append_assoc (v.written j) (line ∷ []) (s.pending j));
        holder = λ j h. ground (arith, v.holder j, v.holder i);
      }

  -- The holder gives up the lock where it is at no line.
  release-IsWhole :
      (i : ℕ) (p : Stage)
      → s.stage i ≡ wrote_newline
      → remnant p ≡ []
      → current p ≡ []
      → is_holding p ≡ false
      → IsWhole responses (record s { lock = none; stage = put i p s.stage })
  release-IsWhole i p at no_remnant no_current free =
      let busy : is_holding (s.stage i) ≡ true = rw at refl in
      record {
        log = v.log;
        written = v.written;
        on_stdout = written_by_holder i busy ∙ ap (λ q. texts v.log ++ begun q) at;
        own = λ j. ground (arith, v.own j);
        complete = λ j. ground (arith, v.complete j);
        holder = λ j h. ground (arith, v.holder j, v.holder i);
      }

  -- The holder gives up the lock within a line, which it had written up to `begun`, and of which it
  -- has written a further part.
  cut-IsWhole :
      (i : ℕ) (line part rest more : Bytes)
      → is_holding (s.stage i) ≡ true
      → remnant (s.stage i) ≡ []
      → current (s.stage i) ≡ line ∷ []
      → part ≡ begun (s.stage i) ++ more
      → line ≡ part ++ rest
      → IsWhole responses (record s {
        stdout = s.stdout ++ more;
        lock = none;
        stage = put i (broken part rest) s.stage;
      })
  cut-IsWhole i line part rest more busy no_remnant at parts both =
      let log' = v.log ++ (i, cut part rest) ∷ [] in
      record {
        log = log';
        written = v.written;
        on_stdout =
            ap (λ t. t ++ more) (written_by_holder i busy)
            ∙ append_assoc (texts v.log) (begun (s.stage i)) more
            ∙ ap (λ t. texts v.log ++ t) (sym parts)
            ∙ sym (texts-snoc v.log i (cut part rest))
            ∙ sym (append-nil (texts log'));
        own = λ j. ground (
          arith,
          v.own j,
          pieces_of-snoc j i (cut part rest) v.log,
          append-nil (wholes (v.written j)),
          append-nil (pieces_of j v.log),
        );
        complete = λ j. ground (arith, v.complete j);
        holder = λ j h. ground (arith, v.holder j, v.holder i);
      }

  break_off-IsWhole :
      (i : ℕ) → s.stage i ≡ between → IsWhole responses (record s { stage = put i ended s.stage })
  break_off-IsWhole i at = record {
    log = v.log;
    written = v.written;
    on_stdout = v.on_stdout ∙ ap (λ t. texts v.log ++ t) (same_partial s.lock);
    own = λ j. ground (arith, v.own j);
    complete = λ j. ground (arith, v.complete j);
    holder = λ j h. ground (arith, v.holder j);
  }
    where
      same_partial : (l : Option ℕ) → partial l s.stage ≡ partial l (put i ended s.stage)
      same_partial none = refl
      same_partial (some k) = ground arith

Step-IsWhole :
    {responses : ℕ → List Bytes} {s t : Shared}
    → Step s t
    → IsWhole responses s
    → IsWhole responses t
Step-IsWhole (lock_stdout i line more at ready free) v =
    lock_stdout-IsWhole v i line more at ready free
Step-IsWhole (write_line i line at) v = write_line-IsWhole v i line at
Step-IsWhole (write_newline i line at) v = write_newline-IsWhole v i line at
Step-IsWhole (unlock i at) v = release-IsWhole v i between at refl refl refl
Step-IsWhole (break_line i line part rest at both) v =
    cut-IsWhole v i line part rest part (rw at refl) (rw at refl) (rw at refl) (rw at refl) both
Step-IsWhole {responses} {s} (break_newline i line at) v =
    subst
      (λ t.
        IsWhole responses
          (record s { stdout = t; lock = none; stage = put i (broken line []) s.stage }))
      (append-nil s.stdout)
      (cut-IsWhole v i line line [] [] (rw at refl) (rw at refl) (rw at refl)
        (rw at (sym (append-nil line))) (sym (append-nil line)))
Step-IsWhole (break_flush i at) v = release-IsWhole v i ended at refl refl refl
Step-IsWhole (break_off i at) v = break_off-IsWhole v i at

new_shared-IsWhole : (responses : ℕ → List Bytes) → IsWhole responses (new_shared responses)
unfolding new_shared
new_shared-IsWhole responses = record {
  log = [];
  written = λ i. [];
  on_stdout = refl;
  own = λ i. refl;
  complete = λ i. refl;
  holder = λ i h. absurd (ground arith);
}

Reach-IsWhole :
    {responses : ℕ → List Bytes} {s : Shared} → Reach (new_shared responses) s → IsWhole responses s
Reach-IsWhole {responses} here = new_shared-IsWhole responses
Reach-IsWhole (next r step) = Step-IsWhole step (Reach-IsWhole r)

-- In every state that the tasks reach, whatever the interleaving and whichever tasks fail or are
-- aborted, stdout is a sequence of pieces, each a whole line with its newline or a first part of a line
-- (none or all of it included) without one, and then what one task, the holder of the lock, has written
-- of its next line. The pieces of every task are whole lines, and behind them one part of a line
-- exactly where the task has broken off within that line.
-- The whole lines, the line that it is at or broke off in, and those that it has not begun are all
-- lines of its response, in their order.
pub stdout_whole :
    (responses : ℕ → List Bytes) (s : Shared)
    → Reach (new_shared responses) s
    → (log : Log) × (written : ℕ → List Bytes) × (s.stdout ≡ texts log ++ partial s.lock s.stage)
      × ((i : ℕ) → pieces_of i log ≡ wholes (written i) ++ remnant (s.stage i))
      × ((i : ℕ) → written i ++ (current (s.stage i) ++ s.pending i) ≡ responses i)
stdout_whole responses s r =
    let v = Reach-IsWhole r in (v.log, v.written, v.on_stdout, v.own, v.complete)
