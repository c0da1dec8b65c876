-- ===== src/Examples/Outputs.antt =====
-- Two tasks that share stdout.
use muxly.Base.{ℕ, ◌≡◌, refl, none, some, List, [], ◌∷◌, ◌++◌, Bytes, codes, ◌==◌, if◌then◌else◌}
use muxly.Shared.{
  between, locked, wrote_line, wrote_newline, broken, Shared, put, new_shared, lock_stdout,
  write_line, write_newline, unlock, break_line, Reach, here, next,
}
use muxly.Shared.Pieces.{Log, texts, pieces_of, wholes, remnant, current, partial}
use muxly.Shared.Whole.{stdout_whole}

-- Response 1 has two lines, and response 2 one.
abbrev responses : ℕ → List Bytes
responses i = if i == 1 then codes "a" ∷ codes "b" ∷ [] else if i == 2 then codes "cd" ∷ [] else []

-- Task 1 has written its first line, and task 2 is at its line.
abbrev written_one : Shared
written_one = record {
  stdout = codes "a\n";
  lock = none;
  pending = put 1 (codes "b" ∷ []) responses;
  stage = put 1 between (
      put 1 wrote_newline
        (put 1 (wrote_line (codes "a")) (put 1 (locked (codes "a")) (λ _. between))));
}

-- Then task 2 fails within its line, and task 1 is at its second line.
abbrev two_broken : Shared
two_broken = record {
  stdout = codes "a\nc";
  lock = none;
  pending = put 2 [] written_one.pending;
  stage = put 2 (broken (codes "c") (codes "d")) (put 2 (locked (codes "cd")) written_one.stage);
}

abbrev one_at_second : Shared
one_at_second = record {
  stdout = codes "a\ncb";
  lock = some 1;
  pending = put 1 [] two_broken.pending;
  stage = put 1 (wrote_line (codes "b")) (put 1 (locked (codes "b")) two_broken.stage);
}

written_one-Reach : Reach (new_shared responses) written_one
unfolding new_shared
written_one-Reach =
    next
      (next
        (next (next here (lock_stdout 1 (codes "a") (codes "b" ∷ []) refl refl refl))
          (write_line 1 (codes "a") refl))
        (write_newline 1 (codes "a") refl))
      (unlock 1 refl)

two_broken-Reach : Reach (new_shared responses) two_broken
unfolding new_shared
two_broken-Reach =
    next (next written_one-Reach (lock_stdout 2 (codes "cd") [] refl refl refl))
      (break_line 2 (codes "cd") (codes "c") (codes "d") refl refl)

one_at_second-Reach : Reach (new_shared responses) one_at_second
unfolding new_shared
one_at_second-Reach =
    next (next two_broken-Reach (lock_stdout 1 (codes "b") [] refl refl refl))
      (write_line 1 (codes "b") refl)

stdout_whole_example :
    (log : Log) × (written : ℕ → List Bytes) × (one_at_second.stdout
      ≡ texts log ++ partial one_at_second.lock one_at_second.stage)
    × ((i : ℕ) → pieces_of i log ≡ wholes (written i) ++ remnant (one_at_second.stage i))
    × ((i : ℕ)
        → written i ++ (current (one_at_second.stage i) ++ one_at_second.pending i) ≡ responses i)
stdout_whole_example = stdout_whole responses one_at_second one_at_second-Reach
