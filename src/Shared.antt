-- ===== src/Shared.antt =====
-- The standard output that the tasks of a session client share: the two loops of
-- `copy_h2_body_to_shared_stdout` of tools/transport_bridge/src/main.rs, and the copying loop of the
-- tasks of `run_h3wt_session_client`, which lock it for each line. Tasks run in any interleaving.
pub mod Pieces
pub mod Whole
use muxly.Base.{ℕ, ◌≡◌, Option, none, some, List, [], ◌∷◌, ◌++◌, Bytes, ◌==◌, if◌then◌else◌}

-- Where a task stands. It holds the lock in the three stages behind the first.
pub data Stage : Type 0 where
  between : Stage  -- waits for its response, or for the lock; or it has returned without an error
  locked : (line : Bytes) → Stage
  wrote_line : (line : Bytes) → Stage
  wrote_newline : Stage
  broken : (part rest : Bytes) → Stage  -- has failed, or was aborted, with a part of its line written
  ended : Stage  -- has failed, or was aborted, elsewhere

-- `pending i` are the lines of response `i` that its task has not begun to write, those that have not
-- arrived yet included.
pub record Shared : Type 0 where
  pub stdout : Bytes
  pub lock : Option ℕ  -- the task that holds the guard
  pub pending : ℕ → List Bytes
  pub stage : ℕ → Stage

abbrev pub put : {A : Type 0} → ℕ → A → (ℕ → A) → ℕ → A
put i x f j = if j == i then x else f j

unfoldable pub new_shared : (responses : ℕ → List Bytes) → Shared
new_shared responses = record {
  stdout = [];
  lock = none;
  pending = responses;
  stage = λ _. between;
}

-- A step of one task. In the last four it fails, and `?` returns its error, or it is aborted since
-- the client drops its `JoinSet`; both drop the guard, and other tasks may go on.
pub data Step (s : Shared) : Shared → Type 0 where
  -- `stdout.lock().await`, for the next line of the response
  lock_stdout :
      (i : ℕ) (line : Bytes) (lines : List Bytes)
      → s.stage i ≡ between
      → s.pending i ≡ line ∷ lines
      → s.lock ≡ none
      → Step s (record s {
        lock = some i;
        pending = put i lines s.pending;
        stage = put i (locked line) s.stage;
      })
  write_line :
      (i : ℕ) (line : Bytes)
      → s.stage i ≡ locked line
      → Step s (record s { stdout = s.stdout ++ line; stage = put i (wrote_line line) s.stage })
  write_newline :
      (i : ℕ) (line : Bytes)
      → s.stage i ≡ wrote_line line
      → Step s (record s { stdout = s.stdout ++ b'\n' ∷ []; stage = put i wrote_newline s.stage })
  -- `flush`, and the drop of the guard
  unlock :
      (i : ℕ)
      → s.stage i ≡ wrote_newline
      → Step s (record s { lock = none; stage = put i between s.stage })
  -- `write_all(&line)` ends early: some of the bytes of the line, or none, are on stdout
  break_line :
      (i : ℕ) (line part rest : Bytes)
      → s.stage i ≡ locked line
      → line ≡ part ++ rest
      → Step s (record s {
        stdout = s.stdout ++ part;
        lock = none;
        stage = put i (broken part rest) s.stage;
      })
  -- `write_all(b"\n")` ends early
  break_newline :
      (i : ℕ) (line : Bytes)
      → s.stage i ≡ wrote_line line
      → Step s (record s { lock = none; stage = put i (broken line []) s.stage })
  break_flush :
      (i : ℕ)
      → s.stage i ≡ wrote_newline
      → Step s (record s { lock = none; stage = put i ended s.stage })
  -- while it reads its response, or waits for the lock
  break_off : (i : ℕ) → s.stage i ≡ between → Step s (record s { stage = put i ended s.stage })

pub data Reach (s : Shared) : Shared → Type 0 where
  here : Reach s s
  next : {t u : Shared} → Reach s t → Step t u → Reach s u
