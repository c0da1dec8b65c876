-- ===== src/Shared/Pieces.antt =====
-- What the tasks of a session client leave on stdout: pieces of lines.
use muxly.Base.{
  ℕ, ◌≡◌, refl, sym, ap, ◌∙◌, arith, Bool, true, false, Option, none, some, List, [], ◌∷◌, ◌++◌,
  append_assoc, append-nil, Bytes, ◌==◌, if◌then◌else◌,
}
use muxly.Shared.{Stage, locked, wrote_line, wrote_newline, broken}

-- What a task has put on stdout for one line: all of it and its newline, or a part of it.
pub data Piece : Type 0 where
  whole : (line : Bytes) → Piece
  cut : (part rest : Bytes) → Piece

abbrev pub text : Piece → Bytes
text (whole line) = line ++ b'\n' ∷ []
text (cut part rest) = part

-- The pieces on stdout, in their order, each with its task.
abbrev pub Log : Type 0
Log = List (ℕ × Piece)

abbrev pub texts : Log → Bytes
texts [] = []
texts ((i, piece) ∷ log) = text piece ++ texts log

abbrev pub pieces_of : ℕ → Log → List Piece
pieces_of i [] = []
pieces_of i ((j, piece) ∷ log) = if j == i then piece ∷ pieces_of i log else pieces_of i log

abbrev pub wholes : List Bytes → List Piece
wholes [] = []
wholes (line ∷ lines) = whole line ∷ wholes lines

-- The last piece of a task that broke off within a line.
abbrev pub remnant : Stage → List Piece
remnant (broken part rest) = cut part rest ∷ []
remnant _ = []

-- What a task has written of the line that it is at, and that line, until its newline is written.
abbrev pub begun : Stage → Bytes
begun (wrote_line line) = line
begun _ = []

abbrev pub current : Stage → List Bytes
current (locked line) = line ∷ []
current (wrote_line line) = line ∷ []
current (broken part rest) = (part ++ rest) ∷ []
current _ = []

-- The unfinished line at the end of stdout: what the holder of the lock has written of its own.
abbrev pub partial : Option ℕ → (ℕ → Stage) → Bytes
partial none stage = []
partial (some i) stage = begun (stage i)

abbrev pub is_holding : Stage → Bool
is_holding (locked line) = true
is_holding (wrote_line line) = true
is_holding wrote_newline = true
is_holding _ = false

pub texts-snoc :
    (log : Log) (i : ℕ) (piece : Piece) → texts (log ++ (i, piece) ∷ []) ≡ texts log ++ text piece
texts-snoc [] i piece = append-nil (text piece)
texts-snoc ((j, x) ∷ log) i piece =
    ap (λ t. text x ++ t) (texts-snoc log i piece)
    ∙ sym (append_assoc (text x) (texts log) (text piece))

pub pieces_of-snoc :
    (i j : ℕ) (piece : Piece) (log : Log)
    → pieces_of i (log ++ (j, piece) ∷ []) ≡ pieces_of i log ++ (if j == i then piece ∷ [] else [])
pieces_of-snoc i j piece [] = ground arith
pieces_of-snoc i j piece ((k, x) ∷ log) = ground (arith, pieces_of-snoc i j piece log)

pub wholes-snoc :
    (lines : List Bytes) (line : Bytes)
    → wholes (lines ++ line ∷ []) ≡ wholes lines ++ whole line ∷ []
wholes-snoc [] line = refl
wholes-snoc (x ∷ lines) line = ap (λ t. whole x ∷ t) (wholes-snoc lines line)
