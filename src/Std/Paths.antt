-- ===== src/Std/Paths.antt =====
-- `Path` and `PathBuf` on Unix, as text.
use mathlib.Core.List.{reverse}
use muxly.Base.{
  Bool, false, ◌&&◌, ◌||◌, Option, none, some, [], ◌∷◌, ◌++◌, Text, last, ◌==◌, if◌then◌else◌,
}

abbrev starts_with_slash : Text → Bool
starts_with_slash [] = false
starts_with_slash (c ∷ s) = c == b'/'

-- A separator between a path that is not empty and does not end with one, and a relative path.
unfoldable pub join : Text → Text → Text
join base name = elim (last base) [
  | none ↦ name
  | some c ↦ if c == b'/' then base ++ name else base ++ b'/' ∷ name
]

-- From the end of a path, in reverse: separators, and components `.` behind a separator.
skip_separators : Text → Text
skip_separators [] = []
skip_separators (c ∷ s) =
    let rest = skip_separators s in
    if c == b'/' || (c == b'.' && starts_with_slash s) then rest else c ∷ s

skip_component : Text → Text
skip_component [] = []
skip_component (c ∷ s) = let rest = skip_component s in if c == b'/' then c ∷ s else rest

-- The root, where nothing else is left of an absolute path.
or_root : Text → Text → Text
or_root path [] = if starts_with_slash path then b'/' ∷ [] else []
or_root path (c ∷ s) = c ∷ s

-- `Path::parent`: none for the root and the empty path.
unfoldable pub parent : Text → Option Text
unfolding skip_separators skip_component or_root
parent path = elim (skip_separators (reverse path)) [
  | [] ↦ none
  | c ∷ s ↦ some (or_root path (reverse (skip_separators (skip_component (c ∷ s)))))
]
