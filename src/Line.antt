-- ===== src/Line.antt =====
-- `read_line_message` and `read_line_message_with_cap` of tools/transport_bridge/src/main.rs: newline
-- delimited messages with a cap on their size.
pub mod Cut
pub mod Framing
use muxly.Base.{
  ℕ, ◌+◌, ◌%◌, ◌^◌, Option, none, some, [], ◌++◌, Bytes, ltb, ◌==◌, if◌then◌else◌, length, last,
  drop_last, Bool, true, false,
}
use muxly.Outcome.{message_exceeds_cap}
use muxly.Host.{Host, Io, pure, fail, ◌>>=◌, ◌>>◌}

-- `if line.last().copied() == Some(byte) { line.pop(); }`
abbrev pub pop_if : ℕ → Bytes → Bytes
pop_if byte line = elim (last line) [
  | none ↦ line
  | some c ↦ if c == byte then drop_last line else line
]

-- The newline goes first, then a carriage return in front of it.
abbrev pub pop_line_ending : Bytes → Bytes
pop_line_ending line = pop_if b'\r' (pop_if b'\n' line)

module _ (host : Host) where
  open host use {World, Handle, read_until}

  -- The bytes read and the buffer behind them. `max_bytes + 1` is a `usize`: it wraps around.
  unfoldable pub read_line_message_with_cap : Handle → Bytes → ℕ → Io World (ℕ × Bytes)
  read_line_message_with_cap reader buffer max_bytes = do
    line ← read_until reader ((max_bytes + 1) % 2 ^ 64) b'\n'
    let buffer' = buffer ++ line
    if ltb max_bytes (length buffer')
        then fail (message_exceeds_cap max_bytes)
        else pure (length line, buffer')

  unfoldable pub read_line_message : Handle → ℕ → Io World (Option Bytes)
  read_line_message reader max_message_bytes = do
    (bytes_read, line) ← read_line_message_with_cap reader [] max_message_bytes
    pure (if bytes_read == 0 then none else some (pop_line_ending line))
