-- ===== src/Decoder.antt =====
-- `H2LineDecoder` and its users `read_h2_request_body`, `copy_h2_body_to_stdout` and
-- `copy_h2_body_to_shared_stdout` of tools/transport_bridge/src/main.rs. A body is the sequence of
-- what `body.data().await` returns until its `None`: a chunk or an error each.
pub mod Chunks
pub mod Body
pub mod Output
use muxly.Base.{
  ℕ, zero, suc, ◌<◌, Bool, true, false, Option, none, some, List, [], ◌∷◌, ◌++◌, Bytes, ltb,
  if◌then◌else◌, length,
}
use muxly.Std.Str.{split_once}
use muxly.Outcome.{
  Result, ok, err, ◌>>=◌ as and_then, message_exceeds_cap, multiple_messages, missing_h2_body,
}
use muxly.Host.{Host, Io, pure, lift, ◌>>=◌, ◌>>◌}
use muxly.Line.{pop_line_ending}

pub record H2LineDecoder : Type 0 where
  pub buffer : Bytes
  pub max_message_bytes : ℕ

unfoldable pub new : ℕ → H2LineDecoder
new max_message_bytes = record { buffer = []; max_message_bytes = max_message_bytes }

-- The loop of `push_chunk`: the lines in the buffer, and what is left of it. A round finds the first
-- newline and drains the buffer up to it.
unfoldable pub drain_lines : ℕ → Bytes → List Bytes × Bytes
drain_lines zero buffer = ([], buffer)
drain_lines (suc fuel) buffer = elim (split_once b'\n' buffer) [
  | none ↦ ([], buffer)
  | some (before, behind) ↦
      let rest = drain_lines fuel behind in
      (pop_line_ending (before ++ b'\n' ∷ []) ∷ rest.0, rest.1)
]

-- The buffer keeps the chunk also where the cap is exceeded. Every round shortens the buffer, so its
-- length is enough fuel.
unfoldable pub push_chunk : H2LineDecoder → Bytes → Result (List Bytes) × H2LineDecoder
unfolding drain_lines
push_chunk decoder chunk =
    let buffer = decoder.buffer ++ chunk in
    let drained = drain_lines (length buffer) buffer in
    if ltb decoder.max_message_bytes (length buffer)
    then (err (message_exceeds_cap decoder.max_message_bytes), record decoder { buffer = buffer })
    else (ok drained.0, record decoder { buffer = drained.1 })

unfoldable pub finish : H2LineDecoder → List Bytes × H2LineDecoder
finish decoder = elim decoder.buffer [
  | [] ↦ ([], decoder)
  | c ∷ s ↦ ((c ∷ s) ∷ [], record decoder { buffer = [] })
]

-- What `read_h2_request_body` makes of the lines of a chunk: `none` to go on with the next chunk.
unfoldable pub one_message : List Bytes → Result (Option Bytes)
one_message [] = ok none
one_message (line ∷ []) = ok (some line)
one_message (line ∷ _ ∷ _) = err multiple_messages

-- The lines of `finish`.
last_message : List Bytes → Result Bytes
last_message [] = err missing_h2_body
last_message (line ∷ []) = ok line
last_message (line ∷ _ ∷ _) = err multiple_messages

-- One chunk, as the loop of `read_h2_request_body` takes it.
unfoldable pub take_chunk : H2LineDecoder → Result Bytes → Result (Option Bytes) × H2LineDecoder
take_chunk decoder (err e) = (err e, decoder)
take_chunk decoder (ok chunk) =
    let (lines, decoder') = push_chunk decoder chunk in (and_then lines one_message, decoder')

-- An early return, or the rest of the loop.
abbrev pub after_chunk : Result (Option Bytes) → Result Bytes → Result Bytes
after_chunk (err e) rest = err e
after_chunk (ok (some line)) rest = ok line
after_chunk (ok none) rest = rest

unfoldable pub read_chunks : H2LineDecoder → List (Result Bytes) → Result Bytes
unfolding last_message
read_chunks decoder [] = last_message (finish decoder).0
read_chunks decoder (event ∷ events) =
    let taken = take_chunk decoder event in after_chunk taken.0 (read_chunks taken.1 events)

unfoldable pub read_h2_request_body : List (Result Bytes) → ℕ → Result Bytes
read_h2_request_body body max_message_bytes = read_chunks (new max_message_bytes) body

module _ (host : Host) where
  open host use {World, Handle, write_all, flush}

  -- The bodies of both loops of `copy_h2_body_to_stdout`; in `copy_h2_body_to_shared_stdout` the
  -- three calls are made under the lock on `stdout`.
  unfoldable pub write_lines : Handle → List Bytes → Io World (Unit {0})
  write_lines stdout [] = pure tt
  write_lines stdout (line ∷ lines) = do
    write_all stdout line
    write_all stdout (b'\n' ∷ [])
    flush stdout
    write_lines stdout lines

  unfoldable pub copy_chunks : Handle → H2LineDecoder → List (Result Bytes) → Io World (Unit {0})
  copy_chunks stdout decoder [] = write_lines stdout (finish decoder).0
  copy_chunks stdout decoder (event ∷ events) = do
    chunk ← lift event
    let pushed = push_chunk decoder chunk
    lines ← lift pushed.0
    write_lines stdout lines
    copy_chunks stdout pushed.1 events

  unfoldable pub copy_h2_body_to_stdout : Handle → List (Result Bytes) → ℕ → Io World (Unit {0})
  copy_h2_body_to_stdout stdout body max_message_bytes =
      copy_chunks stdout (new max_message_bytes) body
