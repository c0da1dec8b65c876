-- ===== src/Http.antt =====
-- HTTP/1.1 heads and bodies: `read_http_request`, `read_http_response`, `read_http_line`,
-- `parse_content_length` and the `write_http_*` functions of tools/transport_bridge/src/main.rs.
-- The loops over lines take fuel.
pub mod Heads
pub mod RoundTrip
pub mod Messages
pub mod Delivered
pub mod Wire
pub mod Cap
pub mod Settled
pub mod Fuel
use muxly.Base.{
  ℕ, zero, suc, ◌<◌, Bool, true, false, not, ◌||◌, Option, none, some, List, [], ◌∷◌, ◌++◌, Bytes,
  Text, codes, same, ltb, ◌==◌, if◌then◌else◌, length, usize_max,
}
use muxly.Std.Decimal.{to_text, parse}
use muxly.Std.Utf8.{as_bytes, from_utf8}
use muxly.Std.Str.{starts_with, trim, trim_end, split_whitespace, split_once, eq_ignore_ascii_case}
use muxly.Outcome.{
  Error, Result, ok, err, ok_or, out_of_fuel, body_exceeds_cap, not_utf8, missing_http_method,
  missing_http_path, missing_http_version, unsupported_request_line, eof_in_headers,
  eof_in_response, unexpected_status_line, missing_content_length, invalid_content_length,
}
use muxly.Host.{Host, Io, pure, fail, lift, ◌>>=◌, ◌>>◌}
use muxly.Line.{read_line_message_with_cap}

pub record HttpRequest : Type 0 where
  pub path : Text
  pub body : Bytes

abbrev pub crlf : Text
crlf = 13 ∷ 10 ∷ []

unfoldable pub parse_content_length : Text → ℕ → Result ℕ
parse_content_length value max_message_bytes = elim (parse usize_max value) [
  | none ↦ err invalid_content_length
  | some n ↦ if ltb max_message_bytes n then err (body_exceeds_cap max_message_bytes) else ok n
]

-- One round of the header loop on a line that is not blank: the content length known after it.
unfoldable pub header_length : Text → ℕ → Option ℕ → Result (Option ℕ)
unfolding parse_content_length
header_length line max_message_bytes content_length = elim (split_once b':' line) [
  | none ↦ ok content_length
  | some (name, value) ↦
      if eq_ignore_ascii_case name (codes "content-length")
      then (elim (parse_content_length (trim value) max_message_bytes) [
        | ok n ↦ ok (some n)
        | err e ↦ err e
      ])
      else ok content_length
]

-- The path of a request line, from its parts.
request_path : Text → List Text → Result Text
request_path line [] = err missing_http_method
request_path line (method ∷ []) = err missing_http_path
request_path line (method ∷ path ∷ []) = err missing_http_version
request_path line (method ∷ path ∷ version ∷ _) =
    if not (same method (codes "POST")) || not (starts_with version (codes "HTTP/1.1"))
    then err (unsupported_request_line line)
    else ok path

unfoldable pub parse_request_line : Text → Result Text
unfolding request_path
parse_request_line line = request_path line (split_whitespace (trim_end line))

-- The lines of a head, each with its line ending, and the blank line behind them.
abbrev pub head_text : List Text → Text
head_text [] = crlf
head_text (line ∷ lines) = line ++ (crlf ++ head_text lines)

abbrev pub length_line : ℕ → Text
length_line content_length = codes "Content-Length: " ++ to_text content_length

unfoldable pub request_head : Text → Text → ℕ → Text
request_head path host content_length = head_text (
    (codes "POST " ++ (path ++ codes " HTTP/1.1"))
    ∷ (codes "Host: " ++ host)
    ∷ codes "Connection: keep-alive"
    ∷ codes "Content-Type: application/json"
    ∷ length_line content_length
    ∷ [])

unfoldable pub response_head : ℕ → Text
response_head content_length = head_text (
    codes "HTTP/1.1 200 OK"
    ∷ codes "Connection: keep-alive"
    ∷ codes "Content-Type: application/json"
    ∷ length_line content_length
    ∷ [])

unfoldable pub error_head : ℕ → Text → Text
error_head status message = head_text (
    (codes "HTTP/1.1 " ++ (to_text status ++ (codes " " ++ message)))
    ∷ codes "Connection: keep-alive"
    ∷ codes "Content-Length: 0"
    ∷ [])

-- What `read_http_line` makes of the bytes that were read.
unfoldable pub http_line : ℕ → Bytes → Result (Option Text)
http_line bytes_read line =
    if bytes_read == 0
    then ok none
    else (elim (from_utf8 line) [ none ↦ err not_utf8 | some text ↦ ok (some text) ])

-- A round of the loop over the headers; `again` is the loop's next round.
unfoldable pub header_round :
    {W : Type 0}
    → Error
    → ℕ
    → Option ℕ
    → (again : Option ℕ → Io W (Option ℕ)) → Option Text
    → Io W (Option ℕ)
header_round eof max_message_bytes content_length again none = fail eof
header_round eof max_message_bytes content_length again (some line) =
    if same line crlf
    then pure content_length
    else (lift (header_length line max_message_bytes content_length) >>= again)

module _ (host : Host) where
  open host use {World, Handle, read_exact, write_all}

  -- A line with its line ending; `none` at the end of the stream.
  unfoldable pub read_http_line : Handle → ℕ → Io World (Option Text)
  read_http_line reader max_message_bytes = do
    (bytes_read, line) ← read_line_message_with_cap host reader [] max_message_bytes
    lift (http_line bytes_read line)

  -- The first line that is not blank.
  unfoldable pub read_first_line : ℕ → Handle → ℕ → Io World (Option Text)
  read_first_line zero reader max_message_bytes = fail out_of_fuel
  read_first_line (suc fuel) reader max_message_bytes = do
    next ← read_http_line reader max_message_bytes
    elim next [
      | none ↦ pure none
      | some line ↦ elim (same line crlf) [
        | true ↦ read_first_line fuel reader max_message_bytes
        | false ↦ pure (some line)
      ]
    ]

  -- The loop over the headers, up to the blank line behind them.
  unfoldable pub read_headers : ℕ → Error → Handle → ℕ → Option ℕ → Io World (Option ℕ)
  read_headers zero eof reader max_message_bytes content_length = fail out_of_fuel
  read_headers (suc fuel) eof reader max_message_bytes content_length = do
    next ← read_http_line reader max_message_bytes
    header_round eof max_message_bytes content_length
        (λ known. read_headers fuel eof reader max_message_bytes known) next

  unfoldable pub read_http_request : ℕ → Handle → ℕ → Io World (Option HttpRequest)
  read_http_request fuel reader max_message_bytes = do
    first ← read_first_line fuel reader max_message_bytes
    elim first [
      | none ↦ pure none
      | some request_line ↦ do
        path ← lift (parse_request_line request_line)
        known ← read_headers fuel eof_in_headers reader max_message_bytes none
        content_length ← lift (ok_or known missing_content_length)
        body ← read_exact reader content_length
        pure (some (record { path = path; body = body }))
    ]

  unfoldable pub read_http_response : ℕ → Handle → ℕ → Io World Bytes
  read_http_response fuel reader max_message_bytes = do
    first ← read_http_line reader max_message_bytes
    status_line ← lift (ok_or first eof_in_response)
    if not (starts_with status_line (codes "HTTP/1.1 200"))
        then fail (unexpected_status_line (trim_end status_line))
        else (do
          known ← read_headers fuel eof_in_response reader max_message_bytes none
          content_length ← lift (ok_or known missing_content_length)
          read_exact reader content_length)

  unfoldable pub write_http_request : Handle → Text → Text → Bytes → Io World (Unit {0})
  write_http_request writer path host_header body = do
    write_all writer (as_bytes (request_head path host_header (length body)))
    write_all writer body

  unfoldable pub write_http_response : Handle → Bytes → Io World (Unit {0})
  write_http_response writer body = do
    write_all writer (as_bytes (response_head (length body)))
    write_all writer body

  unfoldable pub write_http_error : Handle → ℕ → Text → Io World (Unit {0})
  write_http_error writer status message = write_all writer (as_bytes (error_head status message))
