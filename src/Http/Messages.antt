-- ===== src/Http/Messages.antt =====
-- What one side writes, the other side reads: requests and responses.
use mathlib.Core.Bool.{false≢true}
use muxly.Base.{
  ℕ, ◌+◌, ◌≤◌, ◌<◌, ◌≡◌, ◌≢◌, sym, ap, ◌∙◌, none, some, [], ◌∷◌, ◌++◌, append-nil, arith, Bytes,
  Text, codes, length, length-append, All, All-map, All-append, Lacks, usize_max,
}
use muxly.Std.Decimal.{to_text, to_text-IsDigit, length-to_text}
use muxly.Std.Utf8.{IsScalar, as_bytes, as_bytes-append, as_bytes_ascii}
use muxly.Std.Str.{Solid, is_whitespace}
use muxly.Outcome.{ok}
use muxly.Http.{length_line, request_head, response_head}
use muxly.Http.Heads.{header_length-length_line, header_length-host, header_length_fixed}
use muxly.Http.RoundTrip.{IsLine, IsHeader, headers_known}

-- Short ASCII text in one line.
pub ascii-IsLine :
    (max : ℕ) (line : Text)
    → All (λ c. c < 0x80) line
    → Lacks b'\n' line
    → length line + 2 ≤ max
    → IsLine max line
ascii-IsLine max line ascii lacks h = record {
  scalar = All-map _ _ (λ c lt. omega arith) line ascii;
  one_line = lacks;
  fits = rw (as_bytes_ascii line ascii) h;
}

pub length_line-IsHeader :
    (n max : ℕ) → n ≤ max → max < usize_max → 38 ≤ max → IsHeader max (length_line n)
length_line-IsHeader n max h small room =
    let digits = to_text-IsDigit n in
    (
      ascii-IsLine max (length_line n)
          (All-append _ (codes "Content-Length: ") (to_text n) (omega arith)
            (All-map _ _ (λ c d. omega arith) (to_text n) digits))
          (All-append _ (codes "Content-Length: ") (to_text n) (omega arith)
            (All-map _ _ (λ c d. omega arith) (to_text n) digits))
          (omega (arith, length-to_text n)),
      λ e. cc,
    )

pub fixed_headers :
    (max : ℕ)
    → 38 ≤ max
    → IsHeader max (codes "Connection: keep-alive")
      × IsHeader max (codes "Content-Type: application/json")
fixed_headers max room = (
  (
    ascii-IsLine max (codes "Connection: keep-alive") (omega arith) (omega arith) (omega arith),
    λ e. cc,
  ),
  (
    ascii-IsLine max (codes "Content-Type: application/json") (omega arith) (omega arith)
        (omega arith),
    λ e. cc,
  ),
)

-- A request that fits the cap of the bridge that reads it.
pub record Sendable (max : ℕ) (path host_header : Text) (body : Bytes) : Type 0 where
  pub path_ne_nil : path ≢ []
  pub path_solid : Solid path
  pub path_scalar : All IsScalar path
  pub path_fits : length (as_bytes path) + 16 ≤ max
  pub host_scalar : All IsScalar host_header
  pub host_line : Lacks b'\n' host_header
  pub host_fits : length (as_bytes host_header) + 8 ≤ max
  pub body_fits : length body ≤ max
  pub room : 38 ≤ max

Solid-Lacks : (s : Text) → Solid s → Lacks b'\n' s
Solid-Lacks = All-map _ _ (λ c h e. false≢true (sym h ∙ ap is_whitespace e))

length-as_bytes_around :
    (a m b : Text)
    → All (λ c. c < 0x80) a
    → All (λ c. c < 0x80) b
    → length (as_bytes (a ++ (m ++ b))) ≡ length a + (length (as_bytes m) + length b)
length-as_bytes_around a m b ha hb =
    rw
      (
        as_bytes-append a (m ++ b),
        as_bytes-append m b,
        as_bytes_ascii a ha,
        as_bytes_ascii b hb,
        length-append a (as_bytes m ++ b),
      )
      (ap (λ (n : ℕ). length a + n) (length-append (as_bytes m) b))

pub request_line-IsHeader :
    {max : ℕ} {path host_header : Text} {body : Bytes}
    → Sendable max path host_header body
    → IsHeader max (codes "POST " ++ (path ++ codes " HTTP/1.1"))
request_line-IsHeader {path} s = (
  record {
    scalar =
        All-append _ (codes "POST ") _ (omega arith)
          (All-append _ path (codes " HTTP/1.1") s.path_scalar (omega arith));
    one_line =
        All-append _ (codes "POST ") _ (omega arith)
          (All-append _ path (codes " HTTP/1.1") (Solid-Lacks path s.path_solid) (omega arith));
    fits = omega (
      arith,
      length-as_bytes_around (codes "POST ") path (codes " HTTP/1.1") (omega arith) (omega arith),
      s.path_fits,
    );
  },
  λ e. cc,
)

pub host-IsHeader :
    {max : ℕ} {path host_header : Text} {body : Bytes}
    → Sendable max path host_header body
    → IsHeader max (codes "Host: " ++ host_header)
host-IsHeader {host_header} s = (
  record {
    scalar = All-append _ (codes "Host: ") host_header (omega arith) s.host_scalar;
    one_line = All-append _ (codes "Host: ") host_header (omega arith) s.host_line;
    fits = omega (
      arith,
      rw (append-nil host_header) at
          (length-as_bytes_around (codes "Host: ") host_header [] (omega arith) tt),
      s.host_fits,
    );
  },
  λ e. cc,
)

-- What `write_http_request` sends.
abbrev pub request_bytes : Text → Text → Bytes → Bytes
request_bytes path host_header body = as_bytes (request_head path host_header (length body)) ++ body

abbrev pub response_bytes : Bytes → Bytes
response_bytes body = as_bytes (response_head (length body)) ++ body

pub request_headers_known :
    (max n : ℕ) (host_header : Text)
    → n ≤ max
    → max < usize_max
    → headers_known max
        ((codes "Host: " ++ host_header)
          ∷ codes "Connection: keep-alive"
          ∷ codes "Content-Type: application/json"
          ∷ length_line n
          ∷ [])
        none
      ≡ ok (some n)
unfolding headers_known
request_headers_known max n host_header h small = rw (
  header_length-host host_header max none,
  (header_length_fixed max none).0,
  (header_length_fixed max none).1,
  header_length-length_line n max none h small,
)

pub response_headers_known :
    (max n : ℕ)
    → n ≤ max
    → max < usize_max
    → headers_known max
        (codes "Connection: keep-alive"
          ∷ codes "Content-Type: application/json"
          ∷ length_line n
          ∷ [])
        none
      ≡ ok (some n)
unfolding headers_known
response_headers_known max n h small = rw (
  (header_length_fixed max none).0,
  (header_length_fixed max none).1,
  header_length-length_line n max none h small,
)
