-- ===== src/Http/Delivered.antt =====
-- A request and a response of the bridge on a stream are read.
use mathlib.Core.Path.{subst}
use muxly.Base.{
  ℕ, zero, suc, ◌≤◌, ◌<◌, ◌≡◌, ◌∙◌, none, some, [], ◌∷◌, ◌++◌, append_assoc, arith, Bytes, Text,
  codes, length, usize_max,
}
use muxly.Std.Utf8.{as_bytes}
use muxly.Std.Str.{starts_with}
use muxly.Outcome.{ok, eof_in_headers, eof_in_response}
use muxly.Host.{Host, Readable, follow_ok}
use muxly.Http.{
  crlf, head_text, length_line, request_head, response_head, read_first_line, read_http_request,
  read_http_response,
}
use muxly.Http.Heads.{parse_request_line-print}
use muxly.Http.RoundTrip.{
  IsHeader, same-crlf_header, head_text_bytes, read_http_line_complete, read_headers_complete,
}
use muxly.Http.Messages.{
  Sendable, request_bytes, response_bytes, request_headers_known, response_headers_known,
  ascii-IsLine, length_line-IsHeader, fixed_headers, request_line-IsHeader, host-IsHeader,
}

module _ {host : Host} (io : Readable host) {max : ℕ} (small : max < usize_max) where
  open host use {World, Handle}
  open io use {Delivers, read_exact_law}

  read_first_line_header :
      (fuel : ℕ) (w : World) (k : Handle) (line : Text) (rest : Bytes)
      → IsHeader max line
      → Delivers w k (as_bytes (line ++ crlf) ++ rest)
      → (w' : World) × (read_first_line host (suc fuel) k max w ≡ (ok (some (line ++ crlf)), w'))
        × Delivers w' k rest
  unfolding read_first_line
  read_first_line_header fuel w k line rest (good, ne) d =
      let (w', r, d') = read_http_line_complete io small w k line rest good d in
      (w', follow_ok _ r ∙ rw (same-crlf_header line ne), d')

  pub read_http_request_bytes :
      (fuel : ℕ) (w : World) (k : Handle) (path host_header : Text) (body rest : Bytes)
      → 4 < fuel
      → Sendable max path host_header body
      → Delivers w k (request_bytes path host_header body ++ rest)
      → (w' : World) × (read_http_request host fuel k max w
          ≡ (ok (some (record { path = path; body = body })), w'))
        × Delivers w' k rest
  unfolding read_http_request request_head
  read_http_request_bytes zero w k path host_header body rest fuel s d = absurd (omega arith)
  read_http_request_bytes (suc f) w k path host_header body rest fuel s d =
      let n = length body in
      let first = codes "POST " ++ (path ++ codes " HTTP/1.1") in
      let lines =
        (codes "Host: " ++ host_header)
        ∷ codes "Connection: keep-alive"
        ∷ codes "Content-Type: application/json"
        ∷ length_line n
        ∷ [] in
      let at =
        append_assoc (as_bytes (request_head path host_header n)) body rest
        ∙ head_text_bytes first (head_text lines) (body ++ rest) in
      let (w₁, r₁, d₁) =
        read_first_line_header f w k first (as_bytes (head_text lines) ++ (body ++ rest))
          (request_line-IsHeader s) (subst (λ t. Delivers w k t) at d) in
      let (w₂, r₂, d₂) =
        read_headers_complete io small lines (suc f) eof_in_headers w₁ k (body ++ rest) none
          (some n) (omega arith) (omega (arith, s.room))
          (
            host-IsHeader s,
            (
              (fixed_headers max s.room).0,
              (
                (fixed_headers max s.room).1,
                (length_line-IsHeader n max s.body_fits small s.room, tt),
              ),
            ),
          )
          (request_headers_known max n host_header s.body_fits small) d₁ in
      let (w₃, r₃, d₃) = read_exact_law w₂ k body rest d₂ in
      (
        w₃,
        follow_ok _ r₁
            ∙ rw (parse_request_line-print path s.path_ne_nil s.path_solid)
                (follow_ok _ r₂ ∙ follow_ok _ r₃),
        d₃,
      )

  pub read_http_response_bytes :
      (fuel : ℕ) (w : World) (k : Handle) (body rest : Bytes)
      → 3 < fuel
      → length body ≤ max
      → 38 ≤ max
      → Delivers w k (response_bytes body ++ rest)
      → (w' : World) × (read_http_response host fuel k max w ≡ (ok body, w')) × Delivers w' k rest
  unfolding read_http_response response_head starts_with
  read_http_response_bytes fuel w k body rest enough fits room d =
      let n = length body in
      let first = codes "HTTP/1.1 200 OK" in
      let lines =
        codes "Connection: keep-alive"
        ∷ codes "Content-Type: application/json"
        ∷ length_line n
        ∷ [] in
      let at =
        append_assoc (as_bytes (response_head n)) body rest
        ∙ head_text_bytes first (head_text lines) (body ++ rest) in
      let (w₁, r₁, d₁) =
        read_http_line_complete io small w k first (as_bytes (head_text lines) ++ (body ++ rest))
          (ascii-IsLine max first (omega arith) (omega arith) (omega arith))
          (subst (λ t. Delivers w k t) at d) in
      let (w₂, r₂, d₂) =
        read_headers_complete io small lines fuel eof_in_response w₁ k (body ++ rest) none (some n)
          (omega arith) (omega arith)
          (
            (fixed_headers max room).0,
            ((fixed_headers max room).1, (length_line-IsHeader n max fits small room, tt)),
          )
          (response_headers_known max n fits small) d₁ in
      let (w₃, r₃, d₃) = read_exact_law w₂ k body rest d₂ in
      (w₃, follow_ok _ r₁ ∙ follow_ok _ r₂ ∙ r₃, d₃)
