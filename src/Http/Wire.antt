-- ===== src/Http/Wire.antt =====
-- The writer at one end and the reader at the other, over a stream that carries the bytes unchanged.
use muxly.Base.{
  ℕ, ◌≤◌, ◌<◌, ◌≡◌, ap, ◌∙◌, some, [], ◌++◌, append_assoc, Bytes, Text, length, usize_max,
}
use mathlib.Core.Path.{subst}
use muxly.Std.Utf8.{as_bytes}
use muxly.Outcome.{ok}
use muxly.Host.{Host, Readable, Writable, follow-eq-ok}
use muxly.Http.{
  request_head, response_head, read_http_request, read_http_response, write_http_request,
  write_http_response,
}
use muxly.Http.Messages.{Sendable, request_bytes, response_bytes}
use muxly.Http.Delivered.{read_http_request_bytes, read_http_response_bytes}

module _ {host : Host} (out : Writable host) where
  open host use {World, Handle, write_all}
  open out use {written, write_all_law}

  -- A head and a body, one after the other.
  written_twice :
      (w : World) (k : Handle) (a b : Bytes)
      → (write_all k a w).0 ≡ ok tt
      → (write_all k b (write_all k a w).1).0 ≡ ok tt
      → written (write_all k b (write_all k a w).1).1 k ≡ written w k ++ (a ++ b)
  written_twice w k a b ea eb =
      write_all_law (write_all k a w).1 k b eb
      ∙ ap (λ t. t ++ b) (write_all_law w k a ea)
      ∙ append_assoc (written w k) a b

  write_http_request-written :
      (w : World) (k : Handle) (path host_header : Text) (body : Bytes)
      → (write_http_request host k path host_header body w).0 ≡ ok tt
      → written (write_http_request host k path host_header body w).1 k
        ≡ written w k ++ request_bytes path host_header body
  unfolding write_http_request
  write_http_request-written w k path host_header body h =
      let head = as_bytes (request_head path host_header (length body)) in
      let (_, e₁, e₂, e₃) = follow-eq-ok (write_all k head w) (λ _. write_all k body) h in
      ap (λ v. written v k) e₃ ∙ written_twice w k head body e₁ e₂

  write_http_response-written :
      (w : World) (k : Handle) (body : Bytes)
      → (write_http_response host k body w).0 ≡ ok tt
      → written (write_http_response host k body w).1 k ≡ written w k ++ response_bytes body
  unfolding write_http_response
  write_http_response-written w k body h =
      let head = as_bytes (response_head (length body)) in
      let (_, e₁, e₂, e₃) = follow-eq-ok (write_all k head w) (λ _. write_all k body) h in
      ap (λ v. written v k) e₃ ∙ written_twice w k head body e₁ e₂

  module _ (io : Readable host) (fuel max : ℕ) (small : max < usize_max) where
    open io use {Delivers}

    -- If `write_http_request` succeeds on a fresh stream, a reader to whom another stream delivers
    -- what was written, with anything behind it, gets the path and the body back from
    -- `read_http_request`, and the stream is left at what stands behind the request. The path is
    -- not empty and holds no whitespace, the host header no newline, the request line, the line of
    -- the host header and the body fit the cap, which is at least 38 bytes and below `usize::MAX`, and
    -- the loops have fuel for five lines.
    pub read_http_request-write_http_request :
        (w v : World) (k j : Handle) (path host_header : Text) (body rest : Bytes)
        → 4 < fuel
        → Sendable max path host_header body
        → written w k ≡ []
        → (write_http_request host k path host_header body w).0 ≡ ok tt
        → Delivers v j (written (write_http_request host k path host_header body w).1 k ++ rest)
        → (v' : World) × (read_http_request host fuel j max v
            ≡ (ok (some (record { path = path; body = body })), v'))
          × Delivers v' j rest
    read_http_request-write_http_request w v k j path host_header body rest enough s fresh sent d =
        let bytes = request_bytes path host_header body in
        let all =
          write_http_request-written w k path host_header body sent ∙ ap (λ t. t ++ bytes) fresh in
        read_http_request_bytes io small fuel v j path host_header body rest enough s
          (subst (λ t. Delivers v j (t ++ rest)) all d)

    -- If `write_http_response` succeeds on a fresh stream, a reader to whom another stream delivers
    -- what was written, with anything behind it, gets the body back from `read_http_response`, and the
    -- stream is left at what stands behind the response. The body fits the cap, which is at least 38
    -- bytes and below `usize::MAX`, and the loop has fuel for four lines.
    pub read_http_response-write_http_response :
        (w v : World) (k j : Handle) (body rest : Bytes)
        → 3 < fuel
        → length body ≤ max
        → 38 ≤ max
        → written w k ≡ []
        → (write_http_response host k body w).0 ≡ ok tt
        → Delivers v j (written (write_http_response host k body w).1 k ++ rest)
        → (v' : World) × (read_http_response host fuel j max v ≡ (ok body, v')) × Delivers v' j rest
    read_http_response-write_http_response w v k j body rest enough fits room fresh sent d =
        let all =
          write_http_response-written w k body sent ∙ ap (λ t. t ++ response_bytes body) fresh in
        read_http_response_bytes io small fuel v j body rest enough fits room
          (subst (λ t. Delivers v j (t ++ rest)) all d)
