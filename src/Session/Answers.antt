-- ===== src/Session/Answers.antt =====
-- What the HTTP server answers to one request of a connection.
use muxly.Base.{
  ℕ, suc, ◌<◌, ◌≡◌, ◌≢◌, refl, ap, ◌∙◌, sym, false, ◌∷◌, ◌++◌, append_assoc, Bytes, Text, codes,
  same, same_refl, same_iff, Bool-cases, inl, inr, Lacks, length, usize_max,
}
use muxly.Std.Utf8.{as_bytes}
use muxly.Outcome.{ok}
use muxly.Host.{Host, Readable}
use muxly.Line.{pop_if, read_line_message}
use muxly.Line.Framing.{read_line_message_complete}
use muxly.Upstream.{forward_request}
use muxly.Http.{read_http_request, write_http_response, write_http_error, response_head, error_head}
use muxly.Http.Messages.{Sendable, request_bytes, response_bytes}
use muxly.Http.Delivered.{read_http_request_bytes}
use muxly.Relay.Lines.{Flows}
use muxly.Session.{answer_request, handle_http_connection}

module _ {host : Host} {io : Readable host} (fuel max : ℕ) (small : max < usize_max)
    (enough : 4 < fuel) where
  open host use {World, Handle}
  open io use {Delivers}

  -- If a request for the path of the server, as `write_http_request` writes it, stands on the
  -- connection, and the daemon takes its body and answers with a line within the cap, then the client
  -- is sent the line, but for one carriage return at its end, as an HTTP response, and the connection
  -- goes on. The path is not empty and holds no whitespace, the host header holds no newline, the
  -- request line, the line of the host header and the body fit the cap of the server, and the answer
  -- of the daemon holds no newline but the one at its end. Writes to the client go through, the cap is
  -- at least 38 bytes and below `usize::MAX`, and the loops have fuel for five lines.
  pub handle_http_connection-answered :
      {upstream client : Handle} (flows : Flows host io upstream client) (w v : World) (rounds : ℕ)
      (upstream_unix path host_header : Text) (body rest reply more : Bytes)
      → Sendable max path host_header body
      → Delivers w client (request_bytes path host_header body ++ rest)
      → forward_request host upstream_unix body (read_http_request host fuel client max w).1
        ≡ (ok upstream, v)
      → Lacks b'\n' reply
      → length reply < max
      → Delivers v upstream (reply ++ b'\n' ∷ more)
      → (w' : World) × (handle_http_connection host
            (suc rounds)
            fuel
            client
            upstream_unix
            path
            max
            w
          ≡ handle_http_connection host rounds fuel client upstream_unix path max w')
        × (flows.written w'
            ≡ flows.written (read_line_message host upstream max v).1
              ++ response_bytes (pop_if b'\r' reply))
  unfolding handle_http_connection answer_request write_http_response
  handle_http_connection-answered {upstream} {client} flows w v rounds upstream_unix path
        host_header body rest reply more s d connected plain fits answers =
      let (w₁, e₁, d₁) =
        read_http_request_bytes io small fuel w client path host_header body rest enough s d in
      let connected' = ap (λ p. forward_request host upstream_unix body p.1) (sym e₁) ∙ connected in
      let (w₂, e₂, d₂) =
        read_line_message_complete io v upstream reply more max small plain fits answers in
      let response = pop_if b'\r' reply in
      let head = as_bytes (response_head (length response)) in
      let (w₃, e₃, s₃, d₃) = flows.write_all_flows w₂ more head d₂ in
      let (w₄, e₄, s₄, d₄) = flows.write_all_flows w₃ more response d₃ in
      let (w₅, e₅, s₅, d₅) = flows.flush_flows w₄ more d₄ in
      (
        w₅,
        rw e₁ (rw (same_refl path) (rw connected' (rw e₂ (rw e₃ (rw e₄ (rw e₅ refl)))))),
        s₅
            ∙ s₄
            ∙ ap (λ t. t ++ response) s₃
            ∙ append_assoc (flows.written w₂) head response
            ∙ ap (λ p. flows.written p.1 ++ response_bytes response) (sym e₂),
      )

  -- If a request for another path than the server's, as `write_http_request` writes it, stands on the
  -- connection, the client is sent the response 404, and the connection goes on with what stands
  -- behind the request. The path of the request is not empty and holds no whitespace, the
  -- host header holds no newline, and the request line, the line of the host header and the body fit
  -- the cap of the server. Writes to the client go through, the cap is at least 38 bytes and below
  -- `usize::MAX`, and the loops have fuel for five lines.
  pub handle_http_connection-not_found :
      {client : Handle} (flows : Flows host io client client) (w : World) (rounds : ℕ)
      (upstream_unix expected path host_header : Text) (body rest : Bytes)
      → Sendable max path host_header body
      → path ≢ expected
      → Delivers w client (request_bytes path host_header body ++ rest)
      → (w' : World) × (handle_http_connection host
            (suc rounds)
            fuel
            client
            upstream_unix
            expected
            max
            w
          ≡ handle_http_connection host rounds fuel client upstream_unix expected max w')
        × (flows.written w'
            ≡ flows.written (read_http_request host fuel client max w).1
              ++ as_bytes (error_head 404 (codes "Not Found")))
        × Delivers w' client rest
  unfolding handle_http_connection answer_request write_http_error
  handle_http_connection-not_found {client} flows w rounds upstream_unix expected path host_header
        body rest s ne d =
      let other : same path expected ≡ false = elim (Bool-cases (same path expected)) [
        | inl e ↦ absurd (ne ((same_iff path expected).0 e))
        | inr e ↦ e
      ] in
      let (w₁, e₁, d₁) =
        read_http_request_bytes io small fuel w client path host_header body rest enough s d in
      let (w₂, e₂, s₂, d₂) =
        flows.write_all_flows w₁ rest (as_bytes (error_head 404 (codes "Not Found"))) d₁ in
      let (w₃, e₃, s₃, d₃) = flows.flush_flows w₂ rest d₂ in
      (
        w₃,
        rw e₁ (rw other (rw e₂ (rw e₃ refl))),
        s₃
            ∙ s₂
            ∙ ap (λ p. flows.written p.1 ++ as_bytes (error_head 404 (codes "Not Found"))) (sym e₁),
        d₃,
      )
