-- ===== src/Session/Requests.antt =====
-- What the HTTP client does with one request of its caller.
use muxly.Base.{
  ℕ, suc, ◌≤◌, ◌<◌, ◌≡◌, refl, ap, ◌∙◌, sym, [], ◌∷◌, ◌++◌, append_assoc, Bytes, Text, Lacks,
  length, usize_max,
}
use muxly.Outcome.{ok}
use muxly.Host.{Host, Readable}
use muxly.Line.{pop_if, read_line_message}
use muxly.Line.Framing.{read_line_message_complete}
use muxly.Http.{read_http_response, write_http_request}
use muxly.Http.Messages.{response_bytes}
use muxly.Http.Delivered.{read_http_response_bytes}
use muxly.Relay.Lines.{Flows}
use muxly.Session.{run_http_client_on_stream}

module _ {host : Host} {io : Readable host} (fuel max : ℕ) (small : max < usize_max)
    (enough : 3 < fuel) (room : 38 ≤ max) where
  open host use {World, Handle, flush}
  open io use {Delivers}

  -- A line on stdin, within the cap with its newline, is sent as the body of an HTTP request, but for
  -- one carriage return at its end. If the request is written and flushed without an error, and the
  -- peer then delivers a response as the bridge writes it, with a body within the cap, which is at
  -- least 38 bytes, then the client writes the body and a newline to stdout, and goes on with its next
  -- line, and the connection with what stands behind the response. Writes to stdout go through, the
  -- loop that reads the response has fuel for four lines, and the cap is below `usize::MAX`.
  pub run_http_client_on_stream-answered :
      {network stdout : Handle} (flows : Flows host io network stdout) (w v₀ v : World)
      (stdin : Handle) (rounds : ℕ) (host_header path : Text) (line rest reply more : Bytes)
      → Lacks b'\n' line
      → length line < max
      → Delivers w stdin (line ++ b'\n' ∷ rest)
      → write_http_request host network path host_header
          (pop_if b'\r' line)
          (read_line_message host stdin max w).1
        ≡ (ok tt, v₀)
      → flush network v₀ ≡ (ok tt, v)
      → length reply ≤ max
      → Delivers v network (response_bytes reply ++ more)
      → (w' : World) × (run_http_client_on_stream host
            (suc rounds)
            fuel
            stdin
            stdout
            network
            host_header
            path
            max
            w
          ≡ run_http_client_on_stream host rounds fuel stdin stdout network host_header path max w')
        × (flows.written w'
            ≡ flows.written (read_http_response host fuel network max v).1 ++ (reply ++ b'\n' ∷ []))
        × Delivers w' network more
  unfolding run_http_client_on_stream
  run_http_client_on_stream-answered {network} {stdout} flows w v₀ v stdin rounds host_header path
        line rest reply more plain fits d sent flushed body_fits answers =
      let (w₁, e₁, d₁) = read_line_message_complete io w stdin line rest max small plain fits d in
      let body = pop_if b'\r' line in
      let sent' =
        ap (λ p. write_http_request host network path host_header body p.1) (sym e₁) ∙ sent in
      let (w₂, e₂, d₂) =
        read_http_response_bytes io small fuel v network reply more enough body_fits room answers in
      let newline = b'\n' ∷ [] in
      let (w₃, e₃, s₃, d₃) = flows.write_all_flows w₂ more reply d₂ in
      let (w₄, e₄, s₄, d₄) = flows.write_all_flows w₃ more newline d₃ in
      let (w₅, e₅, s₅, d₅) = flows.flush_flows w₄ more d₄ in
      (
        w₅,
        rw e₁ (rw sent' (rw flushed (rw e₂ (rw e₃ (rw e₄ (rw e₅ refl)))))),
        s₅
            ∙ s₄
            ∙ ap (λ t. t ++ newline) s₃
            ∙ append_assoc (flows.written w₂) reply newline
            ∙ ap (λ p. flows.written p.1 ++ (reply ++ newline)) (sym e₂),
        d₅,
      )
