-- ===== src/Relay/Requests.antt =====
-- One WebTransport stream of the server, from its request to its responses.
use muxly.Base.{
  ℕ, ◌<◌, ◌≡◌, refl, ap, ◌∙◌, sym, false, not, ◌||◌, List, [], ◌∷◌, ◌++◌, Bytes, Text, Lacks, All,
  length, if◌then◌else◌, usize_max,
}
use muxly.Outcome.{ok, err, upstream_closed}
use muxly.Host.{Host, Readable, fail}
use muxly.Line.{pop_if, read_line_message}
use muxly.Line.Framing.{read_line_message_complete}
use muxly.Upstream.{forward_request}
use muxly.Decoder.Output.{printed}
use muxly.Stream.Responses.{forwarded}
use muxly.Relay.{H3, handle_h3wt_bi_stream}
use muxly.Relay.Lines.{Flows, is_nonempty, relay-forwarded}

module _ {host : Host} {io : Readable host} (h3 : H3 host) {send upstream : host.Handle}
    (flows : Flows host io upstream send) where
  open host use {World, Handle}
  open h3 use {finish}
  open io use {Delivers}
  open flows use {written}

  -- If a request stands on the stream, with its newline and within the cap, and the daemon takes it,
  -- but for one carriage return at its end, and answers with these lines before it closes, each with
  -- its newline and within the cap, then the stream is sent the lines, but for a carriage return at
  -- the end of each, in order, and is finished; or the error is that the daemon closed before a
  -- response, if there is no line. A unit of fuel more than there are lines is enough, and
  -- the cap is below `usize::MAX`. The request and the lines hold no newline.
  pub handle_h3wt_bi_stream-forwarded :
      (w v : World) (recv : Handle) (upstream_unix : Text) (request rest : Bytes)
      (lines : List Bytes) (fuel max : ℕ)
      → max < usize_max
      → length lines < fuel
      → Lacks b'\n' request
      → length request < max
      → All (λ line. Lacks b'\n' line × (length line < max)) lines
      → Delivers w recv (request ++ b'\n' ∷ rest)
      → forward_request host upstream_unix
          (pop_if b'\r' request)
          (read_line_message host recv max w).1
        ≡ (ok upstream, v)
      → Delivers v upstream (printed lines)
      → (w' : World) × (handle_h3wt_bi_stream host h3 fuel send recv upstream_unix max w
          ≡ (if is_nonempty lines then finish send w' else (err upstream_closed, w')))
        × (written w' ≡ written v ++ forwarded lines)
  unfolding handle_h3wt_bi_stream
  handle_h3wt_bi_stream-forwarded w v recv upstream_unix request rest lines fuel max small enough
        plain fits all d connected answers =
      let (w₁, e₁, d₁) = read_line_message_complete io w recv request rest max small plain fits d in
      let connected' =
        ap (λ p. forward_request host upstream_unix (pop_if b'\r' request) p.1) (sym e₁)
        ∙ connected in
      let (w₂, e₂, s₂) = relay-forwarded flows lines fuel max false v small enough all answers in
      (w₂, rw e₁ (rw connected' (rw e₂ (ends lines w₂))), s₂)
    where
      ends :
          (ls : List Bytes) (u : World)
          → ((if not (is_nonempty ls || false) then fail upstream_closed else finish send) u)
            ≡ (if is_nonempty ls then finish send u else (err upstream_closed, u))
      ends [] u = refl
      ends (l ∷ ls) u = refl
