-- ===== src/H2Client/Received.antt =====
-- From a client's request to the body that the server reads.
use muxly.Base.{
  ℕ, ◌<◌, ◌≡◌, sym, ap, ◌∙◌, Bool, true, List, [], ◌∷◌, ◌++◌, Bytes, Text, codes, Lacks, length,
}
use muxly.Outcome.{ok}
use muxly.Host.{Host, follow-eq-ok}
use muxly.Line.{pop_if}
use muxly.Decoder.{read_h2_request_body}
use muxly.Decoder.Body.{joined, whole, read_h2_request_body_message}
use muxly.Net.{authority}
use muxly.H2Client.{H2Sender, start_h2_request}

-- `sent w k` are the bytes that have been sent on the stream `k`.
pub record Sent (host : Host) (h2 : H2Sender host) : Type 0 where
  pub sent : host.World → host.Handle → Bytes
  pub send_request_law :
      (w : host.World) (uri : Text) (stream : host.Handle)
      → (h2.send_request uri w).0 ≡ ok stream
      → sent (h2.send_request uri w).1 stream ≡ []
  pub send_data_law :
      (w : host.World) (stream : host.Handle) (bytes : Bytes) (end_of_stream : Bool)
      → (h2.send_data stream bytes end_of_stream w).0 ≡ ok tt
      → sent (h2.send_data stream bytes end_of_stream w).1 stream ≡ sent w stream ++ bytes

module _ {host : Host} {h2 : H2Sender host} (log : Sent host h2) where
  open host use {World, Handle}
  open h2 use {ready, build_request, send_request, send_data}
  open log use {sent, send_request_law, send_data_law}

  -- What a request that was started has sent.
  pub start_h2_request-sent :
      (host_name : Text) (port : ℕ) (path : Text) (request : Bytes) (w : World) (stream : Handle)
      → (start_h2_request host h2 host_name port path request w).0 ≡ ok stream
      → sent (start_h2_request host h2 host_name port path request w).1 stream
        ≡ request ++ b'\n' ∷ []
  unfolding start_h2_request
  start_h2_request-sent host_name port path request w stream e =
      let uri = codes "http://" ++ (authority host_name port ++ path) in
      let message : Bytes = request ++ b'\n' ∷ [] in
      let (_, _, e₁, at₁) = follow-eq-ok (ready w) _ e in
      let w₁ = (ready w).1 in
      let (_, _, e₂, at₂) = follow-eq-ok (build_request uri, w₁) _ e₁ in
      let (s, opened, e₃, at₃) = follow-eq-ok (send_request uri w₁) _ e₂ in
      let w₂ = (send_request uri w₁).1 in
      let (_, done, e₄, at₄) = follow-eq-ok (send_data s message true w₂) _ e₃ in
      let w₃ = (send_data s message true w₂).1 in
      let same : s ≡ stream = cc e₄ in
      ap (λ v. sent v stream) (at₁ ∙ at₂ ∙ at₃ ∙ at₄)
      ∙ ap (λ k. sent w₃ k) (sym same)
      ∙ send_data_law w₂ s message true done
      ∙ ap (λ t. t ++ message) (send_request_law w₁ uri s opened)

  -- A request that `start_h2_request` has sent without an error, and that arrives unchanged, in
  -- whatever chunks, is what the server's `read_h2_request_body` returns, but for one carriage return
  -- at its end. It holds no newline, and it is smaller than the server's cap.
  pub start_h2_request-received :
      (host_name : Text) (port : ℕ) (path : Text) (request : Bytes) (w : World) (stream : Handle)
      (chunks : List Bytes) (max : ℕ)
      → (start_h2_request host h2 host_name port path request w).0 ≡ ok stream
      → joined chunks ≡ sent (start_h2_request host h2 host_name port path request w).1 stream
      → Lacks b'\n' request
      → length request < max
      → read_h2_request_body (whole chunks) max ≡ ok (pop_if b'\r' request)
  start_h2_request-received host_name port path request w stream chunks max e arrives plain fits =
      read_h2_request_body_message chunks request max plain fits
        (arrives ∙ start_h2_request-sent host_name port path request w stream e)
