-- ===== src/SessionRun/Started.antt =====
-- What the session client sends when it starts a request.
use muxly.Base.{
  ℕ, ◌+◌, ◌%◌, ◌^◌, ◌≡◌, refl, ap, ◌∙◌, arith, Bool, true, [], ◌∷◌, ◌++◌, Bytes, Text, codes,
}
use muxly.Outcome.{Error, Result, ok, err}
use muxly.Host.{Host, Io, Readable, follow}
use muxly.Line.{read_line_message, read_line_message_with_cap}
use muxly.Net.{authority}
use muxly.H2Client.{H2Sender, start_h2_request}
use muxly.SessionRun.{Runtime}

-- `journal w` are the bytes that have been sent on all streams, in the order of the calls. The H2
-- connection and stdin do not touch one another.
pub record Journal (host : Host) (io : Readable host) (h2 : H2Sender host) (runtime : Runtime host)
    (stdin : host.Handle) : Type 0 where
  pub journal : host.World → Bytes
  pub ready_keeps :
      (w : host.World) (s : Bytes)
      → io.Delivers w stdin s
      → io.Delivers (h2.ready w).1 stdin s × (journal (h2.ready w).1 ≡ journal w)
  pub send_request_keeps :
      (w : host.World) (s : Bytes) (uri : Text)
      → io.Delivers w stdin s
      → io.Delivers (h2.send_request uri w).1 stdin s
        × (journal (h2.send_request uri w).1 ≡ journal w)
  pub send_data_keeps :
      (w : host.World) (s : Bytes) (k : host.Handle) (bytes : Bytes) (end_of_stream : Bool)
      → io.Delivers w stdin s
      → io.Delivers (h2.send_data k bytes end_of_stream w).1 stdin s
  pub send_data_sends :
      (w : host.World) (k : host.Handle) (bytes : Bytes) (end_of_stream : Bool)
      → (h2.send_data k bytes end_of_stream w).0 ≡ ok tt
      → journal (h2.send_data k bytes end_of_stream w).1 ≡ journal w ++ bytes
  pub send_data_fails :
      (w : host.World) (k : host.Handle) (bytes : Bytes) (end_of_stream : Bool) (e : Error)
      → (h2.send_data k bytes end_of_stream w).0 ≡ err e
      → journal (h2.send_data k bytes end_of_stream w).1 ≡ journal w
  pub read_until_journal :
      (w : host.World) (limit d : ℕ) → journal (host.read_until stdin limit d w).1 ≡ journal w
  pub drop_journal :
      (w : host.World) (limit d : ℕ) → journal (runtime.drop_read_until stdin limit d w) ≡ journal w

module _ {host : Host} {io : Readable host} {h2 : H2Sender host} {runtime : Runtime host}
    {stdin : host.Handle} (log : Journal host io h2 runtime stdin) where
  open host use {World, Handle}
  open io use {Delivers}
  open h2 use {ready, build_request, send_request, send_data}
  open log use {
    journal, ready_keeps, send_request_keeps, send_data_keeps, send_data_sends, send_data_fails,
    read_until_journal,
  }

  -- A start of a request ends, with `s` still to come on stdin, in one of two ways.
  pub data Started (s : Bytes) (before message : Bytes) (p : Result Handle × World) : Type 0 where
    sent :
        (k : Handle) (v : World)
        → p ≡ (ok k, v)
        → Delivers v stdin s
        → journal v ≡ before ++ message
        → Started s before message p
    refused :
        (e : Error) (v : World)
        → p ≡ (err e, v)
        → Delivers v stdin s
        → journal v ≡ before
        → Started s before message p

  -- A step that sends nothing.
  follow-Started :
      {A : Type 0} (s before message : Bytes) (p : Result A × World) (f : A → Io World Handle)
      → Delivers p.1 stdin s × (journal p.1 ≡ before)
      → ((a : A) → Started s before message (f a p.1))
      → Started s before message (follow p f)
  follow-Started s before message (ok a, w) f (d, j) g = g a
  follow-Started s before message (err e, w) f (d, j) g = refused e w refl d j

  -- The step that sends.
  send_data-Started :
      (s before message : Bytes) (p : Result (Unit {0}) × World) (k : Handle)
      → Delivers p.1 stdin s
      → (p.0 ≡ ok tt → journal p.1 ≡ before ++ message)
      → ((e : Error) → p.0 ≡ err e → journal p.1 ≡ before)
      → Started s before message (follow p (λ _ w. (ok k, w)))
  send_data-Started s before message (ok u, w) k d good bad = sent k w refl d (good refl)
  send_data-Started s before message (err e, w) k d good bad = refused e w refl d (bad e refl)

  pub start_h2_request-Started :
      (host_name : Text) (port : ℕ) (path : Text) (request : Bytes) (w : World) (s : Bytes)
      → Delivers w stdin s
      → Started s
          (journal w)
          (request ++ b'\n' ∷ [])
          (start_h2_request host h2 host_name port path request w)
  unfolding start_h2_request
  start_h2_request-Started host_name port path request w s d =
      let message : Bytes = request ++ b'\n' ∷ [] in
      let uri = codes "http://" ++ (authority host_name port ++ path) in
      let before = journal w in
      let (d₁, j₁) = ready_keeps w s d in
      let w₁ = (ready w).1 in
      let (d₂, j₂) = send_request_keeps w₁ s uri d₁ in
      let w₂ = (send_request uri w₁).1 in
      let kept = j₂ ∙ j₁ in
      follow-Started s before message (ready w) _ (d₁, j₁)
        λ _.
          follow-Started s before message (build_request uri, w₁) _ (d₁, j₁)
            λ _.
              follow-Started s before message (send_request uri w₁) _ (d₂, kept)
                λ k.
                  send_data-Started s before message (send_data k message true w₂) k
                    (send_data_keeps w₂ s k message true d₂)
                    (λ e. send_data_sends w₂ k message true e ∙ ap (λ t. t ++ message) kept)
                    (λ x e. send_data_fails w₂ k message true x e ∙ kept)

  pub read_line_message-journal :
      (w : World) (max : ℕ) → journal (read_line_message host stdin max w).1 ≡ journal w
  unfolding read_line_message read_line_message_with_cap
  read_line_message-journal w max = ground (arith, read_until_journal w ((max + 1) % 2 ^ 64) b'\n')
