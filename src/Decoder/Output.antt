-- ===== src/Decoder/Output.antt =====
-- What the H2 client writes to its standard output.
use native.Mathlib.Decide.{dec_lt}
use mathlib.Core.Path.{subst}
use muxly.Base.{
  ℕ, ◌≡◌, refl, sym, ap, ◌∙◌, List, [], ◌∷◌, ◌++◌, append_assoc, append-nil, arith, Bytes, length,
  Lacks,
}
use muxly.Outcome.{Result, ok, err}
use muxly.Host.{Host, Writable, follow-eq-ok, ◌>>◌}
use muxly.Decoder.{
  H2LineDecoder, new, push_chunk, finish, write_lines, copy_chunks, copy_h2_body_to_stdout,
}
use muxly.Decoder.Chunks.{
  cut_lines, cut_lines-append, cut_lines-Lacks, cut_lines_rest-Lacks, push_chunk_ok, push_chunk_err,
}

-- Lines with a newline behind each.
unfoldable pub printed : List Bytes → Bytes
printed [] = []
printed (line ∷ lines) = line ++ (b'\n' ∷ printed lines)

-- The bytes of a body up to its end or its first error.
unfoldable pub payload : List (Result Bytes) → Bytes
payload [] = []
payload (ok chunk ∷ events) = chunk ++ payload events
payload (err e ∷ events) = []

-- The line that has not ended, if it is not empty.
abbrev pub unfinished : Bytes → List Bytes
unfinished [] = []
unfinished (c ∷ s) = (c ∷ s) ∷ []

-- Every line of the text, the last one also where no newline ends it, with a newline behind it.
unfoldable pub output : Bytes → Bytes
output s = printed ((cut_lines [] s).0 ++ unfinished (cut_lines [] s).1)

pub printed-append : (xs ys : List Bytes) → printed (xs ++ ys) ≡ printed xs ++ printed ys
unfolding printed
printed-append [] ys = refl
printed-append (x ∷ xs) ys =
    ap (λ t. x ++ (b'\n' ∷ t)) (printed-append xs ys)
    ∙ sym (append_assoc x (b'\n' ∷ printed xs) (printed ys))

finish_lines :
    (decoder : H2LineDecoder) (b : Bytes) → decoder.buffer ≡ b → (finish decoder).0 ≡ unfinished b
unfolding finish
finish_lines decoder [] e = rw e
finish_lines decoder (c ∷ s) e = rw e

-- A chunk that the decoder takes.
push_chunk-eq-ok :
    (decoder : H2LineDecoder) (chunk : Bytes) (lines : List Bytes)
    → (push_chunk decoder chunk).0 ≡ ok lines
    → (lines ≡ (cut_lines [] (decoder.buffer ++ chunk)).0)
      × ((push_chunk decoder chunk).1.buffer ≡ (cut_lines [] (decoder.buffer ++ chunk)).1)
push_chunk-eq-ok decoder chunk lines e =
    elim (dec_lt decoder.max_message_bytes (length (decoder.buffer ++ chunk))) [
      | yes p ↦ absurd (ground (arith, push_chunk_err decoder chunk p))
      | no p ↦
          let q = push_chunk_ok decoder chunk (omega arith) in
          (cc (ap (λ t. t.0) q), ap (λ t. t.1.buffer) q)
    ]

cut_lines_resume :
    (line rest : Bytes) → Lacks b'\n' line → cut_lines [] (line ++ rest) ≡ cut_lines line rest
cut_lines_resume line rest h = cut_lines-append [] line rest ∙ rw (cut_lines-Lacks [] line h) refl

-- The output of a body is that of a first part and that of the rest behind what the first part left.
output-append :
    (b chunk rest : Bytes)
    → output ((b ++ chunk) ++ rest)
      ≡ printed (cut_lines [] (b ++ chunk)).0 ++ output ((cut_lines [] (b ++ chunk)).1 ++ rest)
unfolding output
output-append b chunk rest =
    let (first, left) = cut_lines [] (b ++ chunk) in
    let lacks = cut_lines_rest-Lacks [] (b ++ chunk) tt in
    let later = cut_lines left rest in
    ap (λ t. printed (t.0 ++ unfinished t.1)) (cut_lines-append [] (b ++ chunk) rest)
    ∙ ap printed (append_assoc first later.0 (unfinished later.1))
    ∙ printed-append first (later.0 ++ unfinished later.1)
    ∙ ap (λ t. printed first ++ printed (t.0 ++ unfinished t.1))
        (sym (cut_lines_resume left rest lacks))

module _ {host : Host} (out : Writable host) where
  open host use {World, Handle, write_all, flush}
  open out use {written, write_all_law, flush_law}

  write_lines-written :
      (k : Handle) (lines : List Bytes) (w : World)
      → (write_lines host k lines w).0 ≡ ok tt
      → written (write_lines host k lines w).1 k ≡ written w k ++ printed lines
  unfolding write_lines printed
  write_lines-written k [] w e = sym (append-nil (written w k))
  write_lines-written k (line ∷ lines) w e =
      let again = write_lines host k lines in
      let newline = b'\n' ∷ [] in
      let w₁ = (write_all k line w).1 in
      let w₂ = (write_all k newline w₁).1 in
      let w₃ = (flush k w₂).1 in
      let (_, e₁, e₂, e₃) =
        follow-eq-ok (write_all k line w) (λ _. write_all k newline >> (flush k >> again)) e in
      let (_, f₁, f₂, f₃) = follow-eq-ok (write_all k newline w₁) (λ _. flush k >> again) e₂ in
      let (_, g₁, g₂, g₃) = follow-eq-ok (flush k w₂) (λ _. again) f₂ in
      ap (λ v. written v k) (e₃ ∙ f₃ ∙ g₃)
      ∙ write_lines-written k lines w₃ g₂
      ∙ ap (λ t. t ++ printed lines)
          (flush_law w₂ k g₁
            ∙ write_all_law w₁ k newline f₁
            ∙ ap (λ t. t ++ newline) (write_all_law w k line e₁))
      ∙ append_assoc (written w k ++ line) newline (printed lines)
      ∙ append_assoc (written w k) line (newline ++ printed lines)

  copy_chunks-written :
      (k : Handle) (events : List (Result Bytes)) (decoder : H2LineDecoder) (w : World)
      → (copy_chunks host k decoder events w).0 ≡ ok tt
      → Lacks b'\n' decoder.buffer
      → written (copy_chunks host k decoder events w).1 k
        ≡ written w k ++ output (decoder.buffer ++ payload events)
  unfolding copy_chunks payload
  copy_chunks-written k [] decoder w e lacks =
      write_lines-written k (finish decoder).0 w e
      ∙ ap (λ t. written w k ++ t)
          (ap printed (finish_lines decoder decoder.buffer refl)
            ∙ unfold output in
              ap (λ t. printed (t.0 ++ unfinished t.1))
                (sym (cut_lines-Lacks [] decoder.buffer lacks))
              ∙ ap output (sym (append-nil decoder.buffer)))
  copy_chunks-written k (err x ∷ events) decoder w e lacks = absurd (ground arith)
  copy_chunks-written k (ok chunk ∷ events) decoder w e lacks =
      let pushed = push_chunk decoder chunk in
      let (lines, e₁, e₂, e₃) =
        follow-eq-ok (pushed.0, w)
          (λ (ls : List Bytes). write_lines host k ls >> copy_chunks host k pushed.1 events) e in
      let (_, f₁, f₂, f₃) =
        follow-eq-ok (write_lines host k lines w) (λ _. copy_chunks host k pushed.1 events) e₂ in
      let (p, q) = push_chunk-eq-ok decoder chunk lines e₁ in
      let lacks' =
        subst (Lacks b'\n') (sym q) (cut_lines_rest-Lacks [] (decoder.buffer ++ chunk) tt) in
      ap (λ v. written v k) (e₃ ∙ f₃)
      ∙ copy_chunks-written k events pushed.1 (write_lines host k lines w).1 f₂ lacks'
      ∙ ap (λ t. t ++ output (pushed.1.buffer ++ payload events)) (write_lines-written k lines w f₁)
      ∙ append_assoc (written w k) (printed lines) (output (pushed.1.buffer ++ payload events))
      ∙ ap (λ t. written w k ++ t)
          (ap (λ ls. printed ls ++ output (pushed.1.buffer ++ payload events)) p
            ∙ ap
                (λ b.
                  printed (cut_lines [] (decoder.buffer ++ chunk)).0
                  ++ output (b ++ payload events))
                q
            ∙ sym (output-append decoder.buffer chunk (payload events))
            ∙ ap output (append_assoc decoder.buffer chunk (payload events)))

  -- A copy of a body that succeeds has written the lines of the whole body, a newline behind each,
  -- the unfinished line at the end included: where the body is cut into chunks makes no difference. A
  -- line that ends with a carriage return and a newline loses the carriage return.
  pub copy_h2_body_to_stdout-written :
      (k : Handle) (events : List (Result Bytes)) (max : ℕ) (w : World)
      → (copy_h2_body_to_stdout host k events max w).0 ≡ ok tt
      → written (copy_h2_body_to_stdout host k events max w).1 k
        ≡ written w k ++ output (payload events)
  unfolding copy_h2_body_to_stdout new
  copy_h2_body_to_stdout-written k events max w e =
      copy_chunks-written k events (record { buffer = []; max_message_bytes = max }) w e tt
