-- ===== src/Decoder/Body.antt =====
-- Request bodies and response bodies over any chunks.
use muxly.Base.{
  ℕ, ◌+◌, ◌≤◌, ◌<◌, ◌≡◌, refl, sym, ap, ◌∙◌, none, some, inl, inr, List, [], ◌∷◌, ◌++◌,
  append_assoc, append-nil, arith, Bytes, length, length-append, Lacks,
}
use mathlib.Core.Path.{subst}
use muxly.Outcome.{Result, ok, err, multiple_messages}
use muxly.Line.{pop_if}
use muxly.Decoder.{H2LineDecoder, new, one_message, take_chunk, read_chunks, read_h2_request_body}
use muxly.Decoder.Chunks.{
  cut_lines, cut_lines-Lacks, cut_lines_newline, first_newline, push_chunk_ok,
}

-- The bytes of all chunks.
unfoldable pub joined : List Bytes → Bytes
joined [] = []
joined (chunk ∷ chunks) = chunk ++ joined chunks

-- A body with no error in it.
unfoldable pub whole : List Bytes → List (Result Bytes)
whole [] = []
whole (chunk ∷ chunks) = ok chunk ∷ whole chunks

same_first_newline :
    (a m x y : Bytes)
    → Lacks b'\n' a
    → Lacks b'\n' m
    → a ++ b'\n' ∷ x ≡ m ++ b'\n' ∷ y
    → (a ≡ m) × (x ≡ y)
same_first_newline [] [] x y ha hm e = (refl, cc)
same_first_newline [] (d ∷ m) x y ha (ne, hm) e = absurd (ne (cc))
same_first_newline (c ∷ a) [] x y (ne, ha) hm e = absurd (ne (cc))
same_first_newline (c ∷ a) (d ∷ m) x y (_, ha) (_, hm) e =
    let (p, q) = same_first_newline a m x y ha hm (cc) in (cc, q)

not-Lacks-append : (m x : Bytes) → Lacks b'\n' (m ++ b'\n' ∷ x) → ⊥
not-Lacks-append [] x (ne, h) = ne refl
not-Lacks-append (c ∷ m) x (ne, h) = not-Lacks-append m x h

append-eq-nil : (x y : Bytes) → x ++ y ≡ [] → x ≡ []
append-eq-nil [] y e = refl
append-eq-nil (c ∷ x) y e = cc

take_chunk_more :
    (decoder : H2LineDecoder) (chunk : Bytes)
    → length (decoder.buffer ++ chunk) ≤ decoder.max_message_bytes
    → Lacks b'\n' (decoder.buffer ++ chunk)
    → take_chunk decoder (ok chunk) ≡ (ok none, record decoder { buffer = decoder.buffer ++ chunk })
unfolding take_chunk one_message
take_chunk_more decoder chunk h lacks =
    rw (push_chunk_ok decoder chunk h, cut_lines-Lacks [] (decoder.buffer ++ chunk) lacks)

take_chunk_last :
    (decoder : H2LineDecoder) (chunk msg : Bytes)
    → length (decoder.buffer ++ chunk) ≤ decoder.max_message_bytes
    → Lacks b'\n' msg
    → decoder.buffer ++ chunk ≡ msg ++ b'\n' ∷ []
    → take_chunk decoder (ok chunk) ≡ (ok (some (pop_if b'\r' msg)), record decoder { buffer = [] })
unfolding take_chunk one_message
take_chunk_last decoder chunk msg h lacks e =
    rw (push_chunk_ok decoder chunk h, e, cut_lines_newline msg [] lacks) (unfold cut_lines in refl)

take_chunk_two :
    (decoder : H2LineDecoder) (m₁ m₂ : Bytes)
    → Lacks b'\n' m₁
    → Lacks b'\n' m₂
    → length m₁ + length m₂ + 2 ≤ decoder.max_message_bytes
    → decoder.buffer ≡ []
    → (take_chunk decoder (ok (m₁ ++ b'\n' ∷ (m₂ ++ b'\n' ∷ [])))).0 ≡ err multiple_messages
unfolding take_chunk one_message
take_chunk_two decoder m₁ m₂ h₁ h₂ fits e =
    let chunk = m₁ ++ b'\n' ∷ (m₂ ++ b'\n' ∷ []) in
    let at = ap (λ b. b ++ chunk) e in
    let n' : length (decoder.buffer ++ chunk) ≤ decoder.max_message_bytes = omega (
      arith,
      ap (length {0}) at,
      length-append m₁ (b'\n' ∷ (m₂ ++ b'\n' ∷ [])),
      length-append m₂ (b'\n' ∷ []),
      fits,
    ) in
    rw (
      push_chunk_ok decoder chunk n',
      at,
      cut_lines_newline m₁ (m₂ ++ b'\n' ∷ []) h₁,
      cut_lines_newline m₂ [] h₂,
    )

joined_fits :
    (max : ℕ) (b chunk rest msg : Bytes)
    → (b ++ chunk) ++ rest ≡ msg ++ b'\n' ∷ []
    → length msg < max
    → length (b ++ chunk) ≤ max
joined_fits max b chunk rest msg e h =
    omega
      (arith, ap (length {0}) e, length-append (b ++ chunk) rest, length-append msg (b'\n' ∷ []))

read_chunks_message :
    (chunks : List Bytes) (decoder : H2LineDecoder) (msg : Bytes)
    → Lacks b'\n' decoder.buffer
    → Lacks b'\n' msg
    → length msg < decoder.max_message_bytes
    → decoder.buffer ++ joined chunks ≡ msg ++ b'\n' ∷ []
    → read_chunks decoder (whole chunks) ≡ ok (pop_if b'\r' msg)
unfolding read_chunks joined whole
read_chunks_message [] decoder msg lacks plain fits e =
    absurd
      (not-Lacks-append msg [] (subst (Lacks b'\n') (sym (append-nil decoder.buffer) ∙ e) lacks))
read_chunks_message (chunk ∷ chunks) decoder msg lacks plain fits e =
    let e' = append_assoc decoder.buffer chunk (joined chunks) ∙ e in
    let room =
      joined_fits decoder.max_message_bytes decoder.buffer chunk (joined chunks) msg e' fits in
    elim (first_newline (decoder.buffer ++ chunk)) [
      | inl none_yet ↦ rw (take_chunk_more decoder chunk room none_yet) (
          read_chunks_message chunks (record decoder { buffer = decoder.buffer ++ chunk }) msg
            none_yet plain fits e')
      | inr (a, b, q, first) ↦
          let (p, none_left) = same_first_newline a msg (b ++ joined chunks) [] first plain (
            sym (append_assoc a (b'\n' ∷ b) (joined chunks))
            ∙ ap (λ t. t ++ joined chunks) (sym q)
            ∙ e') in
          let ends =
            q
            ∙ ap (λ t. t ++ b'\n' ∷ b) p
            ∙ ap (λ t. msg ++ b'\n' ∷ t) (append-eq-nil b (joined chunks) none_left) in
          rw (take_chunk_last decoder chunk msg room plain ends)
    ]

-- A message that `start_h2_request` sent, with the newline behind it, is read back by
-- `read_h2_request_body` however the body is cut into chunks, but for one carriage return at its
-- end. The message holds no newline, and with its newline it fits the cap.
pub read_h2_request_body_message :
    (chunks : List Bytes) (msg : Bytes) (max : ℕ)
    → Lacks b'\n' msg
    → length msg < max
    → joined chunks ≡ msg ++ b'\n' ∷ []
    → read_h2_request_body (whole chunks) max ≡ ok (pop_if b'\r' msg)
unfolding read_h2_request_body new
read_h2_request_body_message chunks msg max plain fits e =
    read_chunks_message chunks (record { buffer = []; max_message_bytes = max }) msg tt plain fits e

-- Two messages in one body, which hold no newline and fit the cap together with their newlines: in
-- one chunk they are refused, but in a chunk each the first is returned, but for one carriage return
-- at its end, and the second is not looked at.
pub read_h2_request_body_two :
    (m₁ m₂ : Bytes) (max : ℕ)
    → Lacks b'\n' m₁
    → Lacks b'\n' m₂
    → length m₁ + length m₂ + 2 ≤ max
    → (read_h2_request_body (ok (m₁ ++ b'\n' ∷ (m₂ ++ b'\n' ∷ [])) ∷ []) max
        ≡ err multiple_messages)
      × (read_h2_request_body (ok (m₁ ++ b'\n' ∷ []) ∷ ok (m₂ ++ b'\n' ∷ []) ∷ []) max
          ≡ ok (pop_if b'\r' m₁))
unfolding read_h2_request_body new read_chunks
read_h2_request_body_two m₁ m₂ max h₁ h₂ fits =
    let decoder : H2LineDecoder = record { buffer = []; max_message_bytes = max } in
    let one =
      take_chunk_last decoder (m₁ ++ b'\n' ∷ []) m₁ (omega (arith, length-append m₁ (b'\n' ∷ [])))
        h₁ refl in
    let both = take_chunk_two decoder m₁ m₂ h₁ h₂ fits refl in (rw both refl, rw one refl)
