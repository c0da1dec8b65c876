-- ===== src/Decoder/Chunks.antt =====
-- The lines that the decoder returns do not depend on where the body is cut into chunks.
use muxly.Base.{
  ℕ, zero, suc, ◌≤◌, ◌<◌, ◌≡◌, refl, sym, ap, ◌∙◌, true, false, ◌⊎◌, inl, inr, List, [], ◌∷◌, ◌++◌,
  append_assoc, append-nil, arith, Bytes, ◌==◌, ltb-true, ltb-false, Bool-cases, ==_iff, length,
  length-append, Lacks, All-append,
}
use muxly.Std.Str.{split_once-append, split_once-Lacks}
use muxly.Outcome.{ok, err, message_exceeds_cap}
use muxly.Line.{pop_if}
use muxly.Line.Cut.{pop_if-snoc}
use muxly.Decoder.{H2LineDecoder, drain_lines, push_chunk}

-- The lines of a text behind the start `line` of one: every newline ends a line, of which a carriage
-- return at the end is cut off. The second part is the line that has not ended.
unfoldable pub cut_lines : Bytes → Bytes → List Bytes × Bytes
cut_lines line [] = ([], line)
cut_lines line (c ∷ s) = elim (c == b'\n') [
  | true ↦ let rest = cut_lines [] s in (pop_if b'\r' line ∷ rest.0, rest.1)
  | false ↦ cut_lines (line ++ c ∷ []) s
]

-- Text behind text.
pub cut_lines-append :
    (line s t : Bytes)
    → cut_lines line (s ++ t) ≡ (
      (cut_lines line s).0 ++ (cut_lines (cut_lines line s).1 t).0,
      (cut_lines (cut_lines line s).1 t).1,
    )
unfolding cut_lines
cut_lines-append line [] t = refl
cut_lines-append line (c ∷ s) t = elim (Bool-cases (c == b'\n')) [
  | inl e ↦ rw (e, cut_lines) (rw (cut_lines-append [] s t))
  | inr e ↦ rw (e, cut_lines) (cut_lines-append (line ++ c ∷ []) s t)
]

pub cut_lines_rest-Lacks : (line s : Bytes) → Lacks b'\n' line → Lacks b'\n' (cut_lines line s).1
unfolding cut_lines
cut_lines_rest-Lacks line [] h = h
cut_lines_rest-Lacks line (c ∷ s) h = elim (Bool-cases (c == b'\n')) [
  | inl e ↦ rw (e, cut_lines) (cut_lines_rest-Lacks [] s tt)
  | inr e ↦
      rw (e, cut_lines)
        (cut_lines_rest-Lacks (line ++ c ∷ []) s
          (All-append _ line (c ∷ []) h (ground (arith, e), tt)))
]

pub cut_lines-Lacks : (line s : Bytes) → Lacks b'\n' s → cut_lines line s ≡ ([], line ++ s)
unfolding cut_lines
cut_lines-Lacks line [] h = ap (λ l. ([], l)) (sym (append-nil line))
cut_lines-Lacks line (c ∷ s) (ne, h) = elim (Bool-cases (c == b'\n')) [
  | inl e ↦ absurd (ne ((==_iff c b'\n').0 e))
  | inr e ↦
      rw (e, cut_lines)
        (cut_lines-Lacks (line ++ c ∷ []) s h ∙ ap (λ l. ([], l)) (append_assoc line (c ∷ []) s))
]

-- A text has a first newline, or none.
pub first_newline :
    (s : Bytes) → Lacks b'\n' s ⊎ ((a : Bytes) × (b : Bytes) × (s ≡ a ++ b'\n' ∷ b) × Lacks b'\n' a)
first_newline [] = inl tt
first_newline (c ∷ s) = elim (Bool-cases (c == b'\n')) [
  | inl e ↦ inr ([], s, ap (λ x. x ∷ s) ((==_iff c b'\n').0 e), tt)
  | inr e ↦ elim (first_newline s) [
    | inl h ↦ inl (ground (arith, e), h)
    | inr (a, b, q, h) ↦ inr (c ∷ a, b, ap (λ x. c ∷ x) q, (ground (arith, e), h))
  ]
]

pub cut_lines_newline :
    (a b : Bytes)
    → Lacks b'\n' a
    → cut_lines [] (a ++ b'\n' ∷ b) ≡ (pop_if b'\r' a ∷ (cut_lines [] b).0, (cut_lines [] b).1)
cut_lines_newline a b h =
    cut_lines-append [] a (b'\n' ∷ b) ∙ rw (cut_lines-Lacks [] a h) (unfold cut_lines in refl)

-- The decoder's loop cuts the buffer into its lines.
pub drain_lines-cut_lines :
    (fuel : ℕ) (s : Bytes) → length s ≤ fuel → drain_lines fuel s ≡ cut_lines [] s
unfolding drain_lines
drain_lines-cut_lines zero [] enough = unfold cut_lines in refl
drain_lines-cut_lines zero (c ∷ s) enough = absurd (omega arith)
drain_lines-cut_lines (suc fuel) s enough = elim (first_newline s) [
  | inl h ↦ rw (split_once-Lacks b'\n' s h, drain_lines) (sym (cut_lines-Lacks [] s h))
  | inr (a, b, q, h) ↦ rw q (
      rw (split_once-append b'\n' a b h, drain_lines, cut_lines_newline a b h, pop_if-snoc a b'\n')
        (rw (
          drain_lines-cut_lines fuel b
            (omega (arith, ap (length {0}) q, length-append a (b'\n' ∷ b))))))
]

-- What a chunk does to the decoder.
pub push_chunk_ok :
    (decoder : H2LineDecoder) (chunk : Bytes)
    → length (decoder.buffer ++ chunk) ≤ decoder.max_message_bytes
    → push_chunk decoder chunk ≡ (
      ok (cut_lines [] (decoder.buffer ++ chunk)).0,
      record decoder { buffer = (cut_lines [] (decoder.buffer ++ chunk)).1 },
    )
unfolding push_chunk
push_chunk_ok decoder chunk h = rw (
  ltb-false decoder.max_message_bytes (length (decoder.buffer ++ chunk)) h,
  drain_lines-cut_lines (length (decoder.buffer ++ chunk)) (decoder.buffer ++ chunk) (omega arith),
)

pub push_chunk_err :
    (decoder : H2LineDecoder) (chunk : Bytes)
    → decoder.max_message_bytes < length (decoder.buffer ++ chunk)
    → (push_chunk decoder chunk).0 ≡ err (message_exceeds_cap decoder.max_message_bytes)
unfolding push_chunk
push_chunk_err decoder chunk h =
    rw (ltb-true decoder.max_message_bytes (length (decoder.buffer ++ chunk)) h)
