-- ===== src/Http/RoundTrip.antt =====
-- The readers of HTTP messages undo the writers, and leave the stream behind the message in place.
use mathlib.Core.Path.{subst}
use muxly.Base.{
  ℕ, zero, suc, ◌+◌, ◌≤◌, ◌<◌, ◌≡◌, ◌≢◌, refl, sym, ap, ◌∙◌, false, Option, some, List, [], ◌∷◌,
  ◌++◌, append_assoc, arith, Bytes, Text, same, length, length-append, All, Lacks, All-append,
  usize_max,
}
use muxly.Std.Utf8.{IsScalar, as_bytes, from_utf8-as_bytes, as_bytes-append, as_bytes-Lacks}
use muxly.Outcome.{Error, Result, ok, ◌>>=◌ as and_then, bind-eq-ok}
use muxly.Host.{Host, Readable, follow_ok}
use muxly.Line.Framing.{read_line_message_with_cap_complete}
use muxly.Http.{
  crlf, head_text, header_length, http_line, read_http_line, header_round, read_headers,
}

-- A line that can stand in a head: text with no newline, that fits the cap with its line ending.
pub record IsLine (max : ℕ) (line : Text) : Type 0 where
  pub scalar : All IsScalar line
  pub one_line : Lacks b'\n' line
  pub fits : length (as_bytes line) + 2 ≤ max

same-crlf_cons : (c : ℕ) (line : Text) → same ((c ∷ line) ++ crlf) crlf ≡ false
same-crlf_cons c [] = ground arith
same-crlf_cons c (d ∷ []) = ground arith
same-crlf_cons c (d ∷ e ∷ line) = ground arith

line_bytes : (line : Text) → as_bytes (line ++ crlf) ≡ (as_bytes line ++ 13 ∷ []) ++ 10 ∷ []
line_bytes line =
    as_bytes-append line crlf
    ∙ unfold as_bytes in sym (append_assoc (as_bytes line) (13 ∷ []) (10 ∷ []))

http_line-as_bytes :
    (n : ℕ) (text : Text) → All IsScalar text → http_line (suc n) (as_bytes text) ≡ ok (some text)
unfolding http_line
http_line-as_bytes n text h = rw (from_utf8-as_bytes text h) (ground arith)

-- The content length known behind the header lines.
unfoldable pub headers_known : ℕ → List Text → Option ℕ → Result (Option ℕ)
headers_known max [] known = ok known
headers_known max (line ∷ lines) known =
    and_then (header_length (line ++ crlf) max known) (headers_known max lines)

-- A header line: a line that is not blank.
abbrev pub IsHeader : ℕ → Text → Type 0
IsHeader max line = IsLine max line × (line ≢ [])

pub same-crlf_header : (line : Text) → line ≢ [] → same (line ++ crlf) crlf ≡ false
same-crlf_header [] ne = absurd (ne refl)
same-crlf_header (c ∷ line) ne = same-crlf_cons c line

blank-IsLine : {max : ℕ} → 2 ≤ max → IsLine max []
unfolding as_bytes
blank-IsLine h = record { scalar = tt; one_line = tt; fits = h }

pub head_text_bytes :
    (line lines : Text) (rest : Bytes)
    → as_bytes (line ++ (crlf ++ lines)) ++ rest
      ≡ as_bytes (line ++ crlf) ++ (as_bytes lines ++ rest)
head_text_bytes line lines rest =
    ap (λ t. as_bytes t ++ rest) (sym (append_assoc line crlf lines))
    ∙ ap (λ t. t ++ rest) (as_bytes-append (line ++ crlf) lines)
    ∙ append_assoc (as_bytes (line ++ crlf)) (as_bytes lines) rest

module _ {host : Host} (io : Readable host) {max : ℕ} (small : max < usize_max) where
  open host use {World, Handle}
  open io use {Delivers, read_exact_law}

  pub read_http_line_complete :
      (w : World) (k : Handle) (line : Text) (rest : Bytes)
      → IsLine max line
      → Delivers w k (as_bytes (line ++ crlf) ++ rest)
      → (w' : World) × (read_http_line host k max w ≡ (ok (some (line ++ crlf)), w'))
        × Delivers w' k rest
  unfolding read_http_line
  read_http_line_complete w k line rest g d =
      let l = as_bytes line ++ 13 ∷ [] in
      let at = ap (λ bs. bs ++ rest) (line_bytes line) ∙ append_assoc l (10 ∷ []) rest in
      let (w', e, d') =
        read_line_message_with_cap_complete io w k l rest max small
          (All-append _ (as_bytes line) (13 ∷ []) (as_bytes-Lacks 10 line (omega arith) g.one_line)
            (omega arith))
          (omega (arith, g.fits, length-append (as_bytes line) (13 ∷ [])))
          (subst (λ t. Delivers w k t) at d) in
      let text =
        ap (http_line (suc (length l))) (sym (line_bytes line))
        ∙ http_line-as_bytes (length l) (line ++ crlf)
            (All-append _ line crlf g.scalar (omega arith)) in
      (w', follow_ok _ e ∙ ap (λ r. (r, w')) text, d')

  pub read_headers_complete :
      (lines : List Text) (fuel : ℕ) (eof : Error) (w : World) (k : Handle) (rest : Bytes)
      (known known' : Option ℕ)
      → length lines < fuel
      → 2 ≤ max
      → All (IsHeader max) lines
      → headers_known max lines known ≡ ok known'
      → Delivers w k (as_bytes (head_text lines) ++ rest)
      → (w' : World) × (read_headers host fuel eof k max known w ≡ (ok known', w'))
        × Delivers w' k rest
  unfolding read_headers header_round headers_known
  read_headers_complete lines zero eof w k rest known known' h two good e d = absurd (omega arith)
  read_headers_complete [] (suc fuel) eof w k rest known known' h two good e d =
      let (w', r, d') = read_http_line_complete w k [] rest (blank-IsLine two) d in
      (w', follow_ok _ r ∙ ap (λ x. (x, w')) e, d')
  read_headers_complete (line ∷ lines) (suc fuel) eof w k rest known known' h two
        ((good, ne), goods) e d =
      let (mid, at, later) =
        bind-eq-ok (header_length (line ++ crlf) max known) (headers_known max lines) e in
      let (w₁, r, d₁) =
        read_http_line_complete w k line (as_bytes (head_text lines) ++ rest) good
          (subst (λ t. Delivers w k t) (head_text_bytes line (head_text lines) rest) d) in
      let (w', r', d') =
        read_headers_complete lines fuel eof w₁ k rest mid known' (omega arith) two goods later
          d₁ in
      (w', follow_ok _ r ∙ rw (same-crlf_header line ne, at) r', d')
