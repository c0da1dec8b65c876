-- ===== src/Http/Heads.antt =====
-- What the readers of HTTP heads make of the lines that the writers print.
use muxly.Base.{
  ℕ, ◌≤◌, ◌<◌, ◌≡◌, ◌≢◌, refl, sym, ap, ◌∙◌, Option, some, [], ◌∷◌, ◌++◌, append_assoc, arith, Text,
  codes, usize_max,
}
use muxly.Std.Decimal.{to_text, to_text-IsDigit, to_text-cons, parse-to_text}
use muxly.Std.Str.{
  Solid, starts_with, trim, trim_start, trim_end, split_whitespace, split_once,
  eq_ignore_ascii_case, trim_end-prefix, trim_end-append, digits-Solid, trim_start_solid,
  split_whitespace-cons, split_whitespace_one,
}
use muxly.Outcome.{ok}
use muxly.Http.{
  crlf, parse_content_length, header_length, request_path, parse_request_line, length_line,
}

abbrev version : Text
version = codes "HTTP/1.1"

version-Solid : Solid version
version-Solid = (refl, (refl, (refl, (refl, (refl, (refl, (refl, (refl, tt))))))))

post-Solid : Solid (codes "POST")
post-Solid = (refl, (refl, (refl, (refl, tt))))

trim_end-request_line :
    (path : Text)
    → trim_end ((codes "POST " ++ (path ++ codes " HTTP/1.1")) ++ crlf)
      ≡ codes "POST" ++ 0x20 ∷ (path ++ 0x20 ∷ version)
trim_end-request_line path =
    ap (λ t. trim_end (codes "POST " ++ t)) (append_assoc path (0x20 ∷ version) crlf)
    ∙ trim_end-prefix (codes "POST " ++ path) (0x20 ∷ (version ++ crlf)) version 0x20 (
        trim_end-prefix (0x20 ∷ []) (version ++ crlf) (codes "TTP/1.1") b'H'
          (trim_end-append version crlf version-Solid (refl, (refl, tt))))

split_whitespace-request_line :
    (path : Text)
    → path ≢ []
    → Solid path
    → split_whitespace (codes "POST" ++ 0x20 ∷ (path ++ 0x20 ∷ version))
      ≡ codes "POST" ∷ path ∷ version ∷ []
split_whitespace-request_line path ne solid =
    split_whitespace-cons (codes "POST") (path ++ 0x20 ∷ version) (λ e. cc) post-Solid
    ∙ ap (λ ws. codes "POST" ∷ ws)
        (split_whitespace-cons path version ne solid
          ∙ ap (λ ws. path ∷ ws) (split_whitespace_one version (λ e. cc) version-Solid))

-- The path comes back from the printed request line.
pub parse_request_line-print :
    (path : Text)
    → path ≢ []
    → Solid path
    → parse_request_line ((codes "POST " ++ (path ++ codes " HTTP/1.1")) ++ crlf) ≡ ok path
unfolding parse_request_line starts_with
parse_request_line-print path ne solid =
    ap (λ ws. request_path ((codes "POST " ++ (path ++ codes " HTTP/1.1")) ++ crlf) ws)
      (ap split_whitespace (trim_end-request_line path)
        ∙ split_whitespace-request_line path ne solid)

-- A number comes back from the value of its header, the blank before it and the line ending behind.
trim-to_text : (n : ℕ) → trim (0x20 ∷ (to_text n ++ crlf)) ≡ to_text n
unfolding trim
trim-to_text n =
    let (d, t, e, digit) = to_text-cons n in
    let solid = digits-Solid (to_text n) (to_text-IsDigit n) in
    let cut = trim_end-append (to_text n) crlf solid (refl, (refl, tt)) ∙ e in
    ap trim_start (trim_end-prefix (0x20 ∷ []) (to_text n ++ crlf) t d cut)
    ∙ trim_start_solid d t (digits-Solid (d ∷ []) (digit, tt)).0
    ∙ sym e

parse_content_length-to_text :
    (n max : ℕ) → n ≤ max → max < usize_max → parse_content_length (to_text n) max ≡ ok n
unfolding parse_content_length
parse_content_length-to_text n max h small = ground (arith, parse-to_text n usize_max (omega arith))

pub parse_content_length-print :
    (n max : ℕ)
    → n ≤ max
    → max < usize_max
    → parse_content_length (trim (0x20 ∷ (to_text n ++ crlf))) max ≡ ok n
parse_content_length-print n max h small =
    ap (λ v. parse_content_length v max) (trim-to_text n)
    ∙ parse_content_length-to_text n max h small

pub header_length-length_line :
    (n max : ℕ) (known : Option ℕ)
    → n ≤ max
    → max < usize_max
    → header_length (length_line n ++ crlf) max known ≡ ok (some n)
unfolding header_length split_once eq_ignore_ascii_case
header_length-length_line n max known h small = rw (parse_content_length-print n max h small)

pub header_length-host :
    (host : Text) (max : ℕ) (known : Option ℕ)
    → header_length ((codes "Host: " ++ host) ++ crlf) max known ≡ ok known
unfolding header_length split_once eq_ignore_ascii_case
header_length-host host max known = refl

pub header_length_fixed :
    (max : ℕ) (known : Option ℕ)
    → (header_length (codes "Connection: keep-alive" ++ crlf) max known ≡ ok known)
      × (header_length (codes "Content-Type: application/json" ++ crlf) max known ≡ ok known)
unfolding header_length split_once eq_ignore_ascii_case
header_length_fixed max known = (refl, refl)
