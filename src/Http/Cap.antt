-- ===== src/Http/Cap.antt =====
-- The cap on HTTP bodies, and what the header loop accepts.
use muxly.Base.{
  ℕ, zero, suc, ◌≤◌, ◌≡◌, refl, ap, ◌∙◌, Option, none, some, inl, inr, arith, Text, same,
  Bool-cases,
}
use muxly.Std.Str.{split_once, trim}
use muxly.Outcome.{Error, ok}
use muxly.Host.{Host, Io, follow-eq-ok}
use muxly.Http.{
  crlf, parse_content_length, header_length, header_round, read_http_line, read_headers,
}

parse_content_length-le :
    (value : Text) (max n : ℕ) → parse_content_length value max ≡ ok n → n ≤ max
unfolding parse_content_length
parse_content_length-le value max n h = ground arith

-- Every length that a round of the loop leaves is within the cap, if the one before it was.
header_length-le :
    (line : Text) (max : ℕ) (known : Option ℕ)
    → ((n : ℕ) → known ≡ some n → n ≤ max)
    → (n : ℕ) → header_length line max known ≡ ok (some n)
    → n ≤ max
unfolding header_length
header_length-le line max known h n e = go (split_once b':' line) refl
  where
    go : (o : Option (Text × Text)) → split_once b':' line ≡ o → n ≤ max
    go none q = ground (arith, h n)
    go (some (name, value)) q = ground (arith, h n, parse_content_length-le (trim value) max n)

header_round-le :
    {W : Type 0} (eof : Error) (max : ℕ) (known : Option ℕ) (again : Option ℕ → Io W (Option ℕ))
    (next : Option Text) (w : W)
    → ((n : ℕ) → known ≡ some n → n ≤ max)
    → ((known' : Option ℕ)
        → ((m : ℕ) → known' ≡ some m → m ≤ max)
        → (n : ℕ) → (again known' w).0 ≡ ok (some n)
        → n ≤ max)
    → (n : ℕ) → (header_round eof max known again next w).0 ≡ ok (some n)
    → n ≤ max
unfolding header_round
header_round-le eof max known again none w h later n e = absurd (ground arith)
header_round-le eof max known again (some line) w h later n e = elim (Bool-cases (same line crlf)) [
  | inl blank ↦ h n (ground (arith, blank))
  | inr more ↦
      let e' = rw more at e in
      let (known', a, b, _) = follow-eq-ok (header_length line max known, w) again e' in
      later known' (λ m q. header_length-le line max known h m (a ∙ ap ok q)) n b
]

module _ (host : Host) (max : ℕ) where
  open host use {World, Handle}

  read_headers-le :
      (fuel : ℕ) (eof : Error) (k : Handle) (known : Option ℕ) (w : World)
      → ((n : ℕ) → known ≡ some n → n ≤ max)
      → (n : ℕ) → (read_headers host fuel eof k max known w).0 ≡ ok (some n)
      → n ≤ max
  unfolding read_headers
  read_headers-le zero eof k known w h n e = absurd (ground arith)
  read_headers-le (suc fuel) eof k known w h n e =
      let again = λ (known' : Option ℕ). read_headers host fuel eof k max known' in
      let (next, _, e', _) =
        follow-eq-ok (read_http_line host k max w) (header_round eof max known again) e in
      header_round-le eof max known again next (read_http_line host k max w).1 h
        (λ known' h' m q. read_headers-le fuel eof k known' _ h' m q) n e'

  -- Whatever is read, in every world and with any fuel: a content length that the header loop returns,
  -- entered with no length, is within the cap.
  pub read_headers_cap :
      (fuel : ℕ) (eof : Error) (k : Handle) (w : World) (n : ℕ)
      → (read_headers host fuel eof k max none w).0 ≡ ok (some n)
      → n ≤ max
  read_headers_cap fuel eof k w n e =
      read_headers-le fuel eof k none w (λ m q. absurd (ground arith)) n e
