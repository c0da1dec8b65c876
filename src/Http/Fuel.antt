-- ===== src/Http/Fuel.antt =====
-- How much fuel the loops of `read_http_request` and `read_http_response` need: every round takes a
-- byte at least from the stream.
use muxly.Base.{
  ℕ, zero, suc, ◌≤◌, ◌<◌, ◌≢◌, inl, inr, arith, Option, none, some, List, [], ◌∷◌, Bytes, Text,
  codes, same, length, Bool-cases,
}
use muxly.Std.Str.{starts_with, trim_end, split_whitespace}
use muxly.Outcome.{
  Error, err, out_of_fuel, missing_content_length, ok_or, eof_in_headers, eof_in_response,
}
use muxly.Host.{Host, Readable, Io, pure, follow, ◌>>=◌, lift}
use muxly.Http.{
  crlf, header_length, header_round, request_path, parse_request_line, read_http_line,
  read_first_line, read_headers, read_http_request, read_http_response,
}
use muxly.Http.Settled.{
  free, line_cost, Settled, follow-Settled, lift-Settled, read_http_line-Settled, wrong, ended, got,
  went, branch-Settled, read_exact-Settled, Settled-ne,
}

module _ {host : Host} (io : Readable host) (k : host.Handle) where
  open host use {World}
  open io use {Delivers}

  read_first_line-Settled :
      (fuel max : ℕ) (w : World) (s : Bytes) (n : ℕ)
      → Delivers w k s
      → length s < fuel
      → length s ≤ n
      → Settled io k line_cost n (read_first_line host fuel k max w)
  unfolding read_first_line
  read_first_line-Settled zero max w s n d h le = absurd (omega arith)
  read_first_line-Settled (suc fuel) max w s n d h le =
      elim (went io k line_cost (length s) (read_http_line host k max w)
        (read_http_line-Settled io k max w s d)) [
          | wrong e w' q ne ↦ rw q ne
          | ended w' s' q d' le' ↦ rw q (s', d', omega arith)
          | got line w' s' q d' le' ↦ rw q (
              branch-Settled io k line_cost n (same line crlf) (read_first_line host fuel k max)
                (pure (some line)) w'
                (read_first_line-Settled fuel max w' s' n d' (omega arith) (omega arith))
                (s', d', omega arith))
        ]

  -- The errors of the pure steps.
  header_length-ne :
      (line : Text) (max : ℕ) (known : Option ℕ) → header_length line max known ≢ err out_of_fuel
  unfolding header_length
  header_length-ne line max known q = ground arith

  read_headers-Settled :
      (fuel : ℕ) (eof : Error) (max : ℕ) (known : Option ℕ) (w : World) (s : Bytes) (n : ℕ)
      → eof ≢ out_of_fuel
      → Delivers w k s
      → length s < fuel
      → length s ≤ n
      → Settled io k free n (read_headers host fuel eof k max known w)
  unfolding read_headers header_round
  read_headers-Settled zero eof max known w s n ne d h le = absurd (omega arith)
  read_headers-Settled (suc fuel) eof max known w s n ne d h le =
      elim (went io k line_cost (length s) (read_http_line host k max w)
        (read_http_line-Settled io k max w s d)) [
          | wrong e w' q ne' ↦ rw q ne'
          | ended w' s' q d' le' ↦ rw q ne
          | got line w' s' q d' le' ↦ rw q (elim (Bool-cases (same line crlf)) [
            | inl blank ↦ rw blank (s', d', omega arith)
            | inr other ↦ rw other (
                follow-Settled io k free free (length s') n (lift (header_length line max known) w')
                  _
                  (lift-Settled io k (length s') (header_length line max known) w' s'
                    (header_length-ne line max known) d' (omega arith))
                  λ known' w₁ s₁ d₁ le₁.
                    read_headers-Settled fuel eof max known' w₁ s₁ n ne d₁ (omega arith)
                      (omega arith))
          ])
        ]

  request_path-ne : (line : Text) (parts : List Text) → request_path line parts ≢ err out_of_fuel
  unfolding request_path
  request_path-ne line [] q = cc
  request_path-ne line (a ∷ []) q = cc
  request_path-ne line (a ∷ b ∷ []) q = cc
  request_path-ne line (a ∷ b ∷ c ∷ parts) q = ground arith

  parse_request_line-ne : (line : Text) → parse_request_line line ≢ err out_of_fuel
  unfolding parse_request_line
  parse_request_line-ne line q = request_path-ne line (split_whitespace (trim_end line)) q

  ok_or-ne : {A : Type 0} (o : Option A) (e : Error) → e ≢ out_of_fuel → ok_or o e ≢ err out_of_fuel
  ok_or-ne none e ne q = ground (arith, ne)
  ok_or-ne (some a) e ne q = cc

  -- The headers, and what is done with the length that is known behind them.
  read_length-Settled :
      {B : Type 0} (fuel : ℕ) (eof : Error) (max : ℕ) (w : World) (s : Bytes) (n : ℕ)
      (use_length : ℕ → Io World B)
      → eof ≢ out_of_fuel
      → Delivers w k s
      → length s < fuel
      → length s ≤ n
      → ((m : ℕ) (w : World) (s : Bytes)
          → Delivers w k s
          → length s ≤ n
          → Settled io k free n (use_length m w))
      → Settled io k free n (
          follow
            (read_headers host fuel eof k max none w)
            (λ known. lift (ok_or known missing_content_length) >>= use_length))
  read_length-Settled fuel eof max w s n use_length ne d h le later =
      follow-Settled io k free free n n (read_headers host fuel eof k max none w) _
        (read_headers-Settled fuel eof max none w s n ne d h le)
        λ known w₁ s₁ d₁ le₁.
          follow-Settled io k free free n n (lift (ok_or known missing_content_length) w₁)
            use_length
            (lift-Settled io k n (ok_or known missing_content_length) w₁ s₁
              (ok_or-ne known missing_content_length (λ q. cc)) d₁ (omega arith))
            λ m w₂ s₂ d₂ le₂. later m w₂ s₂ d₂ (omega arith)

  -- Fuel beyond the length of the stream is enough: on a stream that ends without an I/O error, with
  -- any cap, `read_http_request` and `read_http_response` end by themselves, each with a message, with
  -- the end of the stream or with an error of their own.
  pub read_http_terminates :
      (fuel max : ℕ) (w : World) (s : Bytes)
      → Delivers w k s
      → length s < fuel
      → ((read_http_request host fuel k max w).0 ≢ err out_of_fuel)
        × ((read_http_response host fuel k max w).0 ≢ err out_of_fuel)
  unfolding read_http_request read_http_response
  read_http_terminates fuel max w s d h = (
    elim (went io k line_cost (length s) (read_first_line host fuel k max w)
        (read_first_line-Settled fuel max w s (length s) d h (omega arith))) [
          | wrong e w' q ne ↦ rw q (λ r. ne (ground arith))
          | ended w' s' q d' le' ↦ rw q (λ r. cc)
          | got line w' s' q d' le' ↦ rw q (
              Settled-ne io k free (length s) _ (
                follow-Settled io k free free (length s') (length s)
                  (lift (parse_request_line line) w') _
                  (lift-Settled io k (length s') (parse_request_line line) w' s'
                    (parse_request_line-ne line) d' (omega arith))
                  λ path w₁ s₁ d₁ le₁.
                    read_length-Settled fuel eof_in_headers max w₁ s₁ (length s) _ (λ r. cc) d₁
                      (omega arith) (omega arith)
                      λ m w₂ s₂ d₂ le₂.
                        follow-Settled io k free free (length s) (length s) (host.read_exact k m w₂)
                          _ (read_exact-Settled io k m (length s) w₂ s₂ d₂ le₂)
                          λ body w₃ s₃ d₃ le₃. (s₃, d₃, le₃)))
        ],
    elim (went io k line_cost (length s) (read_http_line host k max w)
        (read_http_line-Settled io k max w s d)) [
          | wrong e w' q ne ↦ rw q (λ r. ne (ground arith))
          | ended w' s' q d' le' ↦ rw q (λ r. cc)
          | got line w' s' q d' le' ↦
              rw q (elim (Bool-cases (starts_with line (codes "HTTP/1.1 200"))) [
                | inr other ↦ rw other (λ r. cc)
                | inl good ↦ rw good (
                    Settled-ne io k free (length s) _ (
                      read_length-Settled fuel eof_in_response max w' s' (length s)
                        (λ m. host.read_exact k m) (λ r. cc) d' (omega arith) (omega arith)
                        λ m w₂ s₂ d₂ le₂. read_exact-Settled io k m (length s) w₂ s₂ d₂ le₂))
              ])
        ],
  )
