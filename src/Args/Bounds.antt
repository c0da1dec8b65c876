-- ===== src/Args/Bounds.antt =====
-- What an accepted command line holds.
use muxly.Base.{
  ℕ, ◌≤◌, ◌≡◌, refl, Bool, true, false, Option, none, some, inl, inr, List, [], ◌∷◌, arith, Text,
  codes, if◌then◌else◌, usize_max, Option-cases,
}
use muxly.Std.Decimal.{parse, parse-le}
use muxly.Outcome.{Result, ok, err, bind-eq-ok, ok_or, Error, invalid_flag, unknown_subcommand}
use mathlib.Core.Path.{subst}
use mathlib.Core.Option.{get_or}
use muxly.Args.{
  default_max_buffered_message_bytes, u16_max, HttpClientArgs, HttpServerArgs, H3wtClientArgs,
  H3wtServerArgs, Command, http_client, http_server, h2_client, h2_session_client, h2_server,
  h3wt_client, h3wt_session_client, h3wt_server, Values, get, required, optional_usize,
  required_port, max_message_bytes_of, http_client_args, http_server_args, h3wt_client_args,
  h3wt_server_args, map_ok, command, parse_flags, parse_args_from,
}

ok_or-eq-ok {ℓ} : {A : Type ℓ} (o : Option A) (e : Error) {a : A} → ok_or o e ≡ ok a → o ≡ some a
ok_or-eq-ok none e h = cc
ok_or-eq-ok (some b) e h = cc

required_port-le :
    (values : Values) (key : Text) (n : ℕ) → required_port values key ≡ ok n → n ≤ u16_max
unfolding required_port
required_port-le values key n e =
    let (value, _, q) =
      bind-eq-ok (required values key)
        (λ (value : Text). ok_or (parse u16_max value) (invalid_flag key)) e in
    parse-le value u16_max (ok_or-eq-ok (parse u16_max value) (invalid_flag key) q)

optional_usize-le :
    (values : Values) (key : Text) (n : ℕ) → optional_usize values key ≡ ok (some n) → n ≤ usize_max
unfolding optional_usize
optional_usize-le values key n e = elim (Option-cases (get key values)) [
  | inl q ↦ absurd (ground (arith, q))
  | inr (value, q) ↦ parse-le value usize_max (ground (arith, q))
]

max_message_bytes_of-le :
    (values : Values) (n : ℕ) → max_message_bytes_of values ≡ ok n → n ≤ usize_max
unfolding max_message_bytes_of
max_message_bytes_of-le values n e =
    let (given, p, q) =
      bind-eq-ok (optional_usize values (codes "max-message-bytes"))
        (λ (given : Option ℕ). ok (get_or given default_max_buffered_message_bytes)) e in
    go given p q
  where
    go :
        (given : Option ℕ)
        → optional_usize values (codes "max-message-bytes") ≡ ok given
        → ok (get_or given default_max_buffered_message_bytes) ≡ ok n
        → n ≤ usize_max
    go none p q = ground arith
    go (some m) p q = ground (arith, optional_usize-le values (codes "max-message-bytes") m p)

-- The two numbers of a command, in the ranges of their types.
abbrev pub InRange : ℕ → ℕ → Type 0
InRange port max = (port ≤ u16_max) × (max ≤ usize_max)

abbrev pub IsBounded : Command → Type 0
IsBounded (http_client a) = InRange a.port a.max_message_bytes
IsBounded (http_server a) = InRange a.listen_port a.max_message_bytes
IsBounded (h2_client a) = InRange a.port a.max_message_bytes
IsBounded (h2_session_client a) = InRange a.port a.max_message_bytes
IsBounded (h2_server a) = InRange a.listen_port a.max_message_bytes
IsBounded (h3wt_client a) = InRange a.port a.max_message_bytes
IsBounded (h3wt_session_client a) = InRange a.port a.max_message_bytes
IsBounded (h3wt_server a) = InRange a.listen_port a.max_message_bytes

http_client_args-InRange :
    (values : Values) (a : HttpClientArgs)
    → http_client_args values ≡ ok a
    → InRange a.port a.max_message_bytes
unfolding http_client_args
http_client_args-InRange values a e =
    let (host, p₁, q₁) = bind-eq-ok (required values (codes "host")) _ e in
    let (port, p₂, q₂) = bind-eq-ok (required_port values (codes "port")) _ q₁ in
    let (path, p₃, q₃) = bind-eq-ok (required values (codes "path")) _ q₂ in
    let (max, p₄, q₄) = bind-eq-ok (max_message_bytes_of values) _ q₃ in
    (
      ground (arith, required_port-le values (codes "port") port p₂),
      ground (arith, max_message_bytes_of-le values max p₄),
    )

http_server_args-InRange :
    (values : Values) (a : HttpServerArgs)
    → http_server_args values ≡ ok a
    → InRange a.listen_port a.max_message_bytes
unfolding http_server_args
http_server_args-InRange values a e =
    let (listen_host, p0, q0) = bind-eq-ok (required values (codes "listen-host")) _ e in
    let (port, p1, q1) = bind-eq-ok (required_port values (codes "listen-port")) _ q0 in
    let (path, p2, q2) = bind-eq-ok (required values (codes "path")) _ q1 in
    let (upstream, p3, q3) = bind-eq-ok (required values (codes "upstream-unix")) _ q2 in
    let (ready, p4, q4) = bind-eq-ok (required values (codes "ready-file")) _ q3 in
    let (max, p5, q5) = bind-eq-ok (max_message_bytes_of values) _ q4 in
    (
      ground (arith, required_port-le values (codes "listen-port") port p1),
      ground (arith, max_message_bytes_of-le values max p5),
    )

h3wt_client_args-InRange :
    (values : Values) (a : H3wtClientArgs)
    → h3wt_client_args values ≡ ok a
    → InRange a.port a.max_message_bytes
unfolding h3wt_client_args
h3wt_client_args-InRange values a e =
    let (host, p0, q0) = bind-eq-ok (required values (codes "host")) _ e in
    let (port, p1, q1) = bind-eq-ok (required_port values (codes "port")) _ q0 in
    let (path, p2, q2) = bind-eq-ok (required values (codes "path")) _ q1 in
    let (max, p3, q3) = bind-eq-ok (max_message_bytes_of values) _ q2 in
    (
      ground (arith, required_port-le values (codes "port") port p1),
      ground (arith, max_message_bytes_of-le values max p3),
    )

h3wt_server_args-InRange :
    (values : Values) (a : H3wtServerArgs)
    → h3wt_server_args values ≡ ok a
    → InRange a.listen_port a.max_message_bytes
unfolding h3wt_server_args
h3wt_server_args-InRange values a e =
    let (listen_host, p0, q0) = bind-eq-ok (required values (codes "listen-host")) _ e in
    let (port, p1, q1) = bind-eq-ok (required_port values (codes "listen-port")) _ q0 in
    let (path, p2, q2) = bind-eq-ok (required values (codes "path")) _ q1 in
    let (upstream, p3, q3) = bind-eq-ok (required values (codes "upstream-unix")) _ q2 in
    let (ready, p4, q4) = bind-eq-ok (required values (codes "ready-file")) _ q3 in
    let (max, p5, q5) = bind-eq-ok (max_message_bytes_of values) _ q4 in
    (
      ground (arith, required_port-le values (codes "listen-port") port p1),
      ground (arith, max_message_bytes_of-le values max p5),
    )

-- A branch of the `match` on the subcommand.
map_ok-IsBounded :
    {A : Type 0} (f : A → Command) (r : Result A) (c : Command)
    → ((a : A) → r ≡ ok a → IsBounded (f a))
    → map_ok f r ≡ ok c
    → IsBounded c
map_ok-IsBounded f (ok a) c h e = subst IsBounded (ok-injective e) (h a refl)
  where
    ok-injective : ok (f a) ≡ ok c → f a ≡ c
    ok-injective q = cc
map_ok-IsBounded f (err x) c h e = absurd (ground arith)

err-IsBounded : (x : Error) (c : Command) → err x ≡ ok c → IsBounded c
err-IsBounded x c e = absurd (ground arith)

either :
    (b : Bool) (x y : Result Command) (c : Command)
    → (x ≡ ok c → IsBounded c)
    → (y ≡ ok c → IsBounded c)
    → (if b then x else y) ≡ ok c
    → IsBounded c
either true x y c f g e = f e
either false x y c f g e = g e

-- Whatever the command line, the port of an accepted command fits 16 bits and its cap 64 bits.
pub parse_args_from-IsBounded :
    (args : List Text) (c : Command) → parse_args_from args ≡ ok c → IsBounded c
unfolding parse_args_from command
parse_args_from-IsBounded [] c e = absurd (ground arith)
parse_args_from-IsBounded (name ∷ args) c e =
    let (values, _, q) = bind-eq-ok (parse_flags args []) (command name) e in
    let http = http_client_args-InRange values in
    let server = http_server_args-InRange values in
    let h3wt = h3wt_client_args-InRange values in
    either _ _ _ c (map_ok-IsBounded http_client (http_client_args values) c http)
      (either _ _ _ c (map_ok-IsBounded http_server (http_server_args values) c server) (
        either _ _ _ c (map_ok-IsBounded h2_client (http_client_args values) c http) (
          either _ _ _ c (map_ok-IsBounded h2_session_client (http_client_args values) c http) (
            either _ _ _ c (map_ok-IsBounded h2_server (http_server_args values) c server) (
              either _ _ _ c (map_ok-IsBounded h3wt_client (h3wt_client_args values) c h3wt) (
                either _ _ _ c
                  (map_ok-IsBounded h3wt_session_client (h3wt_client_args values) c h3wt)
                  (either _ _ _ c
                    (map_ok-IsBounded h3wt_server (h3wt_server_args values) c
                      (h3wt_server_args-InRange values))
                    (err-IsBounded (unknown_subcommand name) c))))))))
      q
