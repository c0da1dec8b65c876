-- ===== src/Args/RoundTrip.antt =====
-- Every command can be given on the command line.
use muxly.Base.{
  ℕ, ◌≡◌, ap, Bool, true, false, Option, none, some, List, [], ◌∷◌, ◌++◌, arith, Text, codes,
  usize_max,
}
use muxly.Std.Decimal.{to_text, parse-to_text}
use muxly.Std.Str.{starts_with, trim_start_dashes}
use muxly.Outcome.{Result, ok, err, ◌>>=◌ as and_then}
use muxly.Args.{
  u16_max, HttpClientArgs, HttpServerArgs, H3wtClientArgs, H3wtServerArgs, Command, http_client,
  http_server, h2_client, h2_session_client, h2_server, h3wt_client, h3wt_session_client,
  h3wt_server, Values, get, required, optional_usize, required_port, max_message_bytes_of,
  http_client_args, http_server_args, h3wt_client_args, h3wt_server_args, map_ok, command,
  parse_flags, parse_args_from,
}
use muxly.Args.Bounds.{InRange, IsBounded}

-- A flag with its value, if there is one.
abbrev flag : Text → Option Text → List Text
flag name none = []
flag name (some value) = name ∷ value ∷ []

abbrev switch : Text → Bool → List Text
switch name false = []
switch name true = name ∷ []

-- The part that all command lines share.
abbrev address : Text → Text → Text → ℕ → List Text → List Text
address host_flag host path max rest =
    host_flag ∷ host ∷ codes "--path" ∷ path ∷ codes "--max-message-bytes" ∷ to_text max ∷ rest

abbrev http_client_flags : HttpClientArgs → List Text
http_client_flags a =
    switch (codes "--tls") a.tls
    ++ address (codes "--host") a.host a.path a.max_message_bytes (
        codes "--port"
        ∷ to_text a.port
        ∷ (flag (codes "--tls-server-name") a.tls_server_name
            ++ (flag (codes "--tls-ca-file") a.tls_ca_file
                ++ flag (codes "--tls-sha256") a.tls_sha256)))

abbrev h3wt_client_flags : H3wtClientArgs → List Text
h3wt_client_flags a = address (codes "--host") a.host a.path a.max_message_bytes (
    codes "--port"
    ∷ to_text a.port
    ∷ (flag (codes "--sha256") a.sha256
        ++ (flag (codes "--tls-server-name") a.tls_server_name
            ++ flag (codes "--tls-ca-file") a.tls_ca_file)))

abbrev server_flags : Text → ℕ → Text → Text → Text → ℕ → List Text
server_flags listen_host listen_port path upstream_unix ready_file max =
    address (codes "--listen-host") listen_host path max (
      codes "--listen-port"
      ∷ to_text listen_port
      ∷ codes "--upstream-unix"
      ∷ upstream_unix
      ∷ codes "--ready-file"
      ∷ ready_file
      ∷ [])

abbrev http_server_flags : HttpServerArgs → List Text
http_server_flags a =
    server_flags a.listen_host a.listen_port a.path a.upstream_unix a.ready_file a.max_message_bytes

abbrev h3wt_server_flags : H3wtServerArgs → List Text
h3wt_server_flags a =
    server_flags a.listen_host a.listen_port a.path a.upstream_unix a.ready_file a.max_message_bytes

-- A command line for a command: every value is given by its flag.
unfoldable pub command_line : Command → List Text
command_line (http_client a) = codes "http-client" ∷ http_client_flags a
command_line (http_server a) = codes "http-server" ∷ http_server_flags a
command_line (h2_client a) = codes "h2-client" ∷ http_client_flags a
command_line (h2_session_client a) = codes "h2-session-client" ∷ http_client_flags a
command_line (h2_server a) = codes "h2-server" ∷ http_server_flags a
command_line (h3wt_client a) = codes "h3wt-client" ∷ h3wt_client_flags a
command_line (h3wt_session_client a) = codes "h3wt-session-client" ∷ h3wt_client_flags a
command_line (h3wt_server a) = codes "h3wt-server" ∷ h3wt_server_flags a

http_client_round :
    (a : HttpClientArgs)
    → InRange a.port a.max_message_bytes
    → and_then (parse_flags (http_client_flags a) []) http_client_args ≡ ok a
unfolding parse_flags starts_with trim_start_dashes http_client_args get required required_port
    max_message_bytes_of optional_usize
http_client_round a (h, k) =
    ground (arith, parse-to_text a.port u16_max h, parse-to_text a.max_message_bytes usize_max k)

h3wt_client_round :
    (a : H3wtClientArgs)
    → InRange a.port a.max_message_bytes
    → and_then (parse_flags (h3wt_client_flags a) []) h3wt_client_args ≡ ok a
unfolding parse_flags starts_with trim_start_dashes h3wt_client_args get required required_port
    max_message_bytes_of optional_usize
h3wt_client_round a (h, k) =
    ground (arith, parse-to_text a.port u16_max h, parse-to_text a.max_message_bytes usize_max k)

http_server_round :
    (a : HttpServerArgs)
    → InRange a.listen_port a.max_message_bytes
    → and_then (parse_flags (http_server_flags a) []) http_server_args ≡ ok a
unfolding parse_flags starts_with trim_start_dashes http_server_args get required required_port
    max_message_bytes_of optional_usize
http_server_round a (h, k) =
    ground
      (arith, parse-to_text a.listen_port u16_max h, parse-to_text a.max_message_bytes usize_max k)

h3wt_server_round :
    (a : H3wtServerArgs)
    → InRange a.listen_port a.max_message_bytes
    → and_then (parse_flags (h3wt_server_flags a) []) h3wt_server_args ≡ ok a
unfolding parse_flags starts_with trim_start_dashes h3wt_server_args get required required_port
    max_message_bytes_of optional_usize
h3wt_server_round a (h, k) =
    ground
      (arith, parse-to_text a.listen_port u16_max h, parse-to_text a.max_message_bytes usize_max k)

-- The `match` on the subcommand wraps the arguments.
wrap :
    {A : Type 0} (r : Result Values) (args : Values → Result A) (f : A → Command) (a : A)
    → and_then r args ≡ ok a
    → and_then r (λ values. map_ok f (args values)) ≡ ok (f a)
wrap (ok values) args f a e = ap (map_ok f) e
wrap (err x) args f a e = cc

-- Every command whose numbers fit their types is what `parse_args_from` makes of its command line,
-- where every value stands behind its flag.
pub parse_args_from-command_line :
    (c : Command) → IsBounded c → parse_args_from (command_line c) ≡ ok c
unfolding parse_args_from command_line command
parse_args_from-command_line (http_client a) h =
    wrap _ http_client_args http_client a (http_client_round a h)
parse_args_from-command_line (http_server a) h =
    wrap _ http_server_args http_server a (http_server_round a h)
parse_args_from-command_line (h2_client a) h =
    wrap _ http_client_args h2_client a (http_client_round a h)
parse_args_from-command_line (h2_session_client a) h =
    wrap _ http_client_args h2_session_client a (http_client_round a h)
parse_args_from-command_line (h2_server a) h =
    wrap _ http_server_args h2_server a (http_server_round a h)
parse_args_from-command_line (h3wt_client a) h =
    wrap _ h3wt_client_args h3wt_client a (h3wt_client_round a h)
parse_args_from-command_line (h3wt_session_client a) h =
    wrap _ h3wt_client_args h3wt_session_client a (h3wt_client_round a h)
parse_args_from-command_line (h3wt_server a) h =
    wrap _ h3wt_server_args h3wt_server a (h3wt_server_round a h)
