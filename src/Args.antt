-- ===== src/Args.antt =====
-- The command line of the bridge: `Command`, the records of arguments, `parse_args_from`, `required`
-- and `optional_usize` of tools/transport_bridge/src/main.rs.
pub mod Bounds
pub mod RoundTrip
use mathlib.Core.Option.{get_or}
use muxly.Base.{
  ℕ, ◌*◌, Bool, true, false, not, ◌||◌, Option, none, some, List, [], ◌∷◌, Text, codes, same,
  if◌then◌else◌, usize_max,
}
use muxly.Std.Decimal.{parse}
use muxly.Std.Str.{starts_with, trim_start_dashes}
use muxly.Outcome.{
  Result, ok, err, ok_or, ◌>>=◌, missing_subcommand, unexpected_argument, missing_value,
  missing_flag, invalid_flag, unknown_subcommand,
}

abbrev pub default_max_buffered_message_bytes : ℕ
default_max_buffered_message_bytes = 128 * 1024 * 1024

abbrev pub u16_max : ℕ
u16_max = 65535

pub record HttpClientArgs : Type 0 where
  pub host : Text
  pub port : ℕ  -- u16
  pub path : Text
  pub max_message_bytes : ℕ  -- usize
  pub tls : Bool
  pub tls_server_name : Option Text
  pub tls_ca_file : Option Text
  pub tls_sha256 : Option Text

pub record HttpServerArgs : Type 0 where
  pub listen_host : Text
  pub listen_port : ℕ  -- u16
  pub path : Text
  pub upstream_unix : Text
  pub ready_file : Text
  pub max_message_bytes : ℕ  -- usize

pub record H3wtClientArgs : Type 0 where
  pub host : Text
  pub port : ℕ  -- u16
  pub path : Text
  pub sha256 : Option Text
  pub tls_server_name : Option Text
  pub tls_ca_file : Option Text
  pub max_message_bytes : ℕ  -- usize

pub record H3wtServerArgs : Type 0 where
  pub listen_host : Text
  pub listen_port : ℕ  -- u16
  pub path : Text
  pub upstream_unix : Text
  pub ready_file : Text
  pub max_message_bytes : ℕ  -- usize

pub data Command : Type 0 where
  http_client : HttpClientArgs → Command
  http_server : HttpServerArgs → Command
  h2_client : HttpClientArgs → Command
  h2_session_client : HttpClientArgs → Command
  h2_server : HttpServerArgs → Command
  h3wt_client : H3wtClientArgs → Command
  h3wt_session_client : H3wtClientArgs → Command
  h3wt_server : H3wtServerArgs → Command

-- `HashMap<String, String>`: the entry inserted last comes first, and hides those before it.
abbrev pub Values : Type 0
Values = List (Text × Text)

unfoldable pub get : Text → Values → Option Text
get key [] = none
get key ((k, v) ∷ values) = if same k key then some v else get key values

abbrev pub contains_key : Text → Values → Bool
contains_key key values = elim (get key values) [ none ↦ false | some v ↦ true ]

-- The flags without a value.
abbrev pub is_switch : Text → Bool
is_switch key = same key (codes "allow-insecure") || same key (codes "tls")

-- The `while let` loop over the flags.
unfoldable pub parse_flags : List Text → Values → Result Values
parse_flags [] values = ok values
parse_flags (flag ∷ []) values =
    if not (starts_with flag (codes "--"))
    then err (unexpected_argument flag)
    else if is_switch (trim_start_dashes flag)
    then ok ((trim_start_dashes flag, codes "true") ∷ values)
    else err (missing_value (trim_start_dashes flag))
parse_flags (flag ∷ value ∷ args) values = elim (starts_with flag (codes "--")) [
  | false ↦ err (unexpected_argument flag)
  | true ↦ elim (is_switch (trim_start_dashes flag)) [
    | true ↦ parse_flags (value ∷ args) ((trim_start_dashes flag, codes "true") ∷ values)
    | false ↦ parse_flags args ((trim_start_dashes flag, value) ∷ values)
  ]
]

unfoldable pub required : Values → Text → Result Text
required values key = ok_or (get key values) (missing_flag key)

unfoldable pub optional_usize : Values → Text → Result (Option ℕ)
optional_usize values key = elim (get key values) [
  | none ↦ ok none
  | some value ↦ elim (parse usize_max value) [
    | none ↦ err (invalid_flag key)
    | some n ↦ ok (some n)
  ]
]

-- `required(&values, key)?.parse().context("invalid --key")?` at `u16`.
unfoldable pub required_port : Values → Text → Result ℕ
required_port values key = do
  value ← required values key
  ok_or (parse u16_max value) (invalid_flag key)

-- `optional_usize(&values, "max-message-bytes")?.unwrap_or(DEFAULT_MAX_BUFFERED_MESSAGE_BYTES)`
unfoldable pub max_message_bytes_of : Values → Result ℕ
max_message_bytes_of values = do
  given ← optional_usize values (codes "max-message-bytes")
  ok (get_or given default_max_buffered_message_bytes)

unfoldable pub http_client_args : Values → Result HttpClientArgs
http_client_args values = do
  host ← required values (codes "host")
  port ← required_port values (codes "port")
  path ← required values (codes "path")
  max_message_bytes ← max_message_bytes_of values
  ok (record {
    host = host;
    port = port;
    path = path;
    max_message_bytes = max_message_bytes;
    tls = contains_key (codes "tls") values;
    tls_server_name = get (codes "tls-server-name") values;
    tls_ca_file = get (codes "tls-ca-file") values;
    tls_sha256 = get (codes "tls-sha256") values;
  })

unfoldable pub http_server_args : Values → Result HttpServerArgs
http_server_args values = do
  listen_host ← required values (codes "listen-host")
  listen_port ← required_port values (codes "listen-port")
  path ← required values (codes "path")
  upstream_unix ← required values (codes "upstream-unix")
  ready_file ← required values (codes "ready-file")
  max_message_bytes ← max_message_bytes_of values
  ok (record {
    listen_host = listen_host;
    listen_port = listen_port;
    path = path;
    upstream_unix = upstream_unix;
    ready_file = ready_file;
    max_message_bytes = max_message_bytes;
  })

unfoldable pub h3wt_client_args : Values → Result H3wtClientArgs
h3wt_client_args values = do
  host ← required values (codes "host")
  port ← required_port values (codes "port")
  path ← required values (codes "path")
  max_message_bytes ← max_message_bytes_of values
  ok (record {
    host = host;
    port = port;
    path = path;
    sha256 = get (codes "sha256") values;
    tls_server_name = get (codes "tls-server-name") values;
    tls_ca_file = get (codes "tls-ca-file") values;
    max_message_bytes = max_message_bytes;
  })

unfoldable pub h3wt_server_args : Values → Result H3wtServerArgs
h3wt_server_args values = do
  listen_host ← required values (codes "listen-host")
  listen_port ← required_port values (codes "listen-port")
  path ← required values (codes "path")
  upstream_unix ← required values (codes "upstream-unix")
  ready_file ← required values (codes "ready-file")
  max_message_bytes ← max_message_bytes_of values
  ok (record {
    listen_host = listen_host;
    listen_port = listen_port;
    path = path;
    upstream_unix = upstream_unix;
    ready_file = ready_file;
    max_message_bytes = max_message_bytes;
  })

abbrev pub map_ok {ℓ κ} : {A : Type ℓ} {B : Type κ} → (A → B) → Result A → Result B
map_ok f (ok a) = ok (f a)
map_ok f (err e) = err e

-- The `match` on the subcommand.
unfoldable pub command : Text → Values → Result Command
command subcommand values =
    if same subcommand (codes "http-client")
    then map_ok http_client (http_client_args values)
    else if same subcommand (codes "http-server")
    then map_ok http_server (http_server_args values)
    else if same subcommand (codes "h2-client")
    then map_ok h2_client (http_client_args values)
    else if same subcommand (codes "h2-session-client")
    then map_ok h2_session_client (http_client_args values)
    else if same subcommand (codes "h2-server")
    then map_ok h2_server (http_server_args values)
    else if same subcommand (codes "h3wt-client")
    then map_ok h3wt_client (h3wt_client_args values)
    else if same subcommand (codes "h3wt-session-client")
    then map_ok h3wt_session_client (h3wt_client_args values)
    else if same subcommand (codes "h3wt-server")
    then map_ok h3wt_server (h3wt_server_args values)
    else err (unknown_subcommand subcommand)

unfoldable pub parse_args_from : List Text → Result Command
parse_args_from [] = err missing_subcommand
parse_args_from (subcommand ∷ args) = do values ← parse_flags args []; command subcommand values
