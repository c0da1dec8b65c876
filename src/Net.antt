-- ===== src/Net.antt =====
-- Addresses, pins and windows: `authority`, `host_header`, `extract_lookup_port`, `verify_tls_pin`,
-- `verify_h3wt_pin`, `hex_sha256`, `nibble_to_hex` and `h2_window_bytes` of
-- tools/transport_bridge/src/main.rs. The digest itself is a parameter.
pub mod Addresses
pub mod Pins
use muxly.Base.{
  ℕ, ◌+◌, ◌-◌, ◌/◌, ◌%◌, ◌^◌, Bool, true, false, not, ◌&&◌, Option, none, some, List, [], ◌∷◌, ◌++◌,
  Bytes, Text, codes, same, leb, if◌then◌else◌, ◌==◌,
}
use muxly.Std.Decimal.{to_text, parse}
use muxly.Std.Str.{starts_with, contains, split_once, rsplit_once}
use muxly.Outcome.{
  Result, ok, err, certificate_chain_unavailable, certificate_chain_empty, pin_mismatch,
}
use muxly.Args.{u16_max}

unfoldable pub authority : Text → ℕ → Text
authority host port =
    if contains host b':' && not (starts_with host (codes "["))
    then codes "[" ++ (host ++ (codes "]:" ++ to_text port))
    else host ++ (codes ":" ++ to_text port)

unfoldable pub host_header : Text → ℕ → Text
unfolding authority
host_header host port = authority host port

-- The part of an address in brackets behind the opening bracket: from `find(']')` on.
unfoldable pub bracketed_port : Text → Option ℕ
bracketed_port stripped = elim (split_once b']' stripped) [
  | none ↦ none
  | some (inside, remainder) ↦ elim remainder [
    | [] ↦ none
    | c ∷ port_text ↦ if c == b':' then parse u16_max port_text else none
  ]
]

unfoldable pub plain_port : Text → Option ℕ
plain_port host = elim (rsplit_once b':' host) [
  | none ↦ none
  | some (before, port_text) ↦ parse u16_max port_text
]

unfoldable pub extract_lookup_port : Text → Option ℕ
unfolding bracketed_port plain_port
extract_lookup_port [] = plain_port []
extract_lookup_port (c ∷ stripped) =
    if c == b'[' then bracketed_port stripped else plain_port (c ∷ stripped)

-- For a nibble, a number below 16.
unfoldable pub nibble_to_hex : ℕ → ℕ
nibble_to_hex value = if leb value 9 then b'0' + value else b'a' + (value - 10)

-- The loop of `hex_sha256` over the digest.
unfoldable pub hex : Bytes → Text
unfolding nibble_to_hex
hex [] = []
hex (byte ∷ bytes) = nibble_to_hex (byte / 16) ∷ nibble_to_hex (byte % 16) ∷ hex bytes

-- `Sha256::digest` is a parameter.
unfoldable pub hex_sha256 : (Bytes → Bytes) → Bytes → Text
hex_sha256 digest bytes = hex (digest bytes)

-- The certificates that the session shows, the one of the server first.
unfoldable pub verify_tls_pin :
    (Bytes → Bytes) → Option (List Bytes) → Option Text → Result (Unit {0})
verify_tls_pin digest peer_certificates none = ok tt
verify_tls_pin digest none (some expected_pin) = err (certificate_chain_unavailable (codes "TLS"))
verify_tls_pin digest (some []) (some expected_pin) = err (certificate_chain_empty (codes "TLS"))
verify_tls_pin digest (some (end_entity ∷ _)) (some expected_pin) =
    if not (same (hex_sha256 digest end_entity) expected_pin)
    then err (pin_mismatch (codes "TLS"))
    else ok tt

-- The same for WebTransport, where the library prints the hash of a certificate.
unfoldable pub verify_h3wt_pin :
    (Bytes → Text) → Option (List Bytes) → Option Text → Result (Unit {0})
verify_h3wt_pin hash_text peer_identity none = ok tt
verify_h3wt_pin hash_text none (some expected_pin) =
    err (certificate_chain_unavailable (codes "WebTransport"))
verify_h3wt_pin hash_text (some []) (some expected_pin) =
    err (certificate_chain_empty (codes "WebTransport"))
verify_h3wt_pin hash_text (some (end_entity ∷ _)) (some expected_pin) =
    if not (same (hash_text end_entity) expected_pin)
    then err (pin_mismatch (codes "WebTransport"))
    else ok tt

abbrev u32_max : ℕ
u32_max = 4294967295

-- The windows that `configure_h2_client_windows` and `configure_h2_server_windows` set.
unfoldable pub h2_window_bytes : ℕ → ℕ
h2_window_bytes max_message_bytes =
    if leb max_message_bytes u32_max then max_message_bytes else u32_max
