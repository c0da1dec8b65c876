-- ===== src/Tls.antt =====
-- Connections of the clients: `connect_tls_client`, `run_http_client` and `build_h3wt_client_config`
-- of tools/transport_bridge/src/main.rs. The rustls and wtransport libraries are parameters.
pub mod Pinned
use muxly.Base.{
  first, ℕ, Bool, true, false, not, ◌&&◌, Option, none, some, List, [], ◌∷◌, ◌++◌, Bytes, Text,
  codes, same, if◌then◌else◌,
}
use muxly.Outcome.{
  Result, ok, err, ok_or, ◌>>=◌ as and_then, invalid_tls_server_name, invalid_sha256_hash,
}
use muxly.Host.{Host, Io, pure, lift, ◌>>=◌, ◌>>◌}
use muxly.Args.{HttpClientArgs, H3wtClientArgs}
use muxly.Net.{extract_lookup_port, host_header, verify_tls_pin}
use muxly.Session.{run_http_client_on_stream}

-- Certificates to trust.
pub record TrustStore : Type 1 where
  pub Roots : Type 0
  -- `RootCertStore::empty`
  pub empty : Roots
  pub add : Roots → Bytes → Result Roots
  -- `load_native_certs().certs`; its errors are only logged
  pub native_certs : List Bytes
  -- `CertificateDer::pem_file_iter(path)`
  pub pem_file_iter : Text → Result (List (Result Bytes))

module _ (store : TrustStore) where
  open store use {Roots, empty, add, native_certs, pem_file_iter}

  unfoldable pub add_native : Roots → List Bytes → Result Roots
  add_native roots [] = ok roots
  add_native roots (cert ∷ certs) = and_then (add roots cert) (λ more. add_native more certs)

  unfoldable pub add_ca : Roots → List (Result Bytes) → Result Roots
  add_ca roots [] = ok roots
  add_ca roots (cert ∷ certs) =
      and_then cert (λ der. and_then (add roots der) (λ more. add_ca more certs))

  abbrev pub add_ca_file : Roots → Option Text → Result Roots
  add_ca_file roots none = ok roots
  add_ca_file roots (some path) = and_then (pem_file_iter path) (λ certs. add_ca roots certs)

  -- The first part of `connect_tls_client`, and of the second branch of `build_h3wt_client_config`.
  unfoldable pub trusted_roots : Option Text → Result Roots
  unfolding add_native add_ca
  trusted_roots tls_ca_file =
      and_then (add_native empty native_certs) (λ roots. add_ca_file roots tls_ca_file)

-- `tls_server_name.as_deref().unwrap_or(host)`
abbrev pub name_or_host : Option Text → Text → Text
name_or_host none host = host
name_or_host (some name) host = name

-- What the clients take from tokio's TCP and from rustls.
pub record Tls (host : Host) (store : TrustStore) : Type 1 where
  pub ServerName : Type 0
  -- `ServerName::try_from(text).ok()`
  pub server_name : Text → Option ServerName
  -- `TcpStream::connect((host, port))`
  pub tcp_connect : Text → ℕ → Io host.World host.Handle
  -- `TlsConnector::from(config).connect(server_name, tcp)`
  pub connect :
      store.Roots
      → (alpn_protocols : List Bytes) → ServerName
      → host.Handle
      → Io host.World host.Handle
  -- `session.peer_certificates()`
  pub peer_certificates : host.Handle → host.World → Option (List Bytes)
  -- `Sha256::digest`
  pub digest : Bytes → Bytes

module _ (host : Host) (store : TrustStore) (tls : Tls host store) where
  open host use {World, Handle}
  open tls use {server_name, tcp_connect, connect, peer_certificates, digest}

  -- `verify_tls_pin` on a session.
  abbrev pub verify_session : Handle → Option Text → Io World (Unit {0})
  verify_session session pin w = (verify_tls_pin digest (peer_certificates session w) pin, w)

  unfoldable pub connect_tls_client : HttpClientArgs → List Bytes → Io World Handle
  connect_tls_client args alpn_protocols = do
    roots ← lift (trusted_roots store args.tls_ca_file)
    name ←
        lift (
          ok_or (server_name (name_or_host args.tls_server_name args.host)) invalid_tls_server_name)
    tcp ← tcp_connect args.host args.port
    session ← connect roots alpn_protocols name tcp
    verify_session session args.tls_sha256
    pure session

  -- The stream that `run_http_client`, `run_h2_client` and `run_h2_session_client` go on with.
  unfoldable pub connect_client : HttpClientArgs → List Bytes → Io World Handle
  connect_client args alpn_protocols =
      if args.tls then connect_tls_client args alpn_protocols else tcp_connect args.host args.port

  unfoldable pub run_http_client :
      (rounds fuel : ℕ) (stdin stdout : Handle) → HttpClientArgs → Io World (Unit {0})
  run_http_client rounds fuel stdin stdout args = do
    network ← connect_client args (codes "http/1.1" ∷ [])
    run_http_client_on_stream host rounds fuel stdin stdout network
        (host_header args.host args.port) args.path args.max_message_bytes

-- What `build_h3wt_client_config` decides: which certificates of a server are accepted, whether the
-- resolver is replaced by `H3wtOverrideResolver`, and the host in the URL.
pub data Trust (store : TrustStore) : Type 0 where
  certificate_hash : Text → Trust store  -- `with_server_certificate_hashes`
  roots_of : store.Roots → Trust store  -- `with_custom_tls`

pub record H3wtConfig (store : TrustStore) : Type 0 where
  pub trust : Trust store
  pub connect_host : Option Text
  pub url_host : Text

abbrev pub override : Option Text → Text → Option Text
override none host = none
override (some name) host = if not (same name host) then some host else none

module _ (store : TrustStore) (is_sha256 : Text → Bool) where
  -- By `--sha256` and `--tls-ca-file`; the parse of a hash is a parameter.
  unfoldable pub h3wt_trust : Option Text → Option Text → Result (Trust store)
  h3wt_trust (some sha256) none =
      if is_sha256 sha256 then ok (certificate_hash sha256) else err invalid_sha256_hash
  h3wt_trust sha256 tls_ca_file =
      and_then (trusted_roots store tls_ca_file) (λ roots. ok (roots_of roots))

  unfoldable pub build_h3wt_client_config : H3wtClientArgs → Result (H3wtConfig store)
  build_h3wt_client_config args = and_then (h3wt_trust args.sha256 args.tls_ca_file) (λ trust.
      ok (record {
        trust = trust;
        connect_host = override args.tls_server_name args.host;
        url_host = name_or_host args.tls_server_name args.host;
      }))

-- The resolver that connects to `connect_host` whatever name the URL has.
unfoldable pub resolve :
    {Address : Type 0}
    → (lookup_host : Text → ℕ → Result (List Address)) → (connect_host : Text) → (host : Text)
    → Result (Option Address)
resolve lookup_host connect_host host = elim (extract_lookup_port host) [
  | none ↦ ok none
  | some port ↦ and_then (lookup_host connect_host port) (λ addresses. ok (first addresses))
]
