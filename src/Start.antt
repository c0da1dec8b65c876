-- ===== src/Start.antt =====
-- The servers up to their tasks: `run_http_server`, `run_h2_server`, `run_h3wt_server`,
-- `handle_h3wt_session` and `resolve_socket_addr` of tools/transport_bridge/src/main.rs. Tasks that
-- are spawned are those of the other files.
pub mod Ready
use muxly.Base.{first, ℕ, Option, none, some, List, [], ◌∷◌, Bytes, Text, same, if◌then◌else◌}
use muxly.Outcome.{
  Error, Result, ok, err, ok_or, ◌>>=◌ as and_then, unexpected_h3wt_path, no_resolved_address,
  index_out_of_bounds,
}
use muxly.Host.{Io, pure, lift, ◌>>=◌, ◌>>◌}
use muxly.Args.{HttpServerArgs, H3wtServerArgs}
use muxly.Identity.{Files, ReadyFile, load_or_create_identity, write_ready_file}

-- A loop that spawns a task for everything that it accepts, until the first error: what it has
-- spawned tasks for, and the error that ended it, if there has been one.
unfoldable pub accept_all : {A : Type 0} → List (Result A) → List A × Option Error
accept_all [] = ([], none)
accept_all (err e ∷ events) = ([], some e)
accept_all (ok socket ∷ events) = let rest = accept_all events in (socket ∷ rest.0, rest.1)

-- What the servers take from tokio and wtransport.
pub record Network (files : Files) : Type 1 where
  pub Address : Type 0
  pub Listener : Type 0
  -- `TcpListener::bind((host, port))`
  pub bind : Text → ℕ → Io files.World Listener
  -- `Endpoint::server(config)`
  pub endpoint : files.Identity → Address → Io files.World Listener
  -- `listener.local_addr()?.port()`
  pub local_port : Listener → Io files.World ℕ
  -- `(host, port).to_socket_addrs()`
  pub to_socket_addrs : Text → ℕ → Result (List Address)
  -- `identity.certificate_chain().as_slice()`
  pub certificate_chain : files.Identity → List Bytes
  -- `certificate.hash().to_string()`
  pub hash_text : Bytes → Text

module _ (files : Files) (network : Network files) where
  open network use {Address, to_socket_addrs, certificate_chain, hash_text}

  unfoldable pub resolve_socket_addr : Text → ℕ → Result Address
  resolve_socket_addr host port =
      and_then (to_socket_addrs host port)
        (λ addresses. ok_or (first addresses) no_resolved_address)

  -- `identity.certificate_chain().as_slice()[0].hash().to_string()`; an empty chain would be a panic.
  unfoldable pub certificate_hash : files.Identity → Result Text
  certificate_hash identity =
      and_then (ok_or (first (certificate_chain identity)) index_out_of_bounds)
        (λ certificate. ok (hash_text certificate))

module _ (files : Files) (network : Network files) (to_vec_pretty : ReadyFile → Result Bytes) where
  open files use {World}
  open network use {Listener, bind, endpoint, local_port}

  -- `run_http_server` before its loop.
  unfoldable pub start_http_server : HttpServerArgs → Io World Listener
  start_http_server args = do
    listener ← bind args.listen_host args.listen_port
    port ← local_port listener
    write_ready_file files to_vec_pretty args.ready_file
        (record { host = args.listen_host; port = port; path = args.path; sha256 = none })
    pure listener

  -- `run_h2_server` before its loop; the gate, the lanes and the accept sequence are in Serve.
  unfoldable pub start_h2_server : HttpServerArgs → Io World Listener
  start_h2_server args = do
    listener ← bind args.listen_host args.listen_port
    port ← local_port listener
    write_ready_file files to_vec_pretty args.ready_file
        (record { host = args.listen_host; port = port; path = args.path; sha256 = none })
    pure listener

  -- `run_h3wt_server` before its loop.
  unfoldable pub start_h3wt_server : H3wtServerArgs → Io World Listener
  start_h3wt_server args = do
    identity ← load_or_create_identity files args.listen_host
    sha256 ← lift (certificate_hash files network identity)
    bind_addr ← lift (resolve_socket_addr files network args.listen_host args.listen_port)
    listener ← endpoint identity bind_addr
    port ← local_port listener
    write_ready_file files to_vec_pretty args.ready_file
        (record { host = args.listen_host; port = port; path = args.path; sha256 = some sha256 })
    pure listener

-- A session: `incoming` is its path, `accepted` how `session_request.accept()` ended, and the streams
-- are what `accept_bi` returns.
unfoldable pub handle_h3wt_session :
    {A : Type 0}
    → (incoming : Result Text) → (expected_path : Text) → (accepted : Result (Unit {0}))
    → (streams : List (Result A)) → List A × Option Error
handle_h3wt_session (err e) expected_path accepted streams = ([], some e)
handle_h3wt_session (ok path) expected_path (err e) streams =
    ([], some (if same path expected_path then e else unexpected_h3wt_path path))
handle_h3wt_session (ok path) expected_path (ok _) streams =
    if same path expected_path then accept_all streams else ([], some (unexpected_h3wt_path path))
