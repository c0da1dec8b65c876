-- ===== src/Clients.antt =====
-- The client commands from their arguments on: `run_h2_client`, `run_h2_session_client`,
-- `run_h2_client_on_stream` and `run_h2_session_client_on_stream` before their loops, and
-- `run_h3wt_client`, `run_h3wt_session_client` before their loops, in
-- tools/transport_bridge/src/main.rs.
use muxly.Base.{ℕ, Bool, Option, List, [], ◌∷◌, ◌++◌, Bytes, Text, codes}
use muxly.Outcome.{Result, ok}
use muxly.Host.{Host, Io, pure, lift, ◌>>=◌, ◌>>◌}
use muxly.Args.{HttpClientArgs, H3wtClientArgs}
use muxly.Net.{authority, verify_h3wt_pin, h2_window_bytes}
use muxly.H2Client.{H2Sender, run_h2_client_on_stream}
use muxly.SessionClient.{ClientState, new_client}
use muxly.SessionRun.{Runtime, Branch, run_session}
use muxly.Relay.{H3, h3wt_requests}
use muxly.H3Client.{H3State, H3Branch, new_h3_client, run_h3wt_session}
use muxly.Tls.{TrustStore, Tls, connect_client, H3wtConfig, build_h3wt_client_config}

module _ (host : Host) (store : TrustStore) (tls : Tls host store)
    (handshake : (window : ℕ) → host.Handle → Io host.World (H2Sender host)) where
  open host use {World, Handle}

  -- `configure_h2_client_windows` and the handshake of the h2 library.
  unfoldable pub open_h2 : HttpClientArgs → Io World (H2Sender host)
  open_h2 args = do
    stream ← connect_client host store tls args (codes "h2" ∷ [])
    handshake (h2_window_bytes args.max_message_bytes) stream

  unfoldable pub run_h2_client :
      (rounds : ℕ) (stdin stdout : Handle) → HttpClientArgs → Io World (Unit {0})
  run_h2_client rounds stdin stdout args = do
    h2 ← open_h2 args
    run_h2_client_on_stream host h2 rounds stdin stdout args.host args.port args.path
        args.max_message_bytes

  -- The result is that of `run_session`.
  unfoldable pub run_h2_session_client :
      Runtime host
      → List Branch
      → (stdin : Handle) → HttpClientArgs
      → Io World (Option (Result ClientState))
  run_h2_session_client runtime branches stdin args = do
    h2 ← open_h2 args
    λ w.
        let (result, w') =
          run_session host h2 runtime stdin args.host args.port args.path args.max_message_bytes
            branches new_client w in
        (ok result, w')

-- A WebTransport session that has been connected.
pub record H3Connection (host : Host) : Type 0 where
  pub h3 : H3 host
  -- `connection.peer_identity()`
  pub peer_identity : Option (List Bytes)

module _ (host : Host) (store : TrustStore) (is_sha256 : Text → Bool) (hash_text : Bytes → Text)
    (connect : H3wtConfig store → (url : Text) → Io host.World (H3Connection host)) where
  open host use {World, Handle}

  unfoldable pub open_h3wt : H3wtClientArgs → Io World (H3Connection host)
  open_h3wt args = do
    config ← lift (build_h3wt_client_config store is_sha256 args)
    connection ←
        connect config (codes "https://" ++ (authority config.url_host args.port ++ args.path))
    lift (verify_h3wt_pin hash_text connection.peer_identity args.sha256)
    pure connection

  unfoldable pub run_h3wt_client :
      (rounds fuel : ℕ) (stdin stdout : Handle) → H3wtClientArgs → Io World (Unit {0})
  run_h3wt_client rounds fuel stdin stdout args = do
    connection ← open_h3wt args
    h3wt_requests host connection.h3 rounds fuel stdin stdout args.max_message_bytes

  unfoldable pub run_h3wt_session_client :
      Runtime host
      → List H3Branch
      → (stdin : Handle) → H3wtClientArgs
      → Io World (Option (Result H3State))
  run_h3wt_session_client runtime branches stdin args = do
    connection ← open_h3wt args
    λ w.
        let (result, w') =
          run_h3wt_session host runtime stdin args.max_message_bytes branches new_h3_client w in
        (ok result, w')
