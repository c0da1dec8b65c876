-- ===== src/Upstream.antt =====
-- The way of a request to the daemon, which `handle_http_connection`, `start_h2_stream` and
-- `handle_h3wt_bi_stream` of tools/transport_bridge/src/main.rs share.
use muxly.Base.{[], ◌∷◌, Bytes, Text}
use muxly.Host.{Host, Io, pure, ◌>>=◌, ◌>>◌}

-- From the connection to the daemon to the flush of the request.
unfoldable pub forward_request : (host : Host) → Text → Bytes → Io host.World host.Handle
forward_request host upstream_unix request = do
  upstream ← host.connect_unix upstream_unix
  host.write_all upstream request
  host.write_all upstream (b'\n' ∷ [])
  host.flush upstream
  pure upstream
