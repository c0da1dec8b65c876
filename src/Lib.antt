-- ===== src/Lib.antt =====
-- The transport bridge of muxly, tools/transport_bridge/src/main.rs: a program that carries newline
-- delimited JSON messages between standard streams, a Unix socket and a network transport (HTTP/1.1,
-- H2, or WebTransport over H3). A client command reads messages from its standard input and prints
-- the responses; a server command forwards each request to the daemon's Unix socket. The H2 server
-- reads request bodies in the order of the streams, one at a time, and sends requests that touch the
-- same part of a document through the queue of one lane.
--
-- Files and the code that they model:
-- - Args: `Command`, the argument records, `parse_args_from`, `required`, `optional_usize`.
-- - Line: `read_line_message_with_cap`, `read_line_message`.
-- - Http: `read_http_request`, `read_http_response`, `read_http_line`, `parse_content_length`, and the
--   `write_http_*` functions.
-- - Decoder: `H2LineDecoder`, `read_h2_request_body`, `copy_h2_body_to_stdout`.
-- - Gate: `OrderedSequenceGate`, and the streams of `handle_h2_connection` that go through it.
-- - LaneQueue: `LaneQueue`, and the requests of one lane in `start_h2_stream`.
-- - Lane: `classify_upstream_lane_key` and its helpers, `request_is_stream_open`,
--   `summarize_transport_payload`.
-- - Serve: all streams of the H2 server, with the gate, the map of lanes and the accept sequence that
--   they share.
-- - Stream: `start_h2_stream`, `finish_server_h2_stream`, `send_h2_error_response`.
-- - Upstream: the way of a request to the daemon. Session: `run_http_client_on_stream`,
--   `handle_http_connection`. Relay: `handle_h3wt_bi_stream`, and the loop of `run_h3wt_client`.
-- - H2Client: `start_h2_request`, `finish_h2_request`, and the loop of `run_h2_client_on_stream`.
-- - SessionClient: the select loop of `run_h2_session_client_on_stream`, on events. SessionRun: the same
--   loop with its calls. H3Client: the loop of `run_h3wt_session_client`. Shared: the standard output
--   that their tasks share, `copy_h2_body_to_shared_stdout`, where every write may fail.
-- - Tls: `connect_tls_client`, `run_http_client`, `build_h3wt_client_config`, `H3wtOverrideResolver`.
-- - Identity: `load_or_create_identity`, `identity_paths`, `write_ready_file`. Start: the servers up to
--   the loops in which they accept connections. Clients: the client commands up to their loops.
-- - Process: `main`, `real_main`, `install_parent_death_signal`.
-- - Net: `authority`, `extract_lookup_port`, `verify_tls_pin`, `verify_h3wt_pin`, `hex_sha256`,
--   `h2_window_bytes`.
-- - Outcome: the errors, and results. Host: tokio's streams, as a parameter with laws.
-- - Std: what the code uses of Rust's standard library on text (UTF-8, trimming, splitting, decimal
--   numbers). Base: shared types, lists and tests. Examples: concrete instances and runs.
--
-- Bytes and characters are natural numbers, and text is a list of code points. Numbers of a fixed
-- width are natural numbers with their bounds as hypotheses, or with the wrap-around written out as
-- in a build without overflow checks. An asynchronous function that one task runs is a function of
-- the state of the world; tasks that share a gate or a lane are steps of a relation, in any order.
-- A `Notify` is not modelled: a waiting task may make a pass of its loop at any time.
--
-- Fuel: the loops of `read_http_request` and `read_http_response` over lines take fuel, a unit for
-- each line; more of it than the stream is long is enough, and the requests and responses that the
-- bridge itself writes need five and four. The loop of `finish_server_h2_stream` takes a unit for each
-- response and one for the end, and so does `relay`, the copying loop of the WebTransport functions.
-- The loops over the messages of a connection take a unit, called a round, for each message. The loop
-- of `push_chunk` gets the length of its buffer, which every round shortens.
--
-- `select!`: the branches that complete are a list, in any order. A read that is dropped because
-- another branch completed is a function of the world that is a parameter.
--
-- Not modelled: TLS, H2 and WebTransport themselves, and the close of their connections, which are
-- calls of libraries; timeouts, which are part of the operation that they stand around; and logging.
pub mod Args
pub mod Base
pub mod Clients
pub mod Decoder
pub mod Examples
pub mod Gate
pub mod H2Client
pub mod H3Client
pub mod Host
pub mod Http
pub mod Identity
pub mod Lane
pub mod LaneQueue
pub mod Line
pub mod Net
pub mod Outcome
pub mod Process
pub mod Relay
pub mod Serve
pub mod Session
pub mod SessionClient
pub mod SessionRun
pub mod Shared
pub mod Start
pub mod Std
pub mod Stream
pub mod Tls
pub mod Upstream
