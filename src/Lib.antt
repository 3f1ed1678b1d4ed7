-- ===== src/Lib.antt =====
-- ongrok-relay publishes services of machines behind a NAT: a client keeps one control connection to
-- the relay, over QUIC or over TCP, TLS and yamux, and registers services on it; the relay gives each
-- a TCP port or a host name, and an HTTP API shows and changes what is registered.
--
-- The parts, and where they are modelled:
-- - crates/libongrok/src/lib.rs: `Libongrok.Types` has the records, enums and frames,
--   `Libongrok.Validation` the limits on metadata and names, `Libongrok.Frames` the codec of the
--   control stream (`encode_frame`, `decode_frames`, `decode_frame_payload`), `Libongrok.Tokens` the
--   tokens (`generate_token`, `hash_token`, `hex_encode`), `Libongrok.Yamux` the task, the channels and
--   the handle of `YamuxSession`, as a relation of steps.
-- - crates/ongrok-relay-server/src/state.rs: `Server.State`. `AppState` is the record of the maps in
--   memory; a `World` adds the clock, the identifiers drawn and the connections closed.
-- - crates/ongrok-relay-server/src/store.rs: `Server.Store` and `Server.Store.History`, the tables of
--   redb and the operations on them; `Server.Store.History.store` is the interface `StoreOps` that the
--   server's operations take.
-- - crates/ongrok-relay-server/src/relay.rs: `Server.Relay` (`first_available_tcp_port`,
--   `ensure_tcp_ingress`).
-- - crates/ongrok-relay-server/src/server.rs: `Server.Registry` (`register_service`,
--   `unregister_service`), `Server.Revocation` (`replace_token`, `authenticate`,
--   `authenticate_token`), `Server.Session` and `Server.Session.Handlers` (`handle_yamux_session`,
--   `handle_quic_connection`, `record_heartbeat`), `Server.Api` and its children (`api_handler`, with
--   crates/ongrok-relay-server/src/api_models.rs). `Server.System` is a relation of steps, in which
--   sessions, requests and the clock interleave; each of these steps runs to its end
--   before the next one begins. `Server.Interleaving` cuts the operations on services into the
--   sections between their locks, which tasks run in any order, and `Server.Joins` does so with a node that joins;
--   `Server.Identities` has lemmas on the keys of nodes.
-- - the store beside the memory: `Server.Mirror`, in which an operation's calls of the store run on the
--   tables, and a restart loads the tables again (`Durable` is its interface).
-- - crates/ongrok-relay-server/src/wire.rs: `Server.Wire` (`read_control_frame`,
--   `write_control_frame`), of which the client has a copy.
-- - crates/ongrok-relay-server/src/config.rs: `Server.Config` (`validate_run_options`,
--   `load_config_environment`); `validate_tls_material` stands in `Server.Start`.
-- - crates/ongrok-relay-server/src/ingress.rs: `Server.Ingress` (`http_ingress_handler`,
--   `forward_http_request`, `strip_hop_by_hop_headers`), over `open_client_stream` in
--   `Server.Forwarding`, with `forward_tcp_connection` of relay.rs.
-- - the start of the server in server.rs: `Server.Start` (`prepare` for the command run, `restore` for
--   the beginning of `run`); `Server.Listeners` has the loops that accept connections (`run_quic`,
--   `run_tcp_tls` of server.rs, `run_http_ingress`, `run_https_ingress` of ingress.rs, the loop of
--   `ensure_tcp_ingress`), `Server.Serving` the tasks of `run`, `run_api` and the shutdown, both over
--   the spawned tasks of `Tasks`; crates/ongrok-relay-server/src/transport.rs: `Server.Transport`.
-- - crates/ongrok-relay-client/src/main.rs: `Client.Identity` (`load_or_create_state`),
--   `Client.Session` (what `run_quic` and `run_yamux` do on an open stream), `Client.Dial` (how they
--   reach one, `load_roots`, the probes), `Client.Retry` (`run_once_with_fallback`,
--   `run_with_fallback`), `Client.Streams` (`handle_data_stream` and the loops
--   that accept streams), `Client.Commands` (`main`,
--   `doctor`, `services_list`). `Relaying` runs the client and the server together.
-- `BTree` is the map of the standard library, `Prelude` the shared names and lemmas.
--
-- Conventions. An operation that changes state and may fail is a function from a state to a result
-- and a state: an error keeps what was changed before it, as `?` does. A UUID is its number, a text or
-- a key is its bytes, an `i64` is an integer whose subtraction saturates. A session reads a list of
-- results, one for each `read_control_frame`, and fails past its end; its writes fail when a budget
-- runs out, so that a theorem for every budget is about a failure at any write. The loop of
-- `decode_frames` has the length of its buffer and one as fuel: each round but the last takes a byte at
-- least, so that the fuel does not run out, and the theorems on it are stated without fuel.
--
-- The client's reads carry the milliseconds that they take, so that its timeouts and pauses are
-- sums; an attempt that is dropped keeps the frames that it wrote before. `run_with_fallback` goes over
-- a list of what its attempts meet, and is still at it when the list ends.
--
-- Parameters: the store (`StoreOps`), for the store which actions of redb succeed and how postcard
-- writes a record (`Redb`), blake3, the binding of ports and the drawing of identifiers
-- (`Platform`), postcard at frames (`Postcard`), JSON, the text of UUIDs and random bytes (`Formats`),
-- the header map of the crate http (`HeaderMaps`), what TLS, QUIC and TCP answer (`TlsFiles`,
-- `QuicRoute`, `TcpRoute`, `Tunnels`, `Incoming`), serde_json at a client's state (`Json`), the file
-- system (`Disk`), sysinfo and ed25519_dalek (`Host`), the HTTP client (`Web`).
--
-- Not modelled: what other tasks do between the locks of an operation, but for the operations of
-- `Server.Interleaving` and `Server.Joins`: elsewhere a frame, a request or the end of a session is
-- one step. The adapters `QuicIo` and `YamuxIo`, which pass polls on; the copying of bytes and the
-- bytes of HTTP, which are calls of other crates; a caller of `open_stream` that gives up waiting;
-- whether a poll of the crate yamux comes to an end, since the steps of `Libongrok.Yamux` are what
-- may happen; the time of the server, but for the wait of `run_api` after the shutdown signal;
-- logging.
pub mod Prelude
pub mod BTree
pub mod Tasks
pub mod Client
pub mod Libongrok
pub mod Relaying
pub mod Server
