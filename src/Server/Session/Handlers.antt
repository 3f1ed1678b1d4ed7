-- ===== src/Server/Session/Handlers.antt =====
-- The two session handlers of crates/ongrok-relay-server/src/server.rs, from the handshake on. They
-- differ in the transport that they record, and in what an error in the loop does.
use ongrok_relay.Prelude.{
  ℕ, false, List, Option, none, some, Text, text, ◌==◌, if◌then◌else◌, ok, err, Fallible, M, ◌>>=◌,
  ◌>>◌, pure, fail, lift, attempt,
}
use ongrok_relay.Libongrok.Types.{Frame, TokenKind, TransportKind, protocol_version}
use ongrok_relay.Server.State.{Platform, ClientSession, new_id}
use ongrok_relay.Server.Revocation.{authenticate_token}
use ongrok_relay.Server.Session.{
  Peer, Client, next_read, later_reads, on_world, write, serve, leave,
}

-- The address of the client, and a number for its connection.
pub record Remote : Type 0 where
  pub ip : Text
  pub port : ℕ
  pub connection : ℕ

abbrev pub client : TransportKind → ClientSession → Remote → ℕ → ℕ → TokenKind → Client
client transport connection remote node_id session_id kind = record {
  node_id = node_id;
  session_id = session_id;
  token_kind = kind;
  connection = connection;
  public_ip = remote.ip;
  source_port = remote.port;
  transport = transport;
}

module _ {P : Platform} where
  unfoldable pub greet : Fallible Frame → M (Peer P) (Unit {0})
  greet (err e) = fail e
  greet (ok (Frame.hello version)) =
      if version == protocol_version
      then write (Frame.hello protocol_version)
      else (write (Frame.error (text "unsupported protocol version"))
          >> fail (text "unsupported protocol version"))
  greet (ok _) = fail (text "expected Hello as first control frame")

  abbrev accept : ℕ → Option TokenKind → M (Peer P) (TokenKind × ℕ)
  accept node_id none = do write Frame.auth_rejected; fail (text "client authentication rejected")
  accept node_id (some kind) = pure (kind, node_id)

  unfoldable pub login : Fallible Frame → M (Peer P) (TokenKind × ℕ)
  login (err e) p = (err e, p)
  login (ok (Frame.auth token node_id)) p = accept node_id (authenticate_token token p.world) p
  login (ok _) p = (err (text "expected Auth after Hello"), p)

  -- The handshake: the kind of the token, the node, and the identifier of the session.
  unfoldable pub open_session : List (Fallible Frame) → M (Peer P) (TokenKind × ℕ × ℕ)
  unfolding greet login
  open_session reads = do
    greet (next_read reads)
    (kind, node_id) ← login (next_read (later_reads reads))
    write (Frame.auth_accepted kind)
    session_id ← on_world new_id
    pure (kind, node_id, session_id)

  -- An error in the loop is kept until the session has been taken down.
  unfoldable pub run_yamux : Client → List (Fallible Frame) → M (Peer P) (Unit {0})
  run_yamux c reads = do result ← attempt (serve c false reads); on_world (leave c); lift result

  -- An error in the loop leaves the function by `?`.
  unfoldable pub run_quic : Client → List (Fallible Frame) → M (Peer P) (Unit {0})
  run_quic c reads = do serve c false reads; on_world (leave c)

  unfoldable pub handle_yamux_session : Remote → List (Fallible Frame) → M (Peer P) (Unit {0})
  unfolding open_session run_yamux
  handle_yamux_session remote reads = do
    (kind, node_id, session_id) ← open_session reads
    run_yamux
        (client TransportKind.tcp_tls_yamux (ClientSession.yamux remote.connection) remote node_id
          session_id kind)
        (later_reads (later_reads reads))

  unfoldable pub handle_quic_connection : Remote → List (Fallible Frame) → M (Peer P) (Unit {0})
  unfolding open_session run_quic
  handle_quic_connection remote reads = do
    (kind, node_id, session_id) ← open_session reads
    run_quic
        (client TransportKind.quic (ClientSession.quic remote.connection) remote node_id session_id
          kind)
        (later_reads (later_reads reads))
