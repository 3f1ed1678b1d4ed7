-- ===== src/Server/Session.antt =====
-- `handle_yamux_session` and `handle_quic_connection` of crates/ongrok-relay-server/src/server.rs.
-- The control stream is the list of what each `read_control_frame` gives; past its end the stream is
-- gone. `budget` is how many more frames the peer takes before a write fails.
pub mod Ending
pub mod Handlers
pub mod Validity
pub mod Nodes
pub mod Order
pub mod Preservation
pub mod Staying
pub mod Success
use ongrok_relay.Prelude.{
  ℕ, zero, suc, Bool, true, false, ◌||◌, not, List, [], ◌∷◌, Option, none, some, Text, text, ◌==◌,
  if◌then◌else◌, is_some, Result, ok, err, Error, Fallible, map_err, M, ◌>>=◌, ◌>>◌, pure, fail,
  lift, get, modify, attempt,
}
use ongrok_relay.Prelude.Int.{ℤ, saturating_sub, clamp_up_to}
use ongrok_relay.BTree.{lookup, insert, remove, update}
use ongrok_relay.Libongrok.Types.{
  Frame, TokenKind, TransportKind, NodeRecord, NodeMetadata, NodeStatus, EventKind,
  HeartbeatSnapshot, ServiceDefinition, protocol_version,
}
use ongrok_relay.Libongrok.Validation.{validate, validation_message}
use ongrok_relay.Server.State.{
  Platform, AppState, World, ClientSession, ActiveSession, with_app, persist, new_id, now_unix_ms,
  activate_session, validate_node_identity, record_event,
}
use ongrok_relay.Server.Registry.{register_service, unregister_service}
use ongrok_relay.Server.Revocation.{authenticate_token, offline}

-- The server, and the frames that it has written on the control stream, the last one first.
pub record Peer (P : Platform) : Type 0 where
  pub world : World P
  pub sent : List Frame
  pub budget : ℕ

-- What the loop of a session knows of its client.
pub record Client : Type 0 where
  pub node_id : ℕ
  pub session_id : ℕ
  pub token_kind : TokenKind
  pub connection : ClientSession
  pub public_ip : Text
  pub source_port : ℕ
  pub transport : TransportKind

abbrev pub max_rtt_ms : ℕ
max_rtt_ms = 3600000

unfoldable pub rtt : ℤ → ℤ → ℕ
rtt recorded_at sent_at = clamp_up_to max_rtt_ms (saturating_sub recorded_at sent_at)

abbrev pub next_read : List (Fallible Frame) → Fallible Frame
next_read [] = err (text "failed to read control frame length")
next_read (r ∷ _) = r

abbrev pub later_reads : List (Fallible Frame) → List (Fallible Frame)
later_reads [] = []
later_reads (_ ∷ rest) = rest

abbrev pub is_current : ℕ → Option ActiveSession → Bool
is_current session_id none = false
is_current session_id (some session) = session.id == session_id

abbrev pub heard : ℤ → ℕ → NodeRecord → NodeRecord
heard recorded_at rtt_ms node = record node {
  status = NodeStatus.online;
  last_heartbeat_at_unix_ms = some recorded_at;
  rtt_ms = some rtt_ms;
}

module _ {P : Platform} where
  abbrev pub on_world : {A : Type 0} → M (World P) A → M (Peer P) A
  on_world m p = ((m p.world).0, record p { world = (m p.world).1 })

  abbrev write_within : ℕ → Frame → M (Peer P) (Unit {0})
  write_within zero frame p = (err (text "failed to write control frame"), p)
  write_within (suc n) frame p = (ok tt, record p { sent = frame ∷ p.sent; budget = n })

  -- `write_control_frame`.
  unfoldable pub write : Frame → M (Peer P) (Unit {0})
  write frame p = write_within p.budget frame p

  abbrev pub store_heartbeat :
      ℕ → ℤ → ℕ → HeartbeatSnapshot → Option NodeRecord → M (World P) (Unit {0})
  store_heartbeat node_id recorded_at rtt_ms snapshot none = pure tt
  store_heartbeat node_id recorded_at rtt_ms snapshot (some node) = do
    persist (λ db. P.store.put_node db node)
    persist (λ db. P.store.put_metric db (record {
      node_id = node_id;
      recorded_at_unix_ms = recorded_at;
      rtt_ms = some rtt_ms;
      snapshot = snapshot;
    }))

  unfoldable pub record_heartbeat : ℕ → HeartbeatSnapshot → M (World P) (Unit {0})
  record_heartbeat node_id snapshot = do
    w ← get
    let rtt_ms = rtt (now_unix_ms w) snapshot.sent_at_unix_ms
    let nodes = update node_id (heard (now_unix_ms w) rtt_ms) w.app.nodes
    with_app (λ s. record s { nodes = nodes })
    store_heartbeat node_id (now_unix_ms w) rtt_ms snapshot (lookup node_id nodes)

  unfoldable pub node_record : Client → NodeMetadata → Text → World P → NodeRecord
  node_record c metadata public_key w = record {
    node_id = c.node_id;
    public_key = some public_key;
    metadata = metadata;
    public_ip = c.public_ip;
    source_port = c.source_port;
    transport = c.transport;
    status = NodeStatus.online;
    connected_at_unix_ms = now_unix_ms w;
    last_heartbeat_at_unix_ms = none;
    rtt_ms = none;
  }

  -- One step here; `Server.Joins` cuts it at its locks.
  unfoldable pub join : Client → NodeMetadata → Text → M (World P) (Unit {0})
  unfolding node_record
  join c metadata public_key = do
    lift (map_err validation_message (validate metadata.metadata))
    validate_node_identity c.node_id public_key
    activate_session c.node_id c.session_id c.token_kind c.connection
    w ← get
    with_app
        (λ s. record s { nodes = insert c.node_id (node_record c metadata public_key w) s.nodes })
    persist (λ db. P.store.put_node db (node_record c metadata public_key w))
    modify (record_event EventKind.node_online (some c.node_id) none none)

  -- A node publishes for itself, once it has joined.
  unfoldable pub try_register : Client → Bool → ServiceDefinition → M (Peer P) ServiceDefinition
  try_register c registered service =
      if not registered || not (service.node_id == c.node_id)
      then fail (text "node must be registered before publishing services")
      else on_world (register_service service c.node_id)

  unfoldable pub reply : Fallible ServiceDefinition → M (Peer P) (Unit {0})
  reply (ok accepted) = write (Frame.register_service_accepted accepted)
  reply (err e) = write (Frame.error e)

  unfoldable pub publish : Client → Bool → ServiceDefinition → M (Peer P) (Unit {0})
  unfolding try_register reply
  publish c registered service = do
    response ← attempt (try_register c registered service)
    reply response

  -- One round of the loop: whether the node has joined by now, or `none` after a goodbye.
  unfoldable pub handle_frame : Client → Bool → Frame → M (Peer P) (Option Bool)
  unfolding join publish
  handle_frame c registered (Frame.register_node metadata public_key) = do
    on_world (join c metadata public_key)
    pure (some true)
  handle_frame c registered (Frame.register_service service) = do
    publish c registered service
    pure (some registered)
  handle_frame c registered (Frame.unregister_service service_id) = do
    on_world (unregister_service service_id c.node_id)
    pure (some registered)
  handle_frame c registered (Frame.heartbeat snapshot) = do
    on_world (record_heartbeat c.node_id snapshot)
    p ← get
    write (Frame.heartbeat_ack snapshot.sequence (now_unix_ms p.world))
    pure (some registered)
  handle_frame c registered Frame.goodbye = pure none
  handle_frame c registered _ = do
    write (Frame.error (text "unsupported control frame"))
    pure (some registered)

  unfoldable pub serve : Client → Bool → List (Fallible Frame) → M (Peer P) (Unit {0})
  unfolding handle_frame
  serve c registered [] = fail (text "failed to read control frame length")
  serve c registered (err e ∷ rest) = fail e
  serve c registered (ok frame ∷ rest) = handle_frame c registered frame >>= λ joined. elim joined [
    | none ↦ pure tt
    | some registered' ↦ serve c registered' rest
  ]

  abbrev pub report_left : ℕ → Option NodeRecord → M (World P) (Unit {0})
  report_left node_id none = pure tt
  report_left node_id (some node) = do
    persist (λ db. P.store.put_node db node)
    modify (record_event EventKind.node_offline (some node_id) none none)

  unfoldable pub drop_session : ℕ → M (World P) (Unit {0})
  drop_session node_id = do
    w ← get
    let nodes = update node_id offline w.app.nodes
    with_app (λ s. record s { sessions = remove node_id s.sessions; nodes = nodes })
    report_left node_id (lookup node_id nodes)

  -- The end of a session, which looks first whether it is still the one of its node.
  unfoldable pub leave : Client → M (World P) (Unit {0})
  unfolding drop_session
  leave c = do
    w ← get
    if is_current c.session_id (lookup c.node_id w.app.sessions)
        then drop_session c.node_id
        else pure tt
