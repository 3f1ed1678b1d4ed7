-- ===== src/Server/Session/Success.antt =====
-- The session handlers of crates/ongrok-relay-server/src/server.rs on the frames of a client that keeps
-- to the protocol.
use ongrok_relay.Prelude.{
  ℕ, suc, ◌≡◌, refl, true, false, List, [], ◌∷◌, some, Text, ok, Fallible, is_ok, arith,
  Option-cases, Result-cases, inl, inr,
}
use ongrok_relay.Prelude.Int.{pos}
use ongrok_relay.BTree.{lookup, update}
use ongrok_relay.Libongrok.Types.{
  Frame, TokenKind, NodeRecord, NodeMetadata, NodeMetric, HeartbeatSnapshot, protocol_version,
  ServiceDefinition,
}
use ongrok_relay.Libongrok.Validation.{validate}
use ongrok_relay.Server.State.{
  Platform, World, is_impostor, validate_node_identity, activate_session, record_event,
}
use ongrok_relay.Server.Registry.{register_service}
use ongrok_relay.Server.Revocation.{authenticate_token, offline}
use ongrok_relay.Server.Session.{
  Peer, Client, write, serve, join, record_heartbeat, leave, drop_session, node_record, heard, rtt,
}
use ongrok_relay.Server.Session.Handlers.{open_session, run_yamux}

-- The store takes what sessions write.
pub record Takes (P : Platform) : Type 0 where
  pub put_node : (db : P.store.Db) (n : NodeRecord) → is_ok (P.store.put_node db n) ≡ true
  pub put_metric : (db : P.store.Db) (m : NodeMetric) → is_ok (P.store.put_metric db m) ≡ true

module _ {P : Platform} (takes : Takes P) where
  pub join-ok :
      (c : Client) (meta : NodeMetadata) (key : Text) (w : World P)
      → validate meta.metadata ≡ ok tt
      → is_impostor (lookup c.node_id w.app.nodes) key ≡ false
      → (join c meta key w).0 ≡ ok tt
  unfolding join validate_node_identity activate_session
  join-ok c meta key w plain known =
      ground (arith, takes.put_node w.app.store (node_record c meta key w))

  pub record_heartbeat-ok :
      (node_id : ℕ) (s : HeartbeatSnapshot) (w : World P) → (record_heartbeat node_id s w).0 ≡ ok tt
  unfolding record_heartbeat
  record_heartbeat-ok node_id s w =
      let rtt_ms = rtt (pos w.now) s.sent_at_unix_ms in
      let metric : NodeMetric = record {
        node_id = node_id;
        recorded_at_unix_ms = pos w.now;
        rtt_ms = some rtt_ms;
        snapshot = s;
      } in
      elim (Option-cases (lookup node_id (update node_id (heard (pos w.now) rtt_ms) w.app.nodes))) [
        | inl gone ↦ ground arith
        | inr (n, found) ↦ elim (Result-cases (P.store.put_node w.app.store n)) [
          | inl (db, stored) ↦ ground (arith, takes.put_metric db metric)
          | inr (e, refused) ↦ absurd (ground (arith, takes.put_node w.app.store n))
        ]
      ]

  leave-ok : (c : Client) (w : World P) → (leave c w).0 ≡ ok tt
  unfolding leave drop_session
  leave-ok c w = elim (Option-cases (lookup c.node_id (update c.node_id offline w.app.nodes))) [
    | inl gone ↦ ground arith
    | inr (n, found) ↦ ground (arith, takes.put_node w.app.store n)
  ]

  join-now :
      (c : Client) (meta : NodeMetadata) (key : Text) (w : World P)
      → (join c meta key w).1.now ≡ w.now
  unfolding join validate_node_identity activate_session record_event
  join-now c meta key w = ground arith

  record_heartbeat-now :
      (node_id : ℕ) (s : HeartbeatSnapshot) (w : World P)
      → (record_heartbeat node_id s w).1.now ≡ w.now
  unfolding record_heartbeat
  record_heartbeat-now node_id s w = ground arith

  pub open_session-ok :
      (token : Text) (node_id n : ℕ) (kind : TokenKind) (sent : List Frame)
      (rest : List (Fallible Frame)) (w : World P)
      → authenticate_token token w ≡ some kind
      → open_session
          (ok (Frame.hello protocol_version) ∷ ok (Frame.auth token node_id) ∷ rest)
          (record { world = w; sent = sent; budget = suc (suc n) })
        ≡ (
          ok (kind, node_id, P.uuid w.drawn),
          record {
            world = record w { drawn = suc w.drawn };
            sent = Frame.auth_accepted kind ∷ Frame.hello protocol_version ∷ sent;
            budget = n;
          },
        )
  unfolding open_session write
  open_session-ok token node_id n kind sent rest w known = ground arith

  -- The loop of the server, on the frames of a client that publishes a service.
  pub serve-publish-ok :
      (c : Client) (meta : NodeMetadata) (key : Text) (service accepted : ServiceDefinition)
      (s : HeartbeatSnapshot) (n : ℕ) (sent : List Frame) (w w' : World P)
      → validate meta.metadata ≡ ok tt
      → is_impostor (lookup c.node_id w.app.nodes) key ≡ false
      → service.node_id ≡ c.node_id
      → register_service service c.node_id (join c meta key w).1 ≡ (ok accepted, w')
      → ((r : Fallible (Unit {0}) × Peer P) × (serve c false
              (ok (Frame.register_node meta key)
                ∷ ok (Frame.register_service service)
                ∷ ok (Frame.heartbeat s)
                ∷ ok Frame.goodbye
                ∷ [])
              (record { world = w; sent = sent; budget = suc (suc n) })
            ≡ r)
          × (r.0 ≡ ok tt)
          × (r.1.sent
              ≡ Frame.heartbeat_ack s.sequence (pos w'.now)
                ∷ Frame.register_service_accepted accepted
                ∷ sent))
  unfolding serve write
  serve-publish-ok c meta key service accepted s n sent w w' plain known own stored =
      let joined = join-ok c meta key w plain known in
      let beat = record_heartbeat-ok c.node_id s w' in
      (
        _,
        refl,
        ground (arith, joined, beat),
        ground (arith, joined, beat, record_heartbeat-now c.node_id s w'),
      )

  pub run_yamux-ok :
      (c : Client) (reads : List (Fallible Frame)) (p : Peer P)
      → (serve c false reads p).0 ≡ ok tt
      → ((run_yamux c reads p).0 ≡ ok tt)
        × ((run_yamux c reads p).1.sent ≡ (serve c false reads p).1.sent)
  unfolding run_yamux
  run_yamux-ok c reads p served = ground (arith, leave-ok c (serve c false reads p).1.world)
