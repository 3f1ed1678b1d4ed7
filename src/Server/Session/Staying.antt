-- ===== src/Server/Session/Staying.antt =====
-- What an error in the loop of `handle_quic_connection` of crates/ongrok-relay-server/src/server.rs
-- leaves in the server.
use ongrok_relay.Prelude.{
  ◌≡◌, ◌≢◌, refl, sym, subst, Bool, false, true, not, ◌&&◌, List, [], ◌∷◌, Option, none, some, Text,
  ok, err, is_ok, Fallible, M, arith, ap, ◌∙◌, ◌⊎◌, inl, inr, Bool-cases, All, after, if◌then◌else◌,
  ==_refl,
}
use mathlib.Core.Option
use ongrok_relay.BTree.{lookup, insert}
use ongrok_relay.BTree.Lookup.{lookup-insert_self, lookup-update}
use ongrok_relay.Libongrok.Types.{Frame, NodeRecord, NodeMetadata, NodeStatus, HeartbeatSnapshot}
use ongrok_relay.Libongrok.Validation.{validate}
use ongrok_relay.Server.State.{
  Platform, World, ActiveSession, activate_session, record_event, validate_node_identity,
  is_impostor, now_unix_ms,
}
use ongrok_relay.Server.Registry.Untouched.{
  Untouched, register_service-Untouched, unregister_service-Untouched,
}
use ongrok_relay.Server.Session.{
  Peer, Client, is_current, serve, handle_frame, join, node_record, heard, rtt, record_heartbeat,
}
use ongrok_relay.Server.Session.Handlers.{run_quic}
use ongrok_relay.Server.Session.Ending.{is_active}
use ongrok_relay.Server.Session.Nodes.{record_heartbeat-nodes}
use ongrok_relay.Server.Session.Order.{record_heartbeat-sessions}
use ongrok_relay.Server.Session.Preservation.{handle_frame-preserves}

abbrev session_of : Client → ActiveSession
session_of c = record { id = c.session_id; token_kind = c.token_kind; connection = c.connection }

-- Reads of a control stream among which there is no goodbye.
abbrev pub NoGoodbye : List (Fallible Frame) → Type 0
NoGoodbye = All (λ r. r ≢ ok Frame.goodbye)

module _ {P : Platform} where
  -- The server holds the session of a client as that of its node, which is online.
  pub record Stays (c : Client) (w : World P) : Type 0 where
    pub active : is_active c w ≡ true
    pub node : NodeRecord
    pub known : lookup c.node_id w.app.nodes ≡ some node
    pub online : node.status ≡ NodeStatus.online

  Untouched-Stays : (c : Client) (v w : World P) → Untouched v.app w.app → Stays c v → Stays c w
  Untouched-Stays c v w same s = record {
    active = ap (λ m. is_current c.session_id (lookup c.node_id m)) same.sessions ∙ s.active;
    node = s.node;
    known = ap (λ m. lookup c.node_id m) same.nodes ∙ s.known;
    online = s.online;
  }

  -- Its session and its record, where the identity is accepted.
  join-cases :
      (c : Client) (metadata : NodeMetadata) (key : Text) (w : World P)
      → Untouched w.app (join c metadata key w).1.app
        ⊎ ((join c metadata key w).1.app.sessions ≡ insert c.node_id (session_of c) w.app.sessions)
          × ((join c metadata key w).1.app.nodes
              ≡ insert c.node_id (node_record c metadata key w) w.app.nodes)
  unfolding join validate_node_identity activate_session record_event node_record
  join-cases c metadata key w =
      let accepted =
        is_ok (validate metadata.metadata)
        && not (is_impostor (lookup c.node_id w.app.nodes) key) in
      elim (Bool-cases accepted) [
        | inl accepts ↦ inr (ground arith, ground arith)
        | inr refuses ↦ inl (record { sessions = ground arith; nodes = ground arith })
      ]

  entered-Stays :
      (c : Client) (metadata : NodeMetadata) (key : Text) (v w : World P)
      → w.app.sessions ≡ insert c.node_id (session_of c) v.app.sessions
      → w.app.nodes ≡ insert c.node_id (node_record c metadata key v) v.app.nodes
      → Stays c w
  unfolding node_record
  entered-Stays c metadata key v w sessions nodes = record {
    active =
        ap (λ m. is_current c.session_id (lookup c.node_id m)) sessions
        ∙ ap (is_current c.session_id) (lookup-insert_self c.node_id (session_of c) v.app.sessions)
        ∙ ==_refl c.session_id;
    node = node_record c metadata key v;
    known =
        ap (λ m. lookup c.node_id m) nodes
        ∙ lookup-insert_self c.node_id (node_record c metadata key v) v.app.nodes;
    online = refl;
  }

  join-Stays :
      (c : Client) (metadata : NodeMetadata) (key : Text) (w : World P)
      → Stays c w
      → Stays c (join c metadata key w).1
  join-Stays c metadata key w s = elim (join-cases c metadata key w) [
    | inl same ↦ Untouched-Stays c w _ same s
    | inr (sessions, nodes) ↦ entered-Stays c metadata key w _ sessions nodes
  ]

  joined-Stays :
      (c : Client) (metadata : NodeMetadata) (key : Text) (w : World P)
      → (join c metadata key w).0 ≡ ok tt
      → Stays c (join c metadata key w).1
  unfolding join validate_node_identity activate_session record_event node_record
  joined-Stays c metadata key w joined =
      entered-Stays c metadata key w _ (ground arith) (ground arith)

  record_heartbeat-Stays :
      (c : Client) (snapshot : HeartbeatSnapshot) (w : World P)
      → Stays c w
      → Stays c (record_heartbeat c.node_id snapshot w).1
  record_heartbeat-Stays c snapshot w s =
      let mark = heard (now_unix_ms w) (rtt (now_unix_ms w) snapshot.sent_at_unix_ms) in
      record {
        active =
            ap (λ m. is_current c.session_id (lookup c.node_id m))
              (record_heartbeat-sessions w c.node_id snapshot)
            ∙ s.active;
        node = mark s.node;
        known =
            ap (λ m. lookup c.node_id m) (record_heartbeat-nodes c.node_id snapshot w)
            ∙ lookup-update c.node_id c.node_id mark w.app.nodes
            ∙ ap
                (λ b.
                  if b
                  then Option.map mark (lookup c.node_id w.app.nodes)
                  else lookup c.node_id w.app.nodes)
                (==_refl c.node_id)
            ∙ ap (Option.map mark) s.known;
        online = refl;
      }

  handle_frame-Stays :
      (c : Client) (registered : Bool) (frame : Frame) (p : Peer P)
      → Stays c p.world
      → Stays c (handle_frame c registered frame p).1.world
  handle_frame-Stays c =
      handle_frame-preserves (Stays c) c (join-Stays c)
        (λ service node_id w. Untouched-Stays c w _ (register_service-Untouched w service node_id))
        (λ service_id node_id w.
          Untouched-Stays c w _ (unregister_service-Untouched w service_id node_id))
        (record_heartbeat-Stays c)

  -- The loop does not come to an end but by an error, in which the session is still there.
  record Broken (c : Client) (r : Fallible (Unit {0}) × Peer P) : Type 0 where
    pub failed : is_ok r.0 ≡ false
    pub stays : Stays c r.1.world

  then-Broken :
      (c : Client) (r : Fallible (Option Bool) × Peer P) (f : Option Bool → M (Peer P) (Unit {0}))
      → r.0 ≢ ok none
      → Stays c r.1.world
      → ((registered : Bool) (q : Peer P) → Stays c q.world → Broken c (f (some registered) q))
      → Broken c (after r f)
  then-Broken c (ok none, p) f more s rest = absurd (more refl)
  then-Broken c (ok (some registered), p) f more s rest = rest registered p s
  then-Broken c (err e, p) f more s rest = record { failed = refl; stays = s }

  handle_frame-goes_on :
      (c : Client) (registered : Bool) (frame : Frame) (p : Peer P)
      → frame ≢ Frame.goodbye
      → (handle_frame c registered frame p).0 ≢ ok none
  unfolding handle_frame
  handle_frame-goes_on c registered frame p other h = ground arith

  serve-Broken :
      (c : Client) (reads : List (Fallible Frame)) (registered : Bool) (p : Peer P)
      → NoGoodbye reads
      → Stays c p.world
      → Broken c (serve c registered reads p)
  unfolding serve
  serve-Broken c [] registered p quiet s = record { failed = refl; stays = s }
  serve-Broken c (err e ∷ rest) registered p quiet s = record { failed = refl; stays = s }
  serve-Broken c (ok frame ∷ rest) registered p quiet s =
      then-Broken c (handle_frame c registered frame p) _
        (handle_frame-goes_on c registered frame p (λ e. quiet.0 (ap (λ f. ok f) e)))
        (handle_frame-Stays c registered frame p s)
        (λ registered' q t. serve-Broken c rest registered' q quiet.1 t)

  after-failed :
      {A B : Type 0} (r : Fallible A × Peer P) (f : A → M (Peer P) B)
      → is_ok r.0 ≡ false
      → (after r f).1 ≡ r.1
  after-failed (ok a, p) f h = cc
  after-failed (err e, p) f h = refl

  run_quic-Broken :
      (c : Client) (reads : List (Fallible Frame)) (p : Peer P)
      → Broken c (serve c false reads p)
      → Stays c (run_quic c reads p).1.world
  unfolding run_quic
  run_quic-Broken c reads p b =
      subst (λ (q : Peer P). Stays c q.world)
        (sym (after-failed (serve c false reads p) _ b.failed)) b.stays

  -- Over QUIC: where a node has joined, and whatever it sends afterwards but a goodbye, and whatever
  -- fails then, the server goes on to hold the session after the connection, and the node is online.
  pub run_quic-Stays :
      (c : Client) (metadata : NodeMetadata) (key : Text) (later : List (Fallible Frame))
      (p : Peer P)
      → (join c metadata key p.world).0 ≡ ok tt
      → NoGoodbye later
      → Stays c (run_quic c (ok (Frame.register_node metadata key) ∷ later) p).1.world
  unfolding serve handle_frame
  run_quic-Stays c metadata key later p joined quiet =
      run_quic-Broken c (ok (Frame.register_node metadata key) ∷ later) p
        (rw joined (serve-Broken c later true _ quiet (joined-Stays c metadata key p.world joined)))
