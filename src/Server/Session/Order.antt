-- ===== src/Server/Session/Order.antt =====
-- The map of sessions of crates/ongrok-relay-server/src/server.rs stays in the order of its nodes.
use ongrok_relay.Prelude.{ℕ, ◌≡◌, sym, subst, Bool, Text, arith}
use ongrok_relay.BTree.Order.{IsSorted, insert-IsSorted, remove-IsSorted}
use ongrok_relay.Libongrok.Types.{Frame, NodeMetadata, HeartbeatSnapshot}
use ongrok_relay.Server.State.{
  Platform, World, record_event, activate_session, validate_node_identity,
}
use ongrok_relay.Server.Session.{
  Peer, Client, handle_frame, join, record_heartbeat, drop_session, leave,
}
use ongrok_relay.Server.Registry.Untouched.{
  register_service-Untouched, unregister_service-Untouched,
}
use ongrok_relay.Server.Session.Preservation.{handle_frame-preserves}

module _ {P : Platform} where
  pub record_heartbeat-sessions :
      (w : World P) (node_id : ℕ) (snapshot : HeartbeatSnapshot)
      → (record_heartbeat node_id snapshot w).1.app.sessions ≡ w.app.sessions
  unfolding record_heartbeat
  record_heartbeat-sessions w node_id snapshot = ground arith

  pub leave-IsSorted :
      (c : Client) (w : World P) → IsSorted w.app.sessions → IsSorted (leave c w).1.app.sessions
  unfolding leave record_event drop_session
  leave-IsSorted c w v = ground (arith, remove-IsSorted c.node_id w.app.sessions v)

  join-IsSorted :
      (c : Client) (metadata : NodeMetadata) (key : Text) (w : World P)
      → IsSorted w.app.sessions
      → IsSorted (join c metadata key w).1.app.sessions
  unfolding join validate_node_identity activate_session record_event
  join-IsSorted c metadata key w v = ground (
    arith,
    insert-IsSorted c.node_id
        (record { id = c.session_id; token_kind = c.token_kind; connection = c.connection })
        w.app.sessions v,
  )

  pub handle_frame-IsSorted :
      (c : Client) (registered : Bool) (frame : Frame) (p : Peer P)
      → IsSorted p.world.app.sessions
      → IsSorted (handle_frame c registered frame p).1.world.app.sessions
  handle_frame-IsSorted c =
      handle_frame-preserves (λ (w : World P). IsSorted w.app.sessions) c (join-IsSorted c)
        (λ service node_id w.
          subst (λ m. IsSorted m) (sym (register_service-Untouched w service node_id).sessions))
        (λ service_id node_id w.
          subst (λ m. IsSorted m)
            (sym (unregister_service-Untouched w service_id node_id).sessions))
        (λ snapshot w.
          subst (λ m. IsSorted m) (sym (record_heartbeat-sessions w c.node_id snapshot)))
