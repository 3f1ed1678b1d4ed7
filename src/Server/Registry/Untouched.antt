-- ===== src/Server/Registry/Untouched.antt =====
-- The operations on services of crates/ongrok-relay-server/src/server.rs leave the sessions and the
-- nodes alone.
use ongrok_relay.Prelude.{ℕ, ◌≡◌, Option, ok, err, Fallible, arith, Result-cases, inl, inr}
use ongrok_relay.BTree.{insert}
use ongrok_relay.Libongrok.Types.{ServiceDefinition, EventKind, TokenKind}
use ongrok_relay.Server.State.{Platform, AppState, World, record_event, persist}
use ongrok_relay.Server.Relay.{ensure_tcp_ingress, listen}
use ongrok_relay.Server.Registry.{
  admit, commit, conclude, activate, register_service, unregister_service, withdraw,
}

module _ {P : Platform} where
  pub record Untouched (s t : AppState P) : Type 0 where
    pub sessions : t.sessions ≡ s.sessions
    pub nodes : t.nodes ≡ s.nodes

  pub Untouched-trans : (s t u : AppState P) → Untouched s t → Untouched t u → Untouched s u
  Untouched-trans s t u a b = ground arith

  pub record_event-Untouched :
      (kind : EventKind) (n i : Option ℕ) (t : Option TokenKind) (w : World P)
      → Untouched w.app (record_event kind n i t w).app
  unfolding record_event
  record_event-Untouched kind n i t w = ground arith

  activate-Untouched : (a : ServiceDefinition) (w : World P) → Untouched w.app (activate a w).1.app
  unfolding activate ensure_tcp_ingress listen
  activate-Untouched a w = ground arith

  conclude-Untouched :
      (a : ServiceDefinition) (node_id : ℕ) (r : Fallible (Unit {0})) (w : World P)
      → Untouched w.app (conclude a node_id r w).1.app
  unfolding conclude record_event
  conclude-Untouched a node_id (ok u) w = ground arith
  conclude-Untouched a node_id (err e) w = ground arith

  commit-Untouched :
      (a : ServiceDefinition) (node_id : ℕ) (w : World P)
      → Untouched w.app (commit a node_id w).1.app
  unfolding commit
  commit-Untouched a node_id w = elim (Result-cases (P.store.put w.app.store a)) [
    | inr (e, failed) ↦ rw (failed, commit, persist) (ground arith)
    | inl (db, stored) ↦
        let w' : World P = record w {
          app = record (w.app) { services = insert a.service_id a w.app.services; store = db };
        } in
        let started = activate-Untouched a w' in
        rw (stored, commit, persist)
          (Untouched-trans w.app (activate a w').1.app _
            (record { sessions = started.sessions; nodes = started.nodes })
            (conclude-Untouched a node_id (activate a w').0 (activate a w').1))
  ]

  pub register_service-Untouched :
      (w : World P) (service : ServiceDefinition) (node_id : ℕ)
      → Untouched w.app (register_service service node_id w).1.app
  unfolding register_service
  register_service-Untouched w service node_id = elim (Result-cases (admit w.app service node_id)) [
    | inr (e, refused) ↦ rw (refused, register_service) (ground arith)
    | inl (a, admitted) ↦ rw (admitted, register_service) (commit-Untouched a node_id w)
  ]

  pub unregister_service-Untouched :
      (w : World P) (service_id node_id : ℕ)
      → Untouched w.app (unregister_service service_id node_id w).1.app
  unfolding unregister_service withdraw record_event
  unregister_service-Untouched w service_id node_id = ground arith
