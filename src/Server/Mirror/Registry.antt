-- ===== src/Server/Mirror/Registry.antt =====
-- `register_service` and `unregister_service` of crates/ongrok-relay-server/src/server.rs, and the
-- stored services.
use ongrok_relay.Prelude.{
  ℕ, ◌≡◌, sym, ◌∙◌, ap, Option, none, some, ok, err, Fallible, arith, Result-cases, Bool-cases, inl,
  inr, ◌==◌, if◌then◌else◌,
}
use ongrok_relay.BTree.{lookup, insert, remove}
use ongrok_relay.BTree.Lookup.{lookup-insert, lookup-remove}
use ongrok_relay.Libongrok.Types.{ServiceDefinition, EventKind, TokenKind}
use ongrok_relay.Server.State.{Platform, AppState, World, record_event, persist}
use ongrok_relay.Server.Relay.{ensure_tcp_ingress, listen}
use ongrok_relay.Server.Registry.{
  admit, conclude, activate, commit, register_service, unregister_service, withdraw, is_owned_by,
}
use ongrok_relay.Server.Registry.Cases.{record_event_app}
use ongrok_relay.Server.Mirror.{Durable, Mirrors}
use ongrok_relay.Server.Mirror.Bystanders.{quiet-Mirrors, rows_of-record_event}

module _ {P : Platform} (D : Durable P.store) where
  pub put-Mirrors :
      (s : AppState P) (a : ServiceDefinition)
      → Mirrors D s
      → (db : P.store.Db) × (P.store.put s.store a ≡ ok db)
        × Mirrors D (record s { services = insert a.service_id a s.services; store = db })
  put-Mirrors s a m =
      let (db, done, table, seen) = D.put s.store a m.table in
      (
        db,
        done,
        record {
          table = table;
          same = λ k.
              seen k
              ∙ ap (λ o. if a.service_id == k then some a else o) (m.same k)
              ∙ lookup-insert a.service_id k a s.services;
        },
      )

  pub delete-Mirrors :
      (s : AppState P) (service_id : ℕ)
      → Mirrors D s
      → (db : P.store.Db) × (P.store.delete s.store service_id ≡ ok db)
        × Mirrors D (record s { services = remove service_id s.services; store = db })
  delete-Mirrors s service_id m =
      let (db, done, table, seen) = D.delete s.store service_id m.table in
      (
        db,
        done,
        record {
          table = table;
          same = λ k.
              seen k
              ∙ ap (λ o. if service_id == k then none else o) (m.same k)
              ∙ sym (lookup-remove service_id k s.services);
        },
      )

  pub record_event-Mirrors :
      (kind : EventKind) (n i : Option ℕ) (t : Option TokenKind) (w : World P)
      → Mirrors D w.app
      → Mirrors D (record_event kind n i t w).app
  record_event-Mirrors kind n i t w m =
      quiet-Mirrors D w (record_event kind n i t w) (rows_of-record_event D kind n i t w)
        (ap (λ (s : AppState P). s.services) (record_event_app kind n i t w)) m

  activate-Mirrors :
      (a : ServiceDefinition) (w : World P) → Mirrors D w.app → Mirrors D (activate a w).1.app
  unfolding activate ensure_tcp_ingress listen
  activate-Mirrors a w m = quiet-Mirrors D w (activate a w).1 (ground arith) (ground arith) m

  conclude-Mirrors :
      (a : ServiceDefinition) (node_id : ℕ) (r : Fallible (Unit {0})) (w : World P)
      → Mirrors D w.app
      → Mirrors D (conclude a node_id r w).1.app
  unfolding conclude
  conclude-Mirrors a node_id (ok u) w m =
      record_event-Mirrors EventKind.service_registered (some node_id) (some a.service_id) none w m
  conclude-Mirrors a node_id (err e) w m =
      let (db, done, kept) = delete-Mirrors w.app a.service_id m in
      rw (done, conclude, persist) kept

  commit-Mirrors :
      (a : ServiceDefinition) (node_id : ℕ) (w : World P)
      → Mirrors D w.app
      → Mirrors D (commit a node_id w).1.app
  unfolding commit
  commit-Mirrors a node_id w m =
      let (db, done, kept) = put-Mirrors w.app a m in
      let w' : World P = record w {
        app = record (w.app) { services = insert a.service_id a w.app.services; store = db };
      } in
      rw (done, commit, persist)
        (conclude-Mirrors a node_id (activate a w').0 (activate a w').1
          (activate-Mirrors a w' kept))

  pub register_service-Mirrors :
      (service : ServiceDefinition) (node_id : ℕ) (w : World P)
      → Mirrors D w.app
      → Mirrors D (register_service service node_id w).1.app
  unfolding register_service
  register_service-Mirrors service node_id w m = elim (Result-cases (admit w.app service node_id)) [
    | inr (e, refused) ↦ rw (refused, register_service) m
    | inl (a, admitted) ↦ rw (admitted, register_service) (commit-Mirrors a node_id w m)
  ]

  withdraw-Mirrors :
      (service_id node_id : ℕ) (w : World P)
      → Mirrors D w.app
      → Mirrors D (withdraw service_id node_id w).1.app
  unfolding withdraw
  withdraw-Mirrors service_id node_id w m =
      let (db, done, kept) = delete-Mirrors w.app service_id m in
      let w' : World P = record w {
        app = record (w.app) { services = remove service_id w.app.services; store = db };
      } in
      let reported =
        record_event-Mirrors EventKind.service_deleted (some node_id) (some service_id) none w'
          kept in
      rw (done, withdraw, persist) (record { table = reported.table; same = reported.same })

  pub unregister_service-Mirrors :
      (service_id node_id : ℕ) (w : World P)
      → Mirrors D w.app
      → Mirrors D (unregister_service service_id node_id w).1.app
  unfolding unregister_service
  unregister_service-Mirrors service_id node_id w m =
      elim (Bool-cases (is_owned_by node_id (lookup service_id w.app.services))) [
        | inl owned ↦ rw (owned, unregister_service) (withdraw-Mirrors service_id node_id w m)
        | inr other ↦ rw (other, unregister_service) m
      ]
