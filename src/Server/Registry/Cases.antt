-- ===== src/Server/Registry/Cases.antt =====
-- What `register_service` and `unregister_service` do to the services, on every branch.
use ongrok_relay.Prelude.{
  ℕ, ◌≡◌, refl, ◌⊎◌, inl, inr, true, false, Option, none, some, ok, err, Fallible, is_ok, Error,
  arith, Bool-cases, Result-cases,
}
use ongrok_relay.BTree.{lookup, insert, remove}
use ongrok_relay.Libongrok.Types.{ServiceDefinition, EventKind, TokenKind}
use ongrok_relay.Server.State.{Platform, AppState, World, record_event, persist}
use ongrok_relay.Server.Relay.{ensure_tcp_ingress}
use ongrok_relay.Server.Registry.{
  admit, conclude, activate, commit, register_service, unregister_service, is_owned_by,
}

module _ {P : Platform} where
  -- The configuration, which nothing changes.
  pub record SameConfig (s t : AppState P) : Type 0 where
    pub same_host : t.public_host ≡ s.public_host
    pub same_domain : t.http_domain ≡ s.http_domain
    pub same_start : t.tcp_port_start ≡ s.tcp_port_start
    pub same_end : t.tcp_port_end ≡ s.tcp_port_end

  -- An event changes the store and the identifiers drawn, and nothing else.
  pub record_event_app :
      (kind : EventKind) (n i : Option ℕ) (t : Option TokenKind) (w : World P)
      → (record_event kind n i t w).app
        ≡ record (w.app) { store = (record_event kind n i t w).app.store }
  unfolding record_event
  record_event_app kind n i t w = ground arith

  -- How a commit ends: with the service in the map, or with an error, and then the service may still
  -- be in the map (the store failed) or be taken out (there is no listener).
  abbrev pub Committed :
      AppState P → ServiceDefinition → Fallible ServiceDefinition × World P → Type 0
  Committed s a (r, v) =
      SameConfig s v.app
      × (((r ≡ ok a) × (v.app.services ≡ insert a.service_id a s.services))
          ⊎ ((is_ok r ≡ false) × (v.app.services ≡ insert a.service_id a s.services))
          ⊎ ((is_ok r ≡ false)
              × (v.app.services ≡ remove a.service_id (insert a.service_id a s.services))))

  record_event-SameConfig :
      (kind : EventKind) (n i : Option ℕ) (t : Option TokenKind) (w : World P)
      → SameConfig w.app (record_event kind n i t w).app
        × ((record_event kind n i t w).app.services ≡ w.app.services)
  unfolding record_event
  record_event-SameConfig kind n i t w = ground arith

  pub activate-SameConfig :
      (a : ServiceDefinition) (w : World P)
      → SameConfig w.app (activate a w).1.app × ((activate a w).1.app.services ≡ w.app.services)
  unfolding activate ensure_tcp_ingress
  activate-SameConfig a w = ground arith

  conclude-Committed :
      (s : AppState P) (a : ServiceDefinition) (node_id : ℕ) (r : Fallible (Unit {0})) (w : World P)
      → SameConfig s w.app
      → w.app.services ≡ insert a.service_id a s.services
      → Committed s a (conclude a node_id r w)
  unfolding conclude
  conclude-Committed s a node_id (ok u) w c e = ground (
    arith,
    record_event-SameConfig EventKind.service_registered (some node_id) (some a.service_id) none w,
  )
  conclude-Committed s a node_id (err x) w c e = ground arith

  commit-Committed :
      (a : ServiceDefinition) (node_id : ℕ) (w : World P) → Committed w.app a (commit a node_id w)
  unfolding commit
  commit-Committed a node_id w = elim (Result-cases (P.store.put w.app.store a)) [
    | inr (e, failed) ↦ rw (failed, commit, persist) (ground arith)
    | inl (db, stored) ↦
        let w' : World P = record w {
          app = record (w.app) { services = insert a.service_id a w.app.services; store = db };
        } in
        let (config, same) = activate-SameConfig a w' in
        rw (stored, commit, persist)
          (conclude-Committed w.app a node_id (activate a w').0 (activate a w').1 (ground arith)
            same)
  ]

  -- `register_service` refuses and leaves the whole state alone, or commits what it admitted.
  pub register_service-cases :
      (w : World P) (service : ServiceDefinition) (node_id : ℕ)
      → ((e : Error) × (admit w.app service node_id ≡ err e)
          × (register_service service node_id w ≡ (err e, w)))
        ⊎ ((a : ServiceDefinition) × (admit w.app service node_id ≡ ok a)
            × Committed w.app a (register_service service node_id w))
  unfolding register_service
  register_service-cases w service node_id = elim (Result-cases (admit w.app service node_id)) [
    | inr (e, refused) ↦ inl (e, refused, rw (refused, register_service) refl)
    | inl (a, admitted) ↦
        inr (a, admitted, rw (admitted, register_service) (commit-Committed a node_id w))
  ]

  -- `unregister_service` takes the service out, or leaves the whole state alone if the service is
  -- not in the map or belongs to another node.
  pub unregister_service-cases :
      (w : World P) (service_id node_id : ℕ)
      → ((is_owned_by node_id (lookup service_id w.app.services) ≡ false)
          × (unregister_service service_id node_id w ≡ (ok tt, w)))
        ⊎ ((is_owned_by node_id (lookup service_id w.app.services) ≡ true)
            × SameConfig w.app (unregister_service service_id node_id w).1.app
            × ((unregister_service service_id node_id w).1.app.services
                ≡ remove service_id w.app.services))
  unfolding unregister_service record_event
  unregister_service-cases w service_id node_id =
      elim (Bool-cases (is_owned_by node_id (lookup service_id w.app.services))) [
        | inr other ↦ inl (other, ground arith)
        | inl owned ↦ inr (owned, ground arith, ground arith)
      ]
