-- ===== src/Server/Interleaving/Alone.antt =====
-- The sections of one task that nothing interrupts, and the operations of `Server.Registry` and
-- `Server.Api.Services`.
use ongrok_relay.Prelude.{ℕ, ◌≡◌, refl, ok, err, Fallible, arith, after, Result-cases, inl, inr}
use ongrok_relay.BTree.{insert}
use ongrok_relay.Libongrok.Types.{ServiceDefinition, Metadata}
use ongrok_relay.Libongrok.Validation.{validate}
use ongrok_relay.Server.State.{Platform, World, persist}
use ongrok_relay.Server.Registry.{
  admit, activate, conclude, commit, register_service, unregister_service, withdraw,
}
use ongrok_relay.Server.Api.Services.{patch_valid, delete_service}
use ongrok_relay.Server.Interleaving.{
  registering, inserted, listening, unregistering, patching, removing, section, run_sections,
}

module _ {P : Platform} where
  sections-conclude :
      (a : ServiceDefinition) (node_id : ℕ) (r : Fallible (Unit {0}) × World P)
      → (run_sections 2 (listening a node_id r)).1 ≡ (conclude a node_id r.0 r.1).1
  unfolding section conclude
  sections-conclude a node_id (ok _, w) = refl
  sections-conclude a node_id (err e, w) = ground arith

  sections-commit :
      (a : ServiceDefinition) (node_id : ℕ) (w : World P)
      → (run_sections 4 (inserted (ok a) node_id w)).1 ≡ (commit a node_id w).1
  unfolding section commit
  sections-commit a node_id w = elim (Result-cases (P.store.put w.app.store a)) [
    | inr (e, failed) ↦ rw (failed, commit, persist) refl
    | inl (db, stored) ↦
        let w' : World P = record w {
          app = record (w.app) { services = insert a.service_id a w.app.services; store = db };
        } in
        rw (stored, commit, persist) (sections-conclude a node_id (activate a w'))
  ]

  sections-register_service :
      (service : ServiceDefinition) (node_id : ℕ) (w : World P)
      → (run_sections 5 (registering service node_id, w)).1 ≡ (register_service service node_id w).1
  unfolding section register_service
  sections-register_service service node_id w = admitted (admit w.app service node_id)
    where
      admitted :
          (r : Fallible ServiceDefinition)
          → (run_sections 4 (inserted r node_id w)).1 ≡ (after (r, w) (λ a. commit a node_id)).1
      admitted (err e) = ground arith
      admitted (ok a) = sections-commit a node_id w

  sections-unregister_service :
      (service_id node_id : ℕ) (w : World P)
      → (run_sections 4 (unregistering service_id node_id, w)).1
        ≡ (unregister_service service_id node_id w).1
  unfolding section unregister_service withdraw
  sections-unregister_service service_id node_id w = ground arith

  sections-patch :
      (service_id : ℕ) (metadata : Metadata) (w : World P)
      → (run_sections 2 (patching service_id metadata, w)).1
        ≡ (patch_valid service_id metadata (validate metadata) w).1
  unfolding section
  sections-patch service_id metadata w = ground arith

  sections-delete_service :
      (service_id : ℕ) (w : World P)
      → (run_sections 4 (removing service_id, w)).1 ≡ (delete_service service_id w).1
  unfolding section delete_service
  sections-delete_service service_id w = ground arith

  -- Where no other task comes in between, the sections of a task do what the operation does:
  -- `register_service`, `unregister_service`, a patch with valid or refused metadata, and a deletion.
  pub run_sections-alone :
      (service : ServiceDefinition) (service_id node_id : ℕ) (metadata : Metadata) (w : World P)
      → ((run_sections 5 (registering service node_id, w)).1
          ≡ (register_service service node_id w).1)
        × ((run_sections 4 (unregistering service_id node_id, w)).1
            ≡ (unregister_service service_id node_id w).1)
        × ((run_sections 2 (patching service_id metadata, w)).1
            ≡ (patch_valid service_id metadata (validate metadata) w).1)
        × ((run_sections 4 (removing service_id, w)).1 ≡ (delete_service service_id w).1)
  run_sections-alone service service_id node_id metadata w = (
    sections-register_service service node_id w,
    sections-unregister_service service_id node_id w,
    sections-patch service_id metadata w,
    sections-delete_service service_id w,
  )
