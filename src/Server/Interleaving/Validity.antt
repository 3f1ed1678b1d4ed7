-- ===== src/Server/Interleaving/Validity.antt =====
-- The registry in memory while the sections of several tasks interleave.
use ongrok_relay.Prelude.{
  ℕ, ◌≡◌, refl, Option, none, some, ok, err, Fallible, Result, List, arith, if-holds,
}
use ongrok_relay.BTree.{lookup}
use ongrok_relay.Libongrok.Types.{ServiceDefinition, Metadata, EventKind}
use ongrok_relay.Libongrok.Validation.{ValidationError, validate}
use ongrok_relay.Server.State.{Platform, World, persist, record_event}
use ongrok_relay.Server.Registry.{admit, activate, is_owned_by}
use ongrok_relay.Server.Registry.Cases.{activate-SameConfig}
use ongrok_relay.Server.Registry.Invariant.{
  IsValid, IsValid-of, insert-IsRegistry, remove-IsRegistry,
}
use ongrok_relay.Server.Registry.Bystanders.{
  SameRegistry-IsValid, record_event-SameRegistry, persist-IsBystander,
}
use ongrok_relay.Server.Api.Services.Validity.{patch-IsRegistry}
use ongrok_relay.Server.Interleaving.{
  Task, registering, storing, opening, reporting, retracting, erasing, unregistering, deleting,
  reporting_deletion, closing, patching, storing_patch, removing, aborting, deleting_found,
  reporting_removal, finished, section, proceed, inserted, listening, take_out, close_task,
  patched_in, removed_from, Interleaved, start, arrives, moves,
}

module _ {P : Platform} where
  abbrev Valid : World P → Type 0
  Valid w = IsValid w.app

  proceed-IsValid :
      (task : Task) (r : Fallible (Unit {0}) × World P) → Valid r.1 → Valid (proceed task r).1
  proceed-IsValid task (ok _, w) v = v
  proceed-IsValid task (err e, w) v = v

  listening-IsValid :
      (a : ServiceDefinition) (node_id : ℕ) (r : Fallible (Unit {0}) × World P)
      → Valid r.1
      → Valid (listening a node_id r).1
  listening-IsValid a node_id (ok _, w) v = v
  listening-IsValid a node_id (err e, w) v = v

  persist-IsValid :
      (f : P.store.Db → Fallible P.store.Db) (w : World P) → Valid w → Valid (persist f w).1
  persist-IsValid f w v = SameRegistry-IsValid w.app _ (persist-IsBystander f w) v

  take_out-IsValid : (service_id : ℕ) (w : World P) → Valid w → Valid (take_out service_id w)
  take_out-IsValid service_id w v =
      IsValid-of w.app (take_out service_id w).app _ (ground arith) refl
        (remove-IsRegistry w.app service_id w.app.services v)

  close_task-IsValid : (service_id : ℕ) (w : World P) → Valid w → Valid (close_task service_id w)
  close_task-IsValid service_id w v =
      IsValid-of w.app (close_task service_id w).app _ (ground arith) refl v

  inserted-IsValid :
      (service : ServiceDefinition) (node_id : ℕ) (w : World P) (r : Fallible ServiceDefinition)
      → admit w.app service node_id ≡ r
      → Valid w
      → Valid (inserted r node_id w).1
  inserted-IsValid service node_id w (err e) h v = v
  inserted-IsValid service node_id w (ok a) h v =
      IsValid-of w.app (inserted (ok a) node_id w).1.app _ (ground arith) refl
        (insert-IsRegistry w.app service a node_id v h)

  patched_in-IsValid :
      (service_id : ℕ) (metadata : Metadata) (r : Result ValidationError (Unit {0}))
      (o : Option ServiceDefinition) (w : World P)
      → validate metadata ≡ r
      → Valid w
      → Valid (patched_in service_id metadata r o w).1
  patched_in-IsValid service_id metadata (ok _) (some s) w good v =
      IsValid-of w.app (patched_in service_id metadata (ok tt) (some s) w).1.app _ (ground arith)
        refl (patch-IsRegistry w.app service_id metadata w.app.services good v)
  patched_in-IsValid service_id metadata (ok _) none w good v = v
  patched_in-IsValid service_id metadata (err e) o w good v = v

  removed_from-IsValid :
      (service_id : ℕ) (o : Option ServiceDefinition) (w : World P)
      → Valid w
      → Valid (removed_from service_id o w).1
  removed_from-IsValid service_id none w v = v
  removed_from-IsValid service_id (some s) w v = take_out-IsValid service_id w v

  event-IsValid :
      (kind : EventKind) (n i : Option ℕ) (w : World P)
      → Valid w
      → Valid (record_event kind n i none w)
  event-IsValid kind n i w v =
      SameRegistry-IsValid w.app _ (record_event-SameRegistry kind n i none w) v

  section-IsValid : (task : Task) (w : World P) → Valid w → Valid (section task w).1
  unfolding section
  section-IsValid (registering service node_id) w v =
      inserted-IsValid service node_id w (admit w.app service node_id) refl v
  section-IsValid (storing a node_id) w v =
      proceed-IsValid (opening a node_id) (persist (λ db. P.store.put db a) w)
        (persist-IsValid (λ db. P.store.put db a) w v)
  section-IsValid (opening a node_id) w v =
      let (config, same) = activate-SameConfig a w in
      listening-IsValid a node_id (activate a w)
        (IsValid-of w.app (activate a w).1.app _ config same v)
  section-IsValid (reporting a node_id) w v =
      event-IsValid EventKind.service_registered (some node_id) (some a.service_id) w v
  section-IsValid (retracting a node_id) w v = take_out-IsValid a.service_id w v
  section-IsValid (erasing a) w v = persist-IsValid (λ db. P.store.delete db a.service_id) w v
  section-IsValid (unregistering service_id node_id) w v =
      if-holds (λ (r : Task × World P). Valid r.1)
        (is_owned_by node_id (lookup service_id w.app.services)) (take_out-IsValid service_id w v) v
  section-IsValid (deleting service_id node_id) w v =
      proceed-IsValid (reporting_deletion service_id node_id)
        (persist (λ db. P.store.delete db service_id) w)
        (persist-IsValid (λ db. P.store.delete db service_id) w v)
  section-IsValid (reporting_deletion service_id node_id) w v =
      event-IsValid EventKind.service_deleted (some node_id) (some service_id) w v
  section-IsValid (closing service_id) w v = close_task-IsValid service_id w v
  section-IsValid (patching service_id metadata) w v =
      patched_in-IsValid service_id metadata (validate metadata) (lookup service_id w.app.services)
        w refl v
  section-IsValid (storing_patch s) w v = persist-IsValid (λ db. P.store.put db s) w v
  section-IsValid (removing service_id) w v =
      removed_from-IsValid service_id (lookup service_id w.app.services) w v
  section-IsValid (aborting service_id s) w v = close_task-IsValid service_id w v
  section-IsValid (deleting_found service_id s) w v =
      proceed-IsValid (reporting_removal service_id s)
        (persist (λ db. P.store.delete db service_id) w)
        (persist-IsValid (λ db. P.store.delete db service_id) w v)
  section-IsValid (reporting_removal service_id s) w v =
      event-IsValid EventKind.service_deleted (some s.node_id) (some service_id) w v
  section-IsValid finished w v = v

  -- From a valid registry: it stays valid in memory while any number of registrations, withdrawals,
  -- patches and deletions run, although each lets go of the services before it writes to the store and
  -- others run in between, and whatever the store refuses.
  pub Interleaved-IsValid :
      {from to : List Task × World P} → Interleaved from to → IsValid from.1.app → IsValid to.1.app
  Interleaved-IsValid (start tasks w) v = v
  Interleaved-IsValid (arrives tasks w task r) v = Interleaved-IsValid r v
  Interleaved-IsValid (moves before after task w r) v =
      section-IsValid task w (Interleaved-IsValid r v)
