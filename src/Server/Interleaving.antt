-- ===== src/Server/Interleaving.antt =====
-- The operations on services of crates/ongrok-relay-server/src/server.rs, one locked section or one
-- transaction of the store at a time: `register_service`, `unregister_service` and the patch and the
-- deletion of `api_handler` each let go of the map of services before they write to the store, so that
-- other tasks may run in between.
pub mod Alone
pub mod Validity
pub mod Revival
pub mod Tests
use ongrok_relay.Prelude.{
  ℕ, zero, suc, Bool, true, false, Option, none, some, ok, err, Fallible, Result, List, [], ◌∷◌,
  ◌++◌, if◌then◌else◌,
}
use ongrok_relay.BTree.{lookup, insert, remove, update}
use ongrok_relay.Libongrok.Types.{ServiceDefinition, Metadata, EventKind}
use ongrok_relay.Libongrok.Validation.{ValidationError, validate}
use ongrok_relay.Server.State.{Platform, AppState, World, persist, record_event}
use ongrok_relay.Server.Registry.{admit, activate, is_owned_by}
use ongrok_relay.Server.Api.Services.{with_metadata}

-- Where a task is: what its next section does. `storing`, `opening`, `reporting`, `retracting` and
-- `erasing` are those of `register_service`; `deleting`, `reporting_deletion` and `closing` those of
-- `unregister_service`; `storing_patch` that of a patch; `aborting`, `deleting_found` and `reporting_removal` those of a
-- deletion.
pub data Task : Type 0 where
  registering storing opening reporting retracting : ServiceDefinition → ℕ → Task
  erasing : ServiceDefinition → Task
  unregistering deleting reporting_deletion : ℕ → ℕ → Task
  closing : ℕ → Task
  patching : ℕ → Metadata → Task
  storing_patch : ServiceDefinition → Task
  removing : ℕ → Task
  aborting deleting_found reporting_removal : ℕ → ServiceDefinition → Task
  finished : Task

module _ {P : Platform} where
  -- The next section, if the last one went well.
  abbrev proceed : Task → Fallible (Unit {0}) × World P → Task × World P
  proceed task (ok _, w) = (task, w)
  proceed task (err e, w) = (finished, w)

  abbrev inserted : Fallible ServiceDefinition → ℕ → World P → Task × World P
  inserted (ok a) node_id w = (
    storing a node_id,
    record w { app = record (w.app) { services = insert a.service_id a w.app.services } },
  )
  inserted (err e) node_id w = (finished, w)

  abbrev listening : ServiceDefinition → ℕ → Fallible (Unit {0}) × World P → Task × World P
  listening a node_id (ok _, w) = (reporting a node_id, w)
  listening a node_id (err e, w) = (retracting a node_id, w)

  abbrev take_out : ℕ → World P → World P
  take_out service_id w = record w {
    app = record (w.app) { services = remove service_id w.app.services };
  }

  abbrev close_task : ℕ → World P → World P
  close_task service_id w = record w {
    app = record (w.app) { tcp_ingress_tasks = remove service_id w.app.tcp_ingress_tasks };
  }

  abbrev patched_in :
      ℕ
      → Metadata
      → Result ValidationError (Unit {0})
      → Option ServiceDefinition
      → World P
      → Task × World P
  patched_in service_id metadata (ok _) (some s) w = (
    storing_patch (with_metadata metadata s),
    record w {
      app = record (w.app) { services = update service_id (with_metadata metadata) w.app.services };
    },
  )
  patched_in service_id metadata _ _ w = (finished, w)

  abbrev removed_from : ℕ → Option ServiceDefinition → World P → Task × World P
  removed_from service_id none w = (finished, w)
  removed_from service_id (some s) w = (aborting service_id s, take_out service_id w)

  -- One section of a task, and what is left of it.
  unfoldable pub section : Task → World P → Task × World P
  section (registering service node_id) w = inserted (admit w.app service node_id) node_id w
  section (storing a node_id) w = proceed (opening a node_id) (persist (λ db. P.store.put db a) w)
  section (opening a node_id) w = listening a node_id (activate a w)
  section (reporting a node_id) w = (
    finished,
    record_event EventKind.service_registered (some node_id) (some a.service_id) none w,
  )
  section (retracting a node_id) w = (erasing a, take_out a.service_id w)
  section (erasing a) w = (finished, (persist (λ db. P.store.delete db a.service_id) w).1)
  section (unregistering service_id node_id) w =
      if is_owned_by node_id (lookup service_id w.app.services)
      then (deleting service_id node_id, take_out service_id w)
      else (finished, w)
  section (deleting service_id node_id) w =
      proceed (reporting_deletion service_id node_id)
        (persist (λ db. P.store.delete db service_id) w)
  section (reporting_deletion service_id node_id) w = (
    closing service_id,
    record_event EventKind.service_deleted (some node_id) (some service_id) none w,
  )
  section (closing service_id) w = (finished, close_task service_id w)
  section (patching service_id metadata) w =
      patched_in service_id metadata (validate metadata) (lookup service_id w.app.services) w
  section (storing_patch s) w = (finished, (persist (λ db. P.store.put db s) w).1)
  section (removing service_id) w = removed_from service_id (lookup service_id w.app.services) w
  section (aborting service_id s) w = (deleting_found service_id s, close_task service_id w)
  section (deleting_found service_id s) w =
      proceed (reporting_removal service_id s) (persist (λ db. P.store.delete db service_id) w)
  section (reporting_removal service_id s) w =
      (finished, record_event EventKind.service_deleted (some s.node_id) (some service_id) none w)
  section finished w = (finished, w)

  -- Sections of one task that nothing interrupts.
  abbrev pub run_sections : ℕ → Task × World P → Task × World P
  run_sections zero (task, w) = (task, w)
  run_sections (suc n) (task, w) = run_sections n (section task w)

  -- Any number of tasks, each of which may run its next section at any time.
  pub data Interleaved : List Task × World P → List Task × World P → Type 0 where
    start : (tasks : List Task) (w : World P) → Interleaved (tasks, w) (tasks, w)
    arrives :
        {from : List Task × World P} (tasks : List Task) (w : World P) (task : Task)
        → Interleaved from (tasks, w)
        → Interleaved from (task ∷ tasks, w)
    moves :
        {from : List Task × World P} (before after : List Task) (task : Task) (w : World P)
        → Interleaved from (before ++ task ∷ after, w)
        → Interleaved from (before ++ (section task w).0 ∷ after, (section task w).1)
