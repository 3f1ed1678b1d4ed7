-- ===== src/Server/Interleaving/Revival.antt =====
-- A patch and a deletion of one service that interleave.
use ongrok_relay.Prelude.{
  ℕ, ◌≡◌, refl, sym, ◌∙◌, ap, subst, none, some, ok, List, [], ◌∷◌, ◌++◌, ==_refl, ==_iff,
  if◌then◌else◌, true, Text, Fallible,
}
use ongrok_relay.BTree.{BTreeMap, lookup, update}
use ongrok_relay.BTree.Lookup.{lookup-update, lookup-remove_self}
use ongrok_relay.Libongrok.Types.{ServiceDefinition, Metadata, EventKind}
use ongrok_relay.Libongrok.Validation.{validate}
use ongrok_relay.Server.State.{Platform, AppState, World, persist, record_event}
use ongrok_relay.Server.Registry.Cases.{record_event_app}
use ongrok_relay.Server.Api.Services.{with_metadata}
use ongrok_relay.Server.Store.{Tables, Action, Redb, load_services}
use ongrok_relay.Server.Store.Replay.{Services}
use ongrok_relay.Server.Mirror.{Durable, Mirrors}
use ongrok_relay.Server.Mirror.Tables.{platform, durable, load_services-Mirrors, load_services-seen}
use ongrok_relay.Server.Mirror.Bystanders.{rows_of-record_event}
use ongrok_relay.Server.Interleaving.{
  Task, patching, storing_patch, removing, aborting, deleting_found, reporting_removal, finished,
  section, Interleaved, start, moves, take_out, close_task,
}

module _ {P : Platform} where
  moves_to :
      {from : List Task × World P} {w w' : World P} {task' : Task} (before after : List Task)
      (task : Task)
      → section task w ≡ (task', w')
      → Interleaved from (before ++ task ∷ after, w)
      → Interleaved from (before ++ task' ∷ after, w')
  moves_to {from} {w} before after task e r =
      subst (λ (x : Task × World P). Interleaved from (before ++ x.0 ∷ after, x.1)) e
        (moves before after task w r)

  module _ (D : Durable P.store) (id : ℕ) (metadata : Metadata) (s : ServiceDefinition)
      (w : World P) where
    abbrev patched_service : ServiceDefinition
    patched_service = with_metadata metadata s

    -- The world after the patch in memory, and after the removal and the end of the listener.
    abbrev patched_world : World P
    patched_world = record w {
      app = record (w.app) { services = update id (with_metadata metadata) w.app.services };
    }

    abbrev removed_world : World P
    removed_world = close_task id (take_out id patched_world)

    patching-section :
        lookup id w.app.services ≡ some s
        → validate metadata ≡ ok tt
        → section (patching id metadata) w ≡ (storing_patch patched_service, patched_world)
    unfolding section
    patching-section found good = rw (found, good) refl

    lookup-patched_world :
        lookup id w.app.services ≡ some s
        → lookup id patched_world.app.services ≡ some patched_service
    lookup-patched_world found =
        rw (lookup-update id id (with_metadata metadata) w.app.services, found, ==_refl id) refl

    removing-section :
        lookup id w.app.services ≡ some s
        → section (removing id) patched_world
          ≡ (aborting id patched_service, take_out id patched_world)
    unfolding section
    removing-section found = rw (lookup-patched_world found) refl

    patching-view :
        Mirrors D w.app
        → lookup id w.app.services ≡ some s
        → s.service_id ≡ id
        → validate metadata ≡ ok tt
        → (v : World P) × Interleaved
            (patching id metadata ∷ removing id ∷ [], w)
            (finished ∷ finished ∷ [], v)
          × (lookup id v.app.services ≡ none)
          × D.IsTable (D.rows v.app.store)
          × (D.view (D.rows v.app.store) id ≡ some (with_metadata metadata s))
    unfolding section
    patching-view mirrors found keyed good =
        let (db, deleted, table, gone) = D.delete w.app.store id mirrors.table in
        let w4 : World P = record removed_world {
          app = record (removed_world.app) { store = db };
        } in
        let w5 : World P =
          record_event EventKind.service_deleted (some s.node_id) (some id) none w4 in
        let same_rows =
          rows_of-record_event D EventKind.service_deleted (some s.node_id) (some id) none w4 in
        let (db', stored, table', seen) =
          D.put w5.app.store patched_service (subst D.IsTable (sym same_rows) table) in
        let w6 : World P = record w5 { app = record (w5.app) { store = db' } } in
        let run0 = start (patching id metadata ∷ removing id ∷ []) w in
        let run1 =
          moves_to [] (removing id ∷ []) (patching id metadata) (patching-section found good)
            run0 in
        let run2 =
          moves_to (storing_patch patched_service ∷ []) [] (removing id) (removing-section found)
            run1 in
        let run3 =
          moves (storing_patch patched_service ∷ []) [] (aborting id patched_service)
            (take_out id patched_world) run2 in
        let run4 =
          moves_to {w' = w4} {task' = reporting_removal id patched_service}
            (storing_patch patched_service ∷ []) [] (deleting_found id patched_service)
            (rw (deleted, persist) refl) run3 in
        let run5 =
          moves (storing_patch patched_service ∷ []) [] (reporting_removal id patched_service) w4
            run4 in
        let run6 =
          moves_to {w' = w6} {task' = finished} [] (finished ∷ []) (storing_patch patched_service)
            (rw (stored, persist) refl) run5 in
        (
          w6,
          run6,
          ap (λ (a : AppState P). lookup id a.services)
                (record_event_app EventKind.service_deleted (some s.node_id) (some id) none w4)
              ∙ lookup-remove_self id patched_world.app.services,
          table',
          seen id
              ∙ ap (λ b. if b then some patched_service else D.view (D.rows w5.app.store) id)
                  ((==_iff s.service_id id).1 keyed),
        )

-- Where the engine does not fail and postcard writes every service: a service that the server has
-- loaded. Where its deletion comes between the two halves of a patch of its metadata, both finish, the
-- service is gone from memory, and `load_services` loads it from the store again, with the patch.
pub patching-revival :
    (E : Redb)
    → (works : (a : Action) (db : Tables) → E.succeeds a db ≡ true)
    → (writes : (s : ServiceDefinition) → (b : Text) × (E.service_format.to_allocvec s ≡ ok b))
    → (blake3 : Text → Text) → (bind_port : List ℕ → ℕ → Fallible (Unit {0})) → (uuid : ℕ → ℕ)
    → (id : ℕ) → (metadata : Metadata) → (s : ServiceDefinition)
    → (w : World (platform E blake3 bind_port uuid)) → Services E w.app.store
    → load_services E w.app.store ≡ ok w.app.services
    → lookup id w.app.services ≡ some s
    → s.service_id ≡ id
    → validate metadata ≡ ok tt
    → (v : World (platform E blake3 bind_port uuid)) × Interleaved
        (patching id metadata ∷ removing id ∷ [], w)
        (finished ∷ finished ∷ [], v)
      × (lookup id v.app.services ≡ none)
      × (m : BTreeMap ServiceDefinition) × (load_services E v.app.store ≡ ok m)
      × (lookup id m ≡ some (with_metadata metadata s))
patching-revival E works writes blake3 bind_port uuid id metadata s w table loaded found keyed
      good =
    let mirrors = load_services-Mirrors E works writes blake3 bind_port uuid w.app table loaded in
    let (v, run, gone, table', seen) =
      patching-view (durable E works writes) id metadata s w mirrors found keyed good in
    let (m, reloaded, same) = load_services-seen E works writes v.app.store table' in
    (v, run, gone, m, reloaded, same id ∙ seen)
