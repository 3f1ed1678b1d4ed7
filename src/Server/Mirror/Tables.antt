-- ===== src/Server/Mirror/Tables.antt =====
-- The tables of crates/ongrok-relay-server/src/store.rs where the engine does not fail and postcard
-- writes every service: the services that a server loads at any time.
use ongrok_relay.Prelude.{
  ℕ, ◌≡◌, refl, sym, ◌∙◌, true, none, Text, ok, Fallible, arith, List, [], ◌∷◌, text,
}
use ongrok_relay.BTree.{BTreeMap, lookup, insert}
use ongrok_relay.Libongrok.Types.{ServiceDefinition, NodeRecord, NodeMetric, ControlEvent}
use ongrok_relay.Server.State.{Platform, AppState, World, TokenState}
use ongrok_relay.Server.Store.{
  Tables, Table, Action, Redb, row, set_row, drop_row, load_rows, put, delete, put_tokens,
  load_services,
}
use ongrok_relay.Server.Store.History.{put_node, put_metric, put_event, store}
use ongrok_relay.Server.Store.Rows.{recorded}
use ongrok_relay.Server.Store.Replay.{
  Services, IsServiceTable, put-Becomes, delete-Becomes, load_services-view,
}
use ongrok_relay.Server.Registry.Invariant.{IsValid}
use ongrok_relay.Server.Api.{Formats}
use ongrok_relay.Server.System.{Reach}
use ongrok_relay.Server.Mirror.{Durable, Mirrors}
use ongrok_relay.Server.Mirror.Steps.{Reach-Mirrors}

module _ (E : Redb) where
  -- A server on these tables.
  abbrev pub platform : (Text → Text) → (List ℕ → ℕ → Fallible (Unit {0})) → (ℕ → ℕ) → Platform
  platform blake3 bind uuid = record { store = store E; blake3 = blake3; bind = bind; uuid = uuid }

  put_node-services :
      (db db' : Tables) (n : NodeRecord) → put_node E db n ≡ ok db' → db'.services ≡ db.services
  unfolding put_node
  put_node-services db db' n done = ground arith

  put_event-services :
      (db db' : Tables) (e : ControlEvent) → put_event E db e ≡ ok db' → db'.services ≡ db.services
  unfolding put_event
  put_event-services db db' e done = ground arith

  put_tokens-services :
      (db db' : Tables) (t : TokenState) → put_tokens E db t ≡ ok db' → db'.services ≡ db.services
  unfolding put_tokens
  put_tokens-services db db' t done = ground arith

  put_metric-services :
      (db db' : Tables) (m : NodeMetric) → put_metric E db m ≡ ok db' → db'.services ≡ db.services
  unfolding put_metric
  put_metric-services db db' m done = ground arith

  module _ (works : (a : Action) (db : Tables) → E.succeeds a db ≡ true)
      (writes : (s : ServiceDefinition)
        → (b : Text) × (E.service_format.to_allocvec s ≡ ok b)) where
    put-succeeds :
        (db : Tables) (s : ServiceDefinition) (encoded : Text)
        → E.service_format.to_allocvec s ≡ ok encoded
        → put E db s
          ≡ ok (record db { services = set_row (E.uuid_text s.service_id) encoded db.services })
    unfolding put
    put-succeeds db s encoded encodes =
        rw
          (
            encodes,
            works Action.begin_write db,
            works Action.open_table db,
            works Action.write_row db,
            works Action.commit
                (record db { services = set_row (E.uuid_text s.service_id) encoded db.services }),
          )
          refl

    delete-succeeds :
        (db : Tables) (service_id : ℕ)
        → delete E db service_id
          ≡ ok (record db { services = drop_row (E.uuid_text service_id) db.services })
    unfolding delete
    delete-succeeds db service_id =
        rw
          (
            works Action.begin_write db,
            works Action.open_table db,
            works Action.remove_row db,
            works Action.commit
                (record db { services = drop_row (E.uuid_text service_id) db.services }),
          )
          refl

    load_rows-succeeds :
        (rows : Table) (loaded : BTreeMap ServiceDefinition)
        → IsServiceTable E rows
        → (m : BTreeMap ServiceDefinition) × (load_rows E.service_format.from_bytes
              (λ s. s.service_id)
              (text "failed to decode service record")
              rows
              loaded
            ≡ ok m)
    unfolding load_rows
    load_rows-succeeds [] loaded table = (loaded, refl)
    load_rows-succeeds ((key, value) ∷ rows) loaded ((a, decodes, named), before, later) =
        let (m, done) = load_rows-succeeds rows (insert a.service_id a loaded) later in
        (m, rw decodes done)

    load_services-succeeds :
        (db : Tables)
        → Services E db
        → (m : BTreeMap ServiceDefinition) × (load_services E db ≡ ok m)
    unfolding load_services
    load_services-succeeds db table =
        let (m, done) = load_rows-succeeds db.services [] table in
        (
          m,
          rw (works Action.begin_read db, works Action.open_table db, works Action.iterate db) done,
        )

    pub durable : Durable (store E)
    durable = record {
      Rows = Table;
      rows = λ db. db.services;
      IsTable = IsServiceTable E;
      view = λ rows k.
          recorded E.service_format.from_bytes (λ s. s.service_id) E.uuid_text
            (row (E.uuid_text k) rows) none;
      put = λ db s table.
          let (encoded, encodes) = writes s in
          let done = put-succeeds db s encoded encodes in
          let after = put-Becomes E s db _ table done in (_, done, after.table, after.seen);
      delete = λ db service_id table.
          let done = delete-succeeds db service_id in
          let after = delete-Becomes E service_id db _ table done in
          (_, done, after.table, after.seen);
      put_node = put_node-services;
      put_metric = put_metric-services;
      put_event = put_event-services;
      put_tokens = put_tokens-services;
    }

    pub load_services-seen :
        (db : Tables)
        → durable.IsTable (durable.rows db)
        → (m : BTreeMap ServiceDefinition) × (load_services E db ≡ ok m)
          × ((k : ℕ) → lookup k m ≡ durable.view (durable.rows db) k)
    unfolding durable
    load_services-seen db table =
        let (m, done) = load_services-succeeds db table in
        (m, done, λ k. load_services-view E db m k table done)

    module _ (blake3 : Text → Text) (bind : List ℕ → ℕ → Fallible (Unit {0})) (uuid : ℕ → ℕ) where
      -- What a server has loaded is what its store has.
      pub load_services-Mirrors :
          (s : AppState (platform blake3 bind uuid))
          → Services E s.store
          → load_services E s.store ≡ ok s.services
          → Mirrors durable s
      unfolding durable
      load_services-Mirrors s table loaded = record {
        table = table;
        same = λ j. sym (load_services-view E s.store s.services j table loaded);
      }

      -- With an engine that does not fail and a format that writes every service, from a valid registry
      -- that was loaded from rows that are ascending, each under the text of its service's identifier:
      -- however sessions, requests and the clock interleave, a server that is started again loads the
      -- services without an error, and they are those that were in memory.
      pub Reach-load_services :
          (F : Formats) {v w : World (platform blake3 bind uuid)}
          → Reach F v w
          → IsValid v.app
          → Services E v.app.store
          → load_services E v.app.store ≡ ok v.app.services
          → (m : BTreeMap ServiceDefinition) × (load_services E w.app.store ≡ ok m)
            × ((k : ℕ) → lookup k m ≡ lookup k w.app.services)
      unfolding durable
      Reach-load_services F {v} {w} r valid table loaded =
          let after = Reach-Mirrors durable F r valid (load_services-Mirrors v.app table loaded) in
          let (m, reloaded) = load_services-succeeds w.app.store after.table in
          (
            m,
            reloaded,
            λ k. load_services-view E w.app.store m k after.table reloaded ∙ after.same k,
          )
