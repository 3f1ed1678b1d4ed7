-- ===== src/Server/Store/History.antt =====
-- The nodes, the metrics and the events in store.rs of crates/ongrok-relay-server/src, and the store
-- as the interface that the server uses.
use ongrok_relay.Prelude.{ℕ, List, [], ◌∷◌, ◌++◌, Text, text, take, ok, Fallible, bind, context}
use ongrok_relay.Prelude.Int.{ℤ, pos, saturating_sub}
use ongrok_relay.BTree.{BTreeMap}
use ongrok_relay.Libongrok.Types.{NodeRecord, NodeMetric, ControlEvent}
use ongrok_relay.Server.State.{StoreOps}
use ongrok_relay.Server.Store.{
  Tables, Table, Action, Redb, set_row, drop_rows, expired, padded, at_least_zero,
  metric_retention_ms, newest_first, decode_all, load_rows, of_prefix, transact, acted, reading,
  iterated, put_tokens, put, delete, load_services, load_or_initialize_tokens,
}

unfoldable pub metric_key : (ℕ → Text) → NodeMetric → Text
metric_key uuid_text metric =
    uuid_text metric.node_id
    ++ (b':' ∷ padded metric.recorded_at_unix_ms)
    ++ (b':' ∷ padded (pos metric.snapshot.sequence))

abbrev pub cutoff : NodeMetric → ℤ
cutoff metric = saturating_sub metric.recorded_at_unix_ms (pos metric_retention_ms)

module _ (E : Redb) where
  unfoldable pub load_nodes : Tables → Fallible (BTreeMap NodeRecord)
  load_nodes db =
      reading E db (text "failed to begin database read") (text "failed to open nodes table") (
        iterated E db (text "failed to iterate nodes") (
          load_rows E.node_format.from_bytes (λ n. n.node_id) (text "failed to decode node record")
            db.nodes []))

  unfoldable pub put_node : Tables → NodeRecord → Fallible Tables
  put_node db node =
      bind (context (E.node_format.to_allocvec node) (text "failed to encode node record"))
        (λ encoded.
          transact E db (text "failed to begin database write") (text "failed to open nodes table")
            (text "failed to commit node")
            (acted E Action.write_row db (text "failed to persist node")
              (record db { nodes = set_row (E.uuid_text node.node_id) encoded db.nodes })))

  -- The rows without those of metrics that are older than the cutoff, which are removed one by one.
  unfoldable pub prune : ℤ → Table → Table
  prune oldest rows = drop_rows (expired E.metric_format.from_bytes oldest rows) rows

  abbrev pruned : NodeMetric → Tables → Fallible Tables
  pruned metric db =
      bind (acted E Action.iterate db (text "failed to iterate metrics for retention") db) (λ db'.
        acted E Action.remove_row db' (text "failed to prune expired node metric")
          (record db' { metrics = prune (cutoff metric) db'.metrics }))

  unfoldable pub put_metric : Tables → NodeMetric → Fallible Tables
  put_metric db metric =
      bind (context (E.metric_format.to_allocvec metric) (text "failed to encode node metric"))
        (λ encoded.
          transact E db (text "failed to begin database write")
            (text "failed to open metrics table") (text "failed to commit node metric")
            (bind
              (acted E Action.write_row db (text "failed to persist node metric") (record db {
                metrics = set_row (metric_key E.uuid_text metric) encoded db.metrics;
              }))
              (pruned metric)))

  unfoldable pub metrics_for_node : Tables → ℕ → Fallible (List NodeMetric)
  metrics_for_node db node_id =
      reading E db (text "failed to begin database read") (text "failed to open metrics table") (
        iterated E db (text "failed to iterate metrics") (
          decode_all E.metric_format.from_bytes (text "failed to decode node metric")
            (of_prefix (E.uuid_text node_id ++ b':' ∷ []) db.metrics)))

  unfoldable pub put_event : Tables → ControlEvent → Fallible Tables
  put_event db event =
      bind (context (E.event_format.to_allocvec event) (text "failed to encode control event"))
        (λ encoded.
          transact E db (text "failed to begin event write transaction")
            (text "failed to open events table") (text "failed to commit control event")
            (acted E Action.write_row db (text "failed to persist control event") (record db {
              events =
                  set_row
                    (padded (at_least_zero event.occurred_at_unix_ms)
                      ++ (b':' ∷ E.uuid_text event.event_id))
                    encoded db.events;
            })))

  unfoldable pub recent_events : Tables → ℕ → Fallible (List ControlEvent)
  recent_events db limit =
      reading E db (text "failed to begin event read transaction")
        (text "failed to open events table")
        (iterated E db (text "failed to iterate control events") (
          bind
            (decode_all E.event_format.from_bytes (text "failed to decode control event") db.events)
            (λ events. ok (take limit (newest_first events)))))

  -- The store as the server uses it.
  abbrev pub store : StoreOps
  store = record {
    Db = Tables;
    put = put E;
    delete = delete E;
    put_node = put_node;
    put_metric = put_metric;
    put_event = put_event;
    put_tokens = put_tokens E;
    load_services = load_services E;
    load_nodes = load_nodes;
    load_or_initialize_tokens = load_or_initialize_tokens E;
    metrics_for_node = metrics_for_node;
    recent_events = recent_events;
  }
