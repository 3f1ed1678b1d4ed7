-- ===== src/Server/Joins.antt =====
-- A node that joins, in `handle_yamux_session` and `handle_quic_connection` of
-- crates/ongrok-relay-server/src/server.rs, one locked section or one transaction of the store at a
-- time: the key is checked under the lock of the nodes (`validate_node_identity` of state.rs), the session
-- is activated under that of the sessions, and the node is inserted under that of the nodes again.
pub mod Keys
pub mod Race
pub mod Tests
use ongrok_relay.Prelude.{
  ℕ, zero, suc, none, some, Text, Error, Fallible, ok, err, List, ◌∷◌, ◌++◌, lift, map_err, ◌>>◌,
  ◌>>=◌,
}
use ongrok_relay.BTree.{insert}
use ongrok_relay.Libongrok.Types.{NodeMetadata, NodeRecord, HeartbeatSnapshot, EventKind}
use ongrok_relay.Libongrok.Validation.{validate, validation_message}
use ongrok_relay.Server.State.{
  Platform, World, persist, activate_session, validate_node_identity, record_event,
}
use ongrok_relay.Server.Session.{Client, node_record, record_heartbeat, leave}

-- Where a session is that handles a `RegisterNode`: what its next section does.
pub data Joining : Type 0 where
  checking activating entering : Client → NodeMetadata → Text → Joining
  storing_node : Client → NodeRecord → Joining
  reporting_online : Client → Joining
  joined : Joining
  rejected : Error → Joining

module _ {P : Platform} where
  -- The next section, if the last one went well; an error leaves the loop by `?`.
  abbrev pub advance : Joining → Fallible (Unit {0}) × World P → Joining × World P
  advance task (ok _, w) = (task, w)
  advance task (err e, w) = (rejected e, w)

  unfoldable pub join_section : Joining → World P → Joining × World P
  join_section (checking c metadata key) w = advance (activating c metadata key) (
      (lift (map_err validation_message (validate metadata.metadata))
          >> validate_node_identity c.node_id key)
        w)
  join_section (activating c metadata key) w =
      advance (entering c metadata key)
        (activate_session c.node_id c.session_id c.token_kind c.connection w)
  join_section (entering c metadata key) w = (
    storing_node c (node_record c metadata key w),
    record w {
      app = record (w.app) { nodes = insert c.node_id (node_record c metadata key w) w.app.nodes };
    },
  )
  join_section (storing_node c node) w =
      advance (reporting_online c) (persist (λ db. P.store.put_node db node) w)
  join_section (reporting_online c) w =
      (joined, record_event EventKind.node_online (some c.node_id) none none w)
  join_section joined w = (joined, w)
  join_section (rejected e) w = (rejected e, w)

  -- Sections of one session that nothing interrupts.
  abbrev pub run_joining : ℕ → Joining × World P → Joining × World P
  run_joining zero (task, w) = (task, w)
  run_joining (suc n) (task, w) = run_joining n (join_section task w)

  -- Any number of sessions that join, each of which may run its next section at any time, and may begin
  -- at any time; in between nodes send heartbeats and sessions end.
  pub data Joins : List Joining × World P → List Joining × World P → Type 0 where
    start : (tasks : List Joining) (w : World P) → Joins (tasks, w) (tasks, w)
    arrives :
        {from : List Joining × World P} (tasks : List Joining) (w : World P) (c : Client)
        (metadata : NodeMetadata) (key : Text)
        → Joins from (tasks, w)
        → Joins from (checking c metadata key ∷ tasks, w)
    moves :
        {from : List Joining × World P} (before after : List Joining) (task : Joining) (w : World P)
        → Joins from (before ++ task ∷ after, w)
        → Joins from (before ++ (join_section task w).0 ∷ after, (join_section task w).1)
    beats :
        {from : List Joining × World P} (tasks : List Joining) (w : World P) (node_id : ℕ)
        (snapshot : HeartbeatSnapshot)
        → Joins from (tasks, w)
        → Joins from (tasks, (record_heartbeat node_id snapshot w).1)
    leaves :
        {from : List Joining × World P} (tasks : List Joining) (w : World P) (c : Client)
        → Joins from (tasks, w)
        → Joins from (tasks, (leave c w).1)
