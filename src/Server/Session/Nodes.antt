-- ===== src/Server/Session/Nodes.antt =====
-- What a session does to the record of its node: the heartbeats and the identity, in
-- crates/ongrok-relay-server/src/server.rs.
use ongrok_relay.Prelude.{
  ℕ, ◌-◌, min, ◌≡◌, ◌≢◌, sym, inl, inr, false, some, Text, arith, Bool-cases, is_ok, text_eq,
  text_eq→eq, ◌==◌, if◌then◌else◌,
}
use mathlib.Core.Option
use ongrok_relay.Prelude.Int.{pos}
use ongrok_relay.BTree.{lookup, update}
use ongrok_relay.BTree.Lookup.{lookup-update}
use ongrok_relay.Libongrok.Types.{NodeRecord, NodeMetadata, HeartbeatSnapshot}
use ongrok_relay.Server.State.{Platform, World, validate_node_identity, now_unix_ms}
use ongrok_relay.Server.Session.{Client, max_rtt_ms, rtt, heard, record_heartbeat, join}

-- The round trip that a heartbeat shows is the time since it was sent, an hour at most, and 0 if the
-- client's clock is ahead.
rtt-pos : (now sent : ℕ) → rtt (pos now) (pos sent) ≡ min (now - sent) max_rtt_ms
unfolding rtt
rtt-pos now sent = ground arith

module _ {P : Platform} where
  pub record_heartbeat-nodes :
      (node_id : ℕ) (snapshot : HeartbeatSnapshot) (w : World P)
      → (record_heartbeat node_id snapshot w).1.app.nodes
        ≡ update node_id
            (heard (now_unix_ms w) (rtt (now_unix_ms w) snapshot.sent_at_unix_ms))
            w.app.nodes
  unfolding record_heartbeat
  record_heartbeat-nodes node_id snapshot w = ground arith

  -- A heartbeat marks the session's node, if it is known, as online and heard now, with a round trip
  -- of the time since the client sent it, an hour at most; it changes no other node. That is so even
  -- if the store fails.
  pub record_heartbeat-heard :
      (node_id sent k : ℕ) (snapshot : HeartbeatSnapshot) (w : World P)
      → snapshot.sent_at_unix_ms ≡ pos sent
      → lookup k (record_heartbeat node_id snapshot w).1.app.nodes ≡ (
          if node_id == k
          then Option.map (heard (pos w.now) (min (w.now - sent) max_rtt_ms)) (lookup k w.app.nodes)
          else lookup k w.app.nodes)
  record_heartbeat-heard node_id sent k snapshot w at =
      rw (record_heartbeat-nodes node_id snapshot w, at, rtt-pos w.now sent)
        (lookup-update node_id k (heard (pos w.now) (min (w.now - sent) max_rtt_ms)) w.app.nodes)

  -- A node whose key is known joins with that key only: with another one, the session is refused and
  -- nothing changes, the node's present session included.
  pub join-impostor :
      (c : Client) (n : NodeRecord) (metadata : NodeMetadata) (known key : Text) (w : World P)
      → lookup c.node_id w.app.nodes ≡ some n
      → n.public_key ≡ some known
      → key ≢ known
      → (is_ok (join c metadata key w).0 ≡ false) × ((join c metadata key w).1 ≡ w)
  unfolding join validate_node_identity
  join-impostor c n metadata known key w there pinned other =
      elim (Bool-cases (text_eq known key)) [
        | inl same ↦ absurd (other (sym (text_eq→eq known key same)))
        | inr differs ↦ ground arith
      ]
