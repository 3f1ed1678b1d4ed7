-- ===== src/Server/Identities.antt =====
-- The keys of the nodes, of `validate_node_identity` and of the operations that change a node in
-- crates/ongrok-relay-server/src.
use ongrok_relay.Prelude.{
  ℕ, ◌≡◌, refl, sym, ◌∙◌, ap, Bool, true, false, Option, none, some, Text, text_eq, text_eq→eq,
  arith, Bool-cases, inl, inr, ◌==◌, if◌then◌else◌,
}
use mathlib.Core.Option
use ongrok_relay.BTree.{BTreeMap, lookup, update}
use ongrok_relay.BTree.Lookup.{lookup-update}
use ongrok_relay.Libongrok.Types.{NodeRecord, HeartbeatSnapshot}
use ongrok_relay.Server.State.{Platform, AppState, World, is_impostor, record_event, now_unix_ms}
use ongrok_relay.Server.Session.{Client, leave, drop_session, record_heartbeat, heard, rtt}
use ongrok_relay.Server.Session.Nodes.{record_heartbeat-nodes}
use ongrok_relay.Server.Revocation.{offline}

abbrev pub key_of : Option NodeRecord → Option Text
key_of none = none
key_of (some node) = node.public_key

-- A change of a node that leaves its key alone.
key_of-update :
    (k id : ℕ) (f : NodeRecord → NodeRecord) (nodes : BTreeMap NodeRecord)
    → ((n : NodeRecord) → (f n).public_key ≡ n.public_key)
    → key_of (lookup id (update k f nodes)) ≡ key_of (lookup id nodes)
key_of-update k id f nodes same = rw (lookup-update k id f nodes) (at (k == id) (lookup id nodes))
  where
    at : (b : Bool) (o : Option NodeRecord) → key_of (if b then Option.map f o else o) ≡ key_of o
    at true none = refl
    at true (some n) = same n
    at false o = refl

pub is_impostor-key_of :
    (o : Option NodeRecord) (known key : Text)
    → key_of o ≡ some known
    → is_impostor o key ≡ false
    → key ≡ known
is_impostor-key_of none known key h e = cc
is_impostor-key_of (some n) known key h e = elim (Bool-cases (text_eq known key)) [
  | inl same ↦ sym (text_eq→eq known key same)
  | inr differs ↦ absurd (ground arith)
]

pub key_of-inserted :
    (b : Bool) (n : NodeRecord) (o : Option NodeRecord) (known : Text)
    → (b ≡ true → n.public_key ≡ some known)
    → key_of o ≡ some known
    → key_of (if b then some n else o) ≡ some known
key_of-inserted true n o known same h = same refl
key_of-inserted false n o known same h = h

module _ {P : Platform} where
  abbrev pub HasKey : ℕ → Text → AppState P → Type 0
  HasKey id key s = key_of (lookup id s.nodes) ≡ some key

  pub record_heartbeat-HasKey :
      (id : ℕ) (key : Text) (node_id : ℕ) (snapshot : HeartbeatSnapshot) (w : World P)
      → HasKey id key w.app
      → HasKey id key (record_heartbeat node_id snapshot w).1.app
  record_heartbeat-HasKey id key node_id snapshot w h =
      ap (λ m. key_of (lookup id m)) (record_heartbeat-nodes node_id snapshot w)
      ∙ key_of-update node_id id
          (heard (now_unix_ms w) (rtt (now_unix_ms w) snapshot.sent_at_unix_ms)) w.app.nodes
          (λ n. refl)
      ∙ h

  pub leave-HasKey :
      (id : ℕ) (key : Text) (c : Client) (w : World P)
      → HasKey id key w.app
      → HasKey id key (leave c w).1.app
  unfolding leave drop_session record_event
  leave-HasKey id key c w h =
      ground (arith, key_of-update c.node_id id offline w.app.nodes (λ n. refl))
