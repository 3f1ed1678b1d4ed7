-- ===== src/Server/Joins/Race.antt =====
-- Two sessions that join a new node at the same time.
use ongrok_relay.Prelude.{
  ℕ, zero, suc, ◌≡◌, ◌∙◌, ap, subst, Text, none, ok, arith, List, [], ◌∷◌, ◌++◌,
}
use ongrok_relay.BTree.{lookup}
use ongrok_relay.BTree.Lookup.{lookup-insert_self}
use ongrok_relay.Libongrok.Types.{NodeMetadata, NodeRecord}
use ongrok_relay.Libongrok.Validation.{validate}
use ongrok_relay.Server.State.{
  Platform, World, validate_node_identity, activate_session, record_event,
}
use ongrok_relay.Server.Session.{Client, node_record}
use ongrok_relay.Server.Identities.{HasKey, key_of}
use ongrok_relay.Server.Joins.{
  Joining, checking, activating, joined, join_section, run_joining, Joins, start, moves,
}

module _ {P : Platform} where
  runs :
      {from : List Joining × World P} (n : ℕ) (before after : List Joining) (r : Joining × World P)
      → Joins from (before ++ r.0 ∷ after, r.1)
      → Joins from (before ++ (run_joining n r).0 ∷ after, (run_joining n r).1)
  runs zero before after (task, w) j = j
  runs (suc n) before after (task, w) j =
      runs n before after (join_section task w) (moves before after task w j)

  module _
      (takes : (db : P.store.Db) (n : NodeRecord)
        → (db' : P.store.Db) × (P.store.put_node db n ≡ ok db')) where
    -- A session whose check is over enters the node with its key.
    entered :
        (c : Client) (metadata : NodeMetadata) (key : Text) (w : World P)
        → let r = run_joining 4 (activating c metadata key, w) in
          (r.0 ≡ joined) × HasKey c.node_id key r.1.app
    unfolding join_section activate_session node_record record_event
    entered c metadata key w =
        let (db, taken) = takes w.app.store (node_record c metadata key w) in
        let seen = lookup-insert_self c.node_id (node_record c metadata key w) w.app.nodes in
        (ground (arith, taken), ground (arith, taken, ap key_of seen))

    checked :
        (c : Client) (metadata : NodeMetadata) (key : Text) (w : World P)
        → lookup c.node_id w.app.nodes ≡ none
        → validate metadata.metadata ≡ ok tt
        → join_section (checking c metadata key) w ≡ (activating c metadata key, w)
    unfolding join_section validate_node_identity
    checked c metadata key w new good = ground arith

    -- Where the store takes every node, and two sessions come as one node that is new, each with a key of
    -- its own: both may join. The first one has joined and the node has its key; then the second one
    -- joins as well, and the node has the key of the second.
    pub joining-race :
        (c d : Client) (metadata : NodeMetadata) (first second : Text) (w : World P)
        → d.node_id ≡ c.node_id
        → lookup c.node_id w.app.nodes ≡ none
        → validate metadata.metadata ≡ ok tt
        → (u v : World P) × Joins
            (checking c metadata first ∷ checking d metadata second ∷ [], w)
            (joined ∷ activating d metadata second ∷ [], u)
          × HasKey c.node_id first u.app
          × Joins (joined ∷ activating d metadata second ∷ [], u) (joined ∷ joined ∷ [], v)
          × HasKey c.node_id second v.app
    joining-race c d metadata first second w same new good =
        let second_checks =
          subst
            (λ (r : Joining × World P).
              Joins (checking c metadata first ∷ checking d metadata second ∷ [], w)
                (checking c metadata first ∷ r.0 ∷ [], r.1))
            (checked d metadata second w (ap (λ j. lookup j w.app.nodes) same ∙ new) good)
            (moves (checking c metadata first ∷ []) [] (checking d metadata second) w
              (start (checking c metadata first ∷ checking d metadata second ∷ []) w)) in
        let first_checks =
          subst
            (λ (r : Joining × World P).
              Joins (checking c metadata first ∷ checking d metadata second ∷ [], w)
                (r.0 ∷ activating d metadata second ∷ [], r.1))
            (checked c metadata first w new good)
            (moves [] (activating d metadata second ∷ []) (checking c metadata first) w
              second_checks) in
        let u = (run_joining 4 (activating c metadata first, w)).1 in
        let (first_in, first_key) = entered c metadata first w in
        let (second_in, second_key) = entered d metadata second u in
        let v = (run_joining 4 (activating d metadata second, u)).1 in
        (
          u,
          v,
          subst
              (λ (t : Joining).
                Joins (checking c metadata first ∷ checking d metadata second ∷ [], w)
                  (t ∷ activating d metadata second ∷ [], u))
              first_in
              (runs 4 [] (activating d metadata second ∷ []) (activating c metadata first, w)
                first_checks),
          first_key,
          subst
              (λ (t : Joining).
                Joins (joined ∷ activating d metadata second ∷ [], u) (joined ∷ t ∷ [], v))
              second_in
              (runs 4 (joined ∷ []) [] (activating d metadata second, u)
                (start (joined ∷ activating d metadata second ∷ []) u)),
          subst (λ j. HasKey j second v.app) same second_key,
        )
