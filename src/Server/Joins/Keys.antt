-- ===== src/Server/Joins/Keys.antt =====
-- The key of a node while sessions join it at the same time.
use ongrok_relay.Prelude.{
  ℕ, ◌≡◌, refl, sym, ◌∙◌, ap, false, Text, some, ok, err, Fallible, arith, List, [], ◌∷◌, ◌++◌, All,
  lift, map_err, ◌>>◌, ◌==◌, ==_iff,
}
use ongrok_relay.BTree.{lookup}
use ongrok_relay.BTree.Lookup.{lookup-insert}
use ongrok_relay.Libongrok.Types.{NodeMetadata}
use ongrok_relay.Libongrok.Validation.{validate, validation_message}
use ongrok_relay.Server.State.{
  Platform, World, is_impostor, validate_node_identity, activate_session, record_event,
}
use ongrok_relay.Server.Session.{Client, node_record}
use ongrok_relay.Server.Identities.{
  HasKey, key_of, is_impostor-key_of, key_of-inserted, record_heartbeat-HasKey, leave-HasKey,
}
use ongrok_relay.Server.Joins.{
  Joining, checking, activating, entering, storing_node, reporting_online, joined, rejected,
  advance, join_section, Joins, start, arrives, moves, beats, leaves,
}

-- A session that may still enter the node enters it with the key.
abbrev pub Agrees : ℕ → Text → Joining → Type 0
Agrees id key (activating c metadata sent) = c.node_id ≡ id → sent ≡ key
Agrees id key (entering c metadata sent) = c.node_id ≡ id → sent ≡ key
Agrees id key _ = Unit

replaced-All :
    {A : Type 0} (Q : A → Type 0) (before after : List A) (x y : A)
    → All Q (before ++ x ∷ after)
    → (Q x → Q y)
    → All Q (before ++ y ∷ after)
replaced-All Q [] after x y h f = (f h.0, h.1)
replaced-All Q (b ∷ before) after x y h f = (h.0, replaced-All Q before after x y h.1 f)

of-All :
    {A : Type 0} (Q : A → Type 0) (before after : List A) (x : A)
    → All Q (before ++ x ∷ after)
    → Q x
of-All Q [] after x h = h.0
of-All Q (b ∷ before) after x h = of-All Q before after x h.1

module _ {P : Platform} (id : ℕ) (key : Text) where
  -- What a section of a session preserves.
  record Sound (r : Joining × World P) : Type 0 where
    pub agrees : Agrees id key r.0
    pub has_key : HasKey id key r.1.app

  advance-Sound :
      (task : Joining) (r : Fallible (Unit {0}) × World P)
      → (r.0 ≡ ok tt → Agrees id key task)
      → HasKey id key r.1.app
      → Sound (advance task r)
  advance-Sound task (ok tt, w) a h = record { agrees = a refl; has_key = h }
  advance-Sound task (err e, w) a h = record { agrees = tt; has_key = h }

  check-accepted :
      (c : Client) (metadata : NodeMetadata) (sent : Text) (w : World P)
      → ((lift (map_err validation_message (validate metadata.metadata))
            >> validate_node_identity c.node_id sent)
          w).0
        ≡ ok tt
      → is_impostor (lookup c.node_id w.app.nodes) sent ≡ false
  unfolding validate_node_identity
  check-accepted c metadata sent w h = ground arith

  check-world :
      (c : Client) (metadata : NodeMetadata) (sent : Text) (w : World P)
      → ((lift (map_err validation_message (validate metadata.metadata))
            >> validate_node_identity c.node_id sent)
          w).1
        ≡ w
  unfolding validate_node_identity
  check-world c metadata sent w = ground arith

  activate_session-nodes :
      (c : Client) (w : World P)
      → (activate_session c.node_id c.session_id c.token_kind c.connection w).1.app.nodes
        ≡ w.app.nodes
  unfolding activate_session
  activate_session-nodes c w = ground arith

  join_section-Sound :
      (task : Joining) (w : World P)
      → Agrees id key task
      → HasKey id key w.app
      → Sound (join_section task w)
  unfolding join_section node_record record_event
  join_section-Sound (checking c metadata sent) w a h =
      advance-Sound (activating c metadata sent) _
        (λ accepted same.
          is_impostor-key_of (lookup c.node_id w.app.nodes) key sent
            (ap (λ j. key_of (lookup j w.app.nodes)) same ∙ h)
            (check-accepted c metadata sent w accepted))
        (ap (λ (v : World P). key_of (lookup id v.app.nodes)) (check-world c metadata sent w) ∙ h)
  join_section-Sound (activating c metadata sent) w a h =
      advance-Sound (entering c metadata sent) _ (λ _. a)
        (ap (λ m. key_of (lookup id m)) (activate_session-nodes c w) ∙ h)
  join_section-Sound (entering c metadata sent) w a h =
      let node = node_record c metadata sent w in
      record {
        agrees = tt;
        has_key =
            ap key_of (sym (lookup-insert c.node_id id node w.app.nodes))
            ∙ key_of-inserted (c.node_id == id) node (lookup id w.app.nodes) key
                (λ e. ap (λ x. some x) (a ((==_iff c.node_id id).0 e))) h;
      }
  join_section-Sound (storing_node c node) w a h =
      advance-Sound (reporting_online c) _ (λ _. tt) (ground arith)
  join_section-Sound (reporting_online c) w a h = record { agrees = tt; has_key = ground arith }
  join_section-Sound joined w a h = record { agrees = tt; has_key = h }
  join_section-Sound (rejected e) w a h = record { agrees = tt; has_key = h }

  Joins-Sound :
      {tasks tasks' : List Joining} {v w : World P}
      → Joins (tasks, v) (tasks', w)
      → All (Agrees id key) tasks
      → HasKey id key v.app
      → All (Agrees id key) tasks' × HasKey id key w.app
  Joins-Sound (start tasks w) a h = (a, h)
  Joins-Sound (arrives tasks w c metadata sent r) a h =
      let (later, known) = Joins-Sound r a h in ((tt, later), known)
  Joins-Sound (moves before after task w r) a h =
      let (later, known) = Joins-Sound r a h in
      let s = join_section-Sound task w (of-All (Agrees id key) before after task later) known in
      (
        replaced-All (Agrees id key) before after task (join_section task w).0 later
            (λ _. s.agrees),
        s.has_key,
      )
  Joins-Sound (beats tasks w node_id snapshot r) a h =
      let (later, known) = Joins-Sound r a h in
      (later, record_heartbeat-HasKey id key node_id snapshot w known)
  Joins-Sound (leaves tasks w c r) a h =
      let (later, known) = Joins-Sound r a h in (later, leave-HasKey id key c w known)

  -- A node that has a key keeps it while any number of sessions join, whatever keys these send and
  -- however their sections interleave with each other, with heartbeats and with the ends of sessions, and
  -- whatever the store refuses. At the start no session of the node may have passed the check of the key
  -- with another key and not have entered the node yet.
  pub Joins-public_key :
      {tasks tasks' : List Joining} {v w : World P}
      → Joins (tasks, v) (tasks', w)
      → All (Agrees id key) tasks
      → HasKey id key v.app
      → HasKey id key w.app
  Joins-public_key r a h = (Joins-Sound r a h).1
