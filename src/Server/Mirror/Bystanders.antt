-- ===== src/Server/Mirror/Bystanders.antt =====
-- The operations of crates/ongrok-relay-server/src/server.rs that leave the stored services alone.
use ongrok_relay.Prelude.{
  ℕ, ◌≡◌, refl, sym, ap, map_err, lift, modify, ◌∙◌, subst, List, [], ◌∷◌, Option, none, some, Text,
  ok, err, Fallible, M, after, keep, arith, Result-cases, Bool-cases, inl, inr,
}
use ongrok_relay.Prelude.Int.{ℤ}
use ongrok_relay.Libongrok.Validation.{validate, validation_message}
use ongrok_relay.BTree.{lookup, insert}
use ongrok_relay.Libongrok.Types.{
  EventKind, TokenKind, NodeRecord, NodeMetadata, HeartbeatSnapshot, ControlEvent,
}
use ongrok_relay.Server.State.{
  Platform, World, ActiveSession, record_event, activate_session, validate_node_identity, persist,
  set_token, ClientSession, now_unix_ms,
}
use ongrok_relay.Server.Revocation.{
  of_kind, remove_all, mark_offline, close_all, report_offline, disconnect, replace_token,
}
use ongrok_relay.Server.Session.{
  Client, record_heartbeat, join, leave, drop_session, store_heartbeat, node_record, report_left,
  is_current,
}
use ongrok_relay.Server.Mirror.{Durable, Mirrors}

module _ {P : Platform} (D : Durable P.store) where
  abbrev pub rows_of : World P → D.Rows
  rows_of w = D.rows w.app.store

  abbrev IsQuiet : {A : Type 0} → M (World P) A → Type 0
  IsQuiet m = (w : World P) → rows_of (m w).1 ≡ rows_of w

  then-rows_of :
      {A B : Type 0} (w : World P) (r : Fallible A × World P) (f : A → M (World P) B)
      → rows_of r.1 ≡ rows_of w
      → ((a : A) → IsQuiet (f a))
      → rows_of (after r f).1 ≡ rows_of w
  then-rows_of w (ok a, v) f same rest = rest a v ∙ same
  then-rows_of w (err e, v) f same rest = same

  persist-IsQuiet :
      (f : P.store.Db → Fallible P.store.Db)
      → ((db db' : P.store.Db) → f db ≡ ok db' → D.rows db' ≡ D.rows db)
      → IsQuiet (persist f)
  persist-IsQuiet f law w = elim (Result-cases (f w.app.store)) [
    | inl (db, done) ↦ rw (done, persist) (law w.app.store db done)
    | inr (e, failed) ↦ rw (failed, persist) refl
  ]

  pub rows_of-record_event :
      (kind : EventKind) (n i : Option ℕ) (t : Option TokenKind) (w : World P)
      → rows_of (record_event kind n i t w) ≡ rows_of w
  unfolding record_event
  rows_of-record_event kind n i t w =
      let event : ControlEvent = record {
        event_id = P.uuid w.drawn;
        occurred_at_unix_ms = now_unix_ms w;
        kind = kind;
        node_id = n;
        service_id = i;
        token_kind = t;
      } in
      elim (Result-cases (P.store.put_event w.app.store event)) [
        | inl (db, done) ↦ rw (done, record_event) (D.put_event w.app.store db event done)
        | inr (e, failed) ↦ rw (failed, record_event) refl
      ]

  close_all-IsQuiet : (l : List (ℕ × ActiveSession)) → IsQuiet (close_all l)
  unfolding close_all
  close_all-IsQuiet [] w = refl
  close_all-IsQuiet ((k, session) ∷ rest) w =
      close_all-IsQuiet rest (record w { closed = session.connection ∷ w.closed })

  put_node-IsQuiet : (n : NodeRecord) → IsQuiet (persist (λ db. P.store.put_node db n))
  put_node-IsQuiet n = persist-IsQuiet (λ db. P.store.put_node db n) (λ db db'. D.put_node db db' n)

  report_offline-IsQuiet : (l : List NodeRecord) → IsQuiet (report_offline l)
  unfolding report_offline
  report_offline-IsQuiet [] w = refl
  report_offline-IsQuiet (n ∷ rest) w =
      then-rows_of w (persist (λ db. P.store.put_node db n) w) _ (put_node-IsQuiet n w) (λ _ v.
        report_offline-IsQuiet rest _
        ∙ rows_of-record_event EventKind.node_offline (some n.node_id) none none v)

  disconnect-IsQuiet : (kind : TokenKind) → IsQuiet (disconnect kind)
  unfolding disconnect
  disconnect-IsQuiet kind w =
      let gone = keep (of_kind kind) w.app.sessions in
      let w' : World P = record w {
        app = record (w.app) { sessions = remove_all gone w.app.sessions };
      } in
      then-rows_of w (close_all gone w') _ (close_all-IsQuiet gone w')
        (λ _ v. report_offline-IsQuiet (mark_offline gone w.app.nodes).1 _)

  pub replace_token-rows_of :
      (kind : TokenKind) (hash : Option Text) → IsQuiet (replace_token kind hash)
  unfolding replace_token
  replace_token-rows_of kind hash w =
      let tokens = set_token w.app.tokens kind hash in
      let store = λ (db : P.store.Db). P.store.put_tokens db tokens in
      then-rows_of w (persist store w) _
        (persist-IsQuiet store (λ db db'. D.put_tokens db db' tokens) w)
        (λ _ v. disconnect-IsQuiet kind _)

  store_heartbeat-IsQuiet :
      (node_id : ℕ) (at : ℤ) (rtt_ms : ℕ) (snapshot : HeartbeatSnapshot) (o : Option NodeRecord)
      → IsQuiet (store_heartbeat node_id at rtt_ms snapshot o)
  store_heartbeat-IsQuiet node_id at rtt_ms snapshot none w = refl
  store_heartbeat-IsQuiet node_id at rtt_ms snapshot (some node) w =
      then-rows_of w (persist (λ db. P.store.put_node db node) w) _ (put_node-IsQuiet node w)
        (λ _. persist-IsQuiet _ (λ db db'. D.put_metric db db' _))

  pub record_heartbeat-rows_of :
      (node_id : ℕ) (snapshot : HeartbeatSnapshot) → IsQuiet (record_heartbeat node_id snapshot)
  unfolding record_heartbeat
  record_heartbeat-rows_of node_id snapshot w = store_heartbeat-IsQuiet node_id _ _ snapshot _ _

  validate-IsQuiet : (node_id : ℕ) (key : Text) → IsQuiet (validate_node_identity node_id key)
  unfolding validate_node_identity
  validate-IsQuiet node_id key w = ground arith

  activate-IsQuiet :
      (node_id session_id : ℕ) (kind : TokenKind) (connection : ClientSession)
      → IsQuiet (activate_session node_id session_id kind connection)
  unfolding activate_session
  activate-IsQuiet node_id session_id kind connection w = ground arith

  announced :
      (c : Client) (node : NodeRecord) (w : World P)
      → rows_of
          (after
            (persist
              (λ db. P.store.put_node db node)
              (record w { app = record (w.app) { nodes = insert c.node_id node w.app.nodes } }))
            (λ _. modify (record_event EventKind.node_online (some c.node_id) none none))).1
        ≡ rows_of w
  announced c node w =
      let w' : World P = record w {
        app = record (w.app) { nodes = insert c.node_id node w.app.nodes };
      } in
      then-rows_of w (persist (λ db. P.store.put_node db node) w') _ (put_node-IsQuiet node w')
        (λ _. rows_of-record_event EventKind.node_online (some c.node_id) none none)

  pub join-rows_of :
      (c : Client) (metadata : NodeMetadata) (key : Text) → IsQuiet (join c metadata key)
  unfolding join
  join-rows_of c metadata key w =
      then-rows_of w (lift (map_err validation_message (validate metadata.metadata)) w) _ refl
        λ _ u.
          then-rows_of u (validate_node_identity c.node_id key u) _
            (validate-IsQuiet c.node_id key u)
            λ _ v.
              then-rows_of v (activate_session c.node_id c.session_id c.token_kind c.connection v) _
                (activate-IsQuiet c.node_id c.session_id c.token_kind c.connection v)
                (λ _ x. announced c (node_record c metadata key x) x)

  report_left-IsQuiet : (node_id : ℕ) (o : Option NodeRecord) → IsQuiet (report_left node_id o)
  report_left-IsQuiet node_id none w = refl
  report_left-IsQuiet node_id (some node) w =
      then-rows_of w (persist (λ db. P.store.put_node db node) w) _ (put_node-IsQuiet node w)
        (λ _. rows_of-record_event EventKind.node_offline (some node_id) none none)

  pub leave-rows_of : (c : Client) → IsQuiet (leave c)
  unfolding leave drop_session
  leave-rows_of c w =
      elim (Bool-cases (is_current c.session_id (lookup c.node_id w.app.sessions))) [
        | inl current ↦ rw (current, leave) (report_left-IsQuiet c.node_id _ _)
        | inr other ↦ rw (other, leave) refl
      ]

  -- An operation that changes neither the services nor their rows keeps the two the same.
  pub quiet-Mirrors :
      (w v : World P)
      → rows_of v ≡ rows_of w
      → v.app.services ≡ w.app.services
      → Mirrors D w.app
      → Mirrors D v.app
  quiet-Mirrors w v r s m = record {
    table = subst D.IsTable (sym r) m.table;
    same = λ k. ap (λ x. D.view x k) r ∙ m.same k ∙ ap (λ x. lookup k x) (sym s);
  }
