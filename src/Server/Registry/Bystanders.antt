-- ===== src/Server/Registry/Bystanders.antt =====
-- The operations of crates/ongrok-relay-server/src/server.rs on sessions, nodes and tokens, and what
-- they have to do with the registry.
use ongrok_relay.Prelude.{
  ℕ, ◌≡◌, sym, subst, List, [], ◌∷◌, Option, none, some, Text, ok, err, Fallible, M, after, keep,
  arith,
}
use ongrok_relay.Libongrok.Types.{EventKind, TokenKind, NodeRecord, NodeMetadata, HeartbeatSnapshot}
use ongrok_relay.Server.State.{
  Platform, AppState, World, ActiveSession, record_event, activate_session, validate_node_identity,
  persist, set_token,
}
use ongrok_relay.Server.Registry.Cases.{SameConfig}
use ongrok_relay.Server.Registry.Invariant.{IsRegistry, IsValid, SameConfig-IsRegistry}
use ongrok_relay.Server.Revocation.{
  of_kind, remove_all, mark_offline, close_all, report_offline, disconnect, replace_token,
}
use ongrok_relay.Server.Session.{Client, record_heartbeat, join, leave}

module _ {P : Platform} where
  pub record SameRegistry (s t : AppState P) : Type 0 where
    pub config : SameConfig s t
    pub services : t.services ≡ s.services

  pub SameRegistry-refl : (s : AppState P) → SameRegistry s s
  SameRegistry-refl s = ground arith

  pub SameRegistry-trans :
      (s t u : AppState P) → SameRegistry s t → SameRegistry t u → SameRegistry s u
  SameRegistry-trans s t u a b = ground arith

  pub SameRegistry-IsValid : (s t : AppState P) → SameRegistry s t → IsValid s → IsValid t
  SameRegistry-IsValid s t same v =
      subst (IsRegistry t) (sym same.services) (SameConfig-IsRegistry s t _ same.config v)

  -- An operation that leaves the registry alone, whatever it returns.
  abbrev pub IsBystander : {A : Type 0} → M (World P) A → Type 0
  IsBystander m = (w : World P) → SameRegistry w.app (m w).1.app

  then-SameRegistry :
      {A B : Type 0} (s : AppState P) (r : Fallible A × World P) (f : A → M (World P) B)
      → SameRegistry s r.1.app
      → ((a : A) → IsBystander (f a))
      → SameRegistry s (after r f).1.app
  then-SameRegistry s (ok a, w) f same rest = SameRegistry-trans s _ _ same (rest a w)
  then-SameRegistry s (err e, w) f same rest = same

  pub persist-IsBystander : (f : P.store.Db → Fallible P.store.Db) → IsBystander (persist f)
  persist-IsBystander f w = ground arith

  pub record_event-SameRegistry :
      (kind : EventKind) (n i : Option ℕ) (t : Option TokenKind) (w : World P)
      → SameRegistry w.app (record_event kind n i t w).app
  unfolding record_event
  record_event-SameRegistry kind n i t w = ground arith

  close_all-IsBystander : (l : List (ℕ × ActiveSession)) → IsBystander (close_all l)
  unfolding close_all
  close_all-IsBystander [] w = SameRegistry-refl w.app
  close_all-IsBystander ((k, session) ∷ rest) w =
      close_all-IsBystander rest (record w { closed = session.connection ∷ w.closed })

  report_offline-IsBystander : (l : List NodeRecord) → IsBystander (report_offline l)
  unfolding report_offline
  report_offline-IsBystander [] w = SameRegistry-refl w.app
  report_offline-IsBystander (n ∷ rest) w =
      then-SameRegistry w.app (persist (λ db. P.store.put_node db n) w) _
        (persist-IsBystander (λ db. P.store.put_node db n) w)
        (λ _ v.
          SameRegistry-trans v.app _ _
            (record_event-SameRegistry EventKind.node_offline (some n.node_id) none none v)
            (report_offline-IsBystander rest _))

  disconnect-IsBystander : (kind : TokenKind) → IsBystander (disconnect kind)
  unfolding disconnect
  disconnect-IsBystander kind w =
      let gone = keep (of_kind kind) w.app.sessions in
      let w' : World P = record w {
        app = record (w.app) { sessions = remove_all gone w.app.sessions };
      } in
      then-SameRegistry w.app (close_all gone w') _
        (SameRegistry-trans w.app w'.app _ (ground arith) (close_all-IsBystander gone w'))
        (λ _ v.
          SameRegistry-trans v.app _ _ (ground arith)
            (report_offline-IsBystander (mark_offline gone w.app.nodes).1 _))

  pub replace_token-IsBystander :
      (kind : TokenKind) (hash : Option Text) → IsBystander (replace_token kind hash)
  unfolding replace_token
  replace_token-IsBystander kind hash w =
      let store = λ (db : P.store.Db). P.store.put_tokens db (set_token w.app.tokens kind hash) in
      then-SameRegistry w.app (persist store w) _ (persist-IsBystander store w)
        (λ _ v. SameRegistry-trans v.app _ _ (ground arith) (disconnect-IsBystander kind _))

  pub record_heartbeat-IsBystander :
      (node_id : ℕ) (snapshot : HeartbeatSnapshot) → IsBystander (record_heartbeat node_id snapshot)
  unfolding record_heartbeat
  record_heartbeat-IsBystander node_id snapshot w = ground arith

  pub join-IsBystander :
      (c : Client) (metadata : NodeMetadata) (key : Text) → IsBystander (join c metadata key)
  unfolding join validate_node_identity activate_session record_event
  join-IsBystander c metadata key w = ground arith

  pub leave-IsBystander : (c : Client) → IsBystander (leave c)
  unfolding leave record_event
  leave-IsBystander c w = ground arith
