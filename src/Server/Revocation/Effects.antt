-- ===== src/Server/Revocation/Effects.antt =====
-- What replacing a token does: `replace_token` and the checks of tokens in
-- crates/ongrok-relay-server/src/server.rs.
use ongrok_relay.Prelude.{
  ℕ, ◌≡◌, refl, sym, ◌∙◌, subst, ◌⊎◌, inl, inr, Bool, false, List, [], ◌∷◌, Option, none, some,
  Text, ok, err, Error, Fallible, keep, arith, Result-cases, if◌then◌else◌, ◌==◌, any,
}
use mathlib.Core.Option
use ongrok_relay.BTree.{BTreeMap, lookup, remove, update}
use ongrok_relay.BTree.Lookup.{lookup-remove, lookup-update}
use ongrok_relay.BTree.Order.{remove-IsSorted, IsSorted, Above}
use ongrok_relay.Libongrok.Types.{TokenKind, NodeRecord, kind_eq, EventKind}
use ongrok_relay.Server.State.{
  Platform, World, ActiveSession, ClientSession, set_token, record_event,
}
use ongrok_relay.Server.Revocation.{
  of_kind, remove_all, offline, mark_offline, close_all, report_offline, disconnect, replace_token,
}

-- What becomes of a session when the tokens of a kind are replaced.
abbrev pub survivor : TokenKind → Option ActiveSession → Option ActiveSession
survivor kind none = none
survivor kind (some session) = if kind_eq session.token_kind kind then none else some session

-- A node whose session is gone is marked; the others keep their record.
abbrev has_key : ℕ → ℕ × ActiveSession → Bool
has_key k e = e.0 == k

lookup-remove_all :
    (k : ℕ) (gone : List (ℕ × ActiveSession)) (m : BTreeMap ActiveSession)
    → lookup k (remove_all gone m) ≡ (if any (has_key k) gone then none else lookup k m)
unfolding remove_all
lookup-remove_all k [] m = refl
lookup-remove_all k ((j, s) ∷ gone) m =
    ground (arith, lookup-remove_all k gone (remove j m), lookup-remove j k m)

pub lookup-mark_offline :
    (k : ℕ) (gone : List (ℕ × ActiveSession)) (m : BTreeMap NodeRecord)
    → lookup k (mark_offline gone m).0
      ≡ (if any (has_key k) gone then Option.map offline (lookup k m) else lookup k m)
unfolding mark_offline
lookup-mark_offline k [] m = refl
lookup-mark_offline k ((j, s) ∷ gone) m =
    ground (arith, lookup-mark_offline k gone (update j offline m), lookup-update j k offline m)

any_kind :
    (kind : TokenKind) (k : ℕ) (m : BTreeMap ActiveSession)
    → Above k m
    → any (has_key k) (keep (of_kind kind) m) ≡ false
any_kind kind k [] a = refl
any_kind kind k ((j, s) ∷ m) a = ground (arith, any_kind kind k m)

abbrev pub is_gone : TokenKind → Option ActiveSession → Bool
is_gone kind none = false
is_gone kind (some session) = kind_eq session.token_kind kind

any-keep :
    (kind : TokenKind) (k : ℕ) (m : BTreeMap ActiveSession)
    → IsSorted m
    → any (has_key k) (keep (of_kind kind) m) ≡ is_gone kind (lookup k m)
unfolding lookup
any-keep kind k [] s = refl
any-keep kind k ((j, x) ∷ m) s = ground (arith, any-keep kind k m, any_kind kind k m)

survivor-is_gone :
    (kind : TokenKind) (o : Option ActiveSession)
    → (if is_gone kind o then none else o) ≡ survivor kind o
survivor-is_gone kind none = refl
survivor-is_gone kind (some session) = refl

-- The connections closed after those of a list of sessions.
abbrev pub closed_after : List (ℕ × ActiveSession) → List ClientSession → List ClientSession
closed_after [] closed = closed
closed_after ((_, session) ∷ rest) closed = closed_after rest (session.connection ∷ closed)

remove_all-IsSorted :
    (gone : List (ℕ × ActiveSession)) (m : BTreeMap ActiveSession)
    → IsSorted m
    → IsSorted (remove_all gone m)
unfolding remove_all
remove_all-IsSorted [] m s = s
remove_all-IsSorted ((k, session) ∷ gone) m s =
    remove_all-IsSorted gone (remove k m) (remove-IsSorted k m s)

module _ {P : Platform} where
  -- The same tokens, sessions, nodes and closed connections.
  record Quiet (w v : World P) : Type 0 where
    tokens : v.app.tokens ≡ w.app.tokens
    sessions : v.app.sessions ≡ w.app.sessions
    nodes : v.app.nodes ≡ w.app.nodes
    closed : v.closed ≡ w.closed

  report_offline-Quiet : (l : List NodeRecord) (w : World P) → Quiet w (report_offline l w).1
  unfolding report_offline record_event
  report_offline-Quiet [] w = ground arith
  report_offline-Quiet (n ∷ rest) w = elim (Result-cases (P.store.put_node w.app.store n)) [
    | inr (e, failed) ↦ rw (failed, report_offline) (ground arith)
    | inl (db, stored) ↦
        let w' : World P =
          record_event EventKind.node_offline (some n.node_id) none none
            (record w { app = record (w.app) { store = db } }) in
        let later = report_offline-Quiet rest w' in rw (stored, report_offline) (ground arith)
  ]

  close_all-closed :
      (l : List (ℕ × ActiveSession)) (w : World P)
      → close_all l w ≡ (ok tt, record w { closed = closed_after l w.closed })
  unfolding close_all
  close_all-closed [] w = refl
  close_all-closed ((k, s) ∷ rest) w =
      close_all-closed rest (record w { closed = s.connection ∷ w.closed })

  -- What the server holds once the tokens of a kind are replaced: no session of the kind, every other
  -- session; the nodes of those that went are offline; their connections are closed.
  pub record Replaced (kind : TokenKind) (hash : Option Text) (w v : World P) : Type 0 where
    pub tokens : v.app.tokens ≡ set_token w.app.tokens kind hash
    pub sessions : (k : ℕ) → lookup k v.app.sessions ≡ survivor kind (lookup k w.app.sessions)
    pub nodes :
        (k : ℕ)
        → lookup k v.app.nodes ≡ (
            if is_gone kind (lookup k w.app.sessions)
            then Option.map offline (lookup k w.app.nodes)
            else lookup k w.app.nodes)
    pub closed : v.closed ≡ closed_after (keep (of_kind kind) w.app.sessions) w.closed

  swept : TokenKind → World P → World P
  swept kind w =
      let gone = keep (of_kind kind) w.app.sessions in
      record w {
        app = record (w.app) {
          sessions = remove_all gone w.app.sessions;
          nodes = (mark_offline gone w.app.nodes).0;
        };
        closed = closed_after gone w.closed;
      }

  disconnect-swept :
      (kind : TokenKind) (w : World P)
      → disconnect kind w
        ≡ report_offline
            (mark_offline (keep (of_kind kind) w.app.sessions) w.app.nodes).1
            (swept kind w)
  unfolding disconnect swept
  disconnect-swept kind w =
      rw
        (close_all-closed (keep (of_kind kind) w.app.sessions) (record w {
          app = record (w.app) {
            sessions = remove_all (keep (of_kind kind) w.app.sessions) w.app.sessions;
          };
        }))
        refl

  disconnect-Replaced :
      (kind : TokenKind) (hash : Option Text) (w v : World P)
      → IsSorted w.app.sessions
      → v.app.sessions ≡ w.app.sessions
      → v.app.nodes ≡ w.app.nodes
      → v.closed ≡ w.closed
      → v.app.tokens ≡ set_token w.app.tokens kind hash
      → Replaced kind hash w (disconnect kind v).1
  unfolding swept
  disconnect-Replaced kind hash w v sorted s n c t =
      let gone = keep (of_kind kind) v.app.sessions in
      let quiet : Quiet (swept kind v) (disconnect kind v).1 =
        subst (λ (r : Fallible (Unit {0}) × World P). Quiet (swept kind v) r.1)
          (sym (disconnect-swept kind v))
          (report_offline-Quiet (mark_offline gone v.app.nodes).1 (swept kind v)) in
      record {
        tokens = quiet.tokens ∙ t;
        sessions = λ k. ground (
          arith,
          quiet,
          lookup-remove_all k gone v.app.sessions,
          any-keep kind k w.app.sessions sorted,
          survivor-is_gone kind (lookup k w.app.sessions),
        );
        nodes = λ k. ground (
          arith,
          quiet,
          lookup-mark_offline k gone v.app.nodes,
          any-keep kind k w.app.sessions sorted,
        );
        closed = ground (arith, quiet);
      }

  -- With sorted sessions: replacing the token of a kind fails without a change, if the store does not take the new one.
  -- Otherwise the server holds the new token and, of its sessions, those of the other kind; the nodes
  -- of the others are offline and their connections closed. That is so even if a later write to the
  -- store fails and the caller gets an error.
  pub replace_token-cases :
      (kind : TokenKind) (hash : Option Text) (w : World P)
      → IsSorted w.app.sessions
      → ((e : Error) × (P.store.put_tokens w.app.store (set_token w.app.tokens kind hash) ≡ err e)
          × (replace_token kind hash w ≡ (err e, w)))
        ⊎ ((db : P.store.Db) × (P.store.put_tokens w.app.store (set_token w.app.tokens kind hash)
              ≡ ok db)
            × Replaced kind hash w (replace_token kind hash w).1)
  unfolding replace_token
  replace_token-cases kind hash w sorted =
      elim (Result-cases (P.store.put_tokens w.app.store (set_token w.app.tokens kind hash))) [
        | inr (e, failed) ↦ inl (e, failed, rw (failed, replace_token) refl)
        | inl (db, stored) ↦
            let w' : World P = record w {
              app = record (w.app) { store = db; tokens = set_token w.app.tokens kind hash };
            } in
            inr (
              db,
              stored,
              rw (stored, replace_token)
                  (disconnect-Replaced kind hash w w' sorted refl refl refl refl),
            )
      ]

  disconnect-IsSorted :
      (kind : TokenKind) (v : World P)
      → IsSorted v.app.sessions
      → IsSorted (disconnect kind v).1.app.sessions
  unfolding swept
  disconnect-IsSorted kind v sorted =
      let gone = keep (of_kind kind) v.app.sessions in
      let quiet : Quiet (swept kind v) (disconnect kind v).1 =
        subst (λ (r : Fallible (Unit {0}) × World P). Quiet (swept kind v) r.1)
          (sym (disconnect-swept kind v))
          (report_offline-Quiet (mark_offline gone v.app.nodes).1 (swept kind v)) in
      subst (λ m. IsSorted m) (sym quiet.sessions) (remove_all-IsSorted gone v.app.sessions sorted)

  pub replace_token-IsSorted :
      (kind : TokenKind) (hash : Option Text) (w : World P)
      → IsSorted w.app.sessions
      → IsSorted (replace_token kind hash w).1.app.sessions
  unfolding replace_token
  replace_token-IsSorted kind hash w sorted =
      elim (Result-cases (P.store.put_tokens w.app.store (set_token w.app.tokens kind hash))) [
        | inr (e, failed) ↦ rw (failed, replace_token) sorted
        | inl (db, stored) ↦
            rw (stored, replace_token)
              (disconnect-IsSorted kind
                (record w {
                  app = record (w.app) { store = db; tokens = set_token w.app.tokens kind hash };
                })
                sorted)
      ]
