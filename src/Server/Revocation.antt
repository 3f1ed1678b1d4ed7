-- ===== src/Server/Revocation.antt =====
-- `replace_token`, `authenticate_token` and `authenticate` of crates/ongrok-relay-server/src/server.rs.
-- A lock is never poisoned here: no thread panics while it holds one.
pub mod Effects
pub mod Acceptance
use ongrok_relay.Prelude.{
  ℕ, Bool, List, [], ◌∷◌, Option, none, some, Text, text, strip_prefix, keep, M, ◌>>=◌, ◌>>◌, pure,
  get, modify,
}
use ongrok_relay.BTree.{BTreeMap, lookup, remove, update}
use ongrok_relay.Libongrok.Types.{TokenKind, NodeRecord, NodeStatus, EventKind, kind_eq}
use ongrok_relay.Libongrok.Tokens.{hash_token}
use ongrok_relay.Server.State.{
  Platform, AppState, World, ActiveSession, authenticate_hash, set_token, with_app, persist, close,
  record_event,
}

abbrev pub of_kind : TokenKind → ℕ × ActiveSession → Bool
of_kind kind e = kind_eq e.1.token_kind kind

unfoldable pub remove_all :
    List (ℕ × ActiveSession) → BTreeMap ActiveSession → BTreeMap ActiveSession
remove_all [] sessions = sessions
remove_all ((node_id, _) ∷ rest) sessions = remove_all rest (remove node_id sessions)

abbrev pub offline : NodeRecord → NodeRecord
offline node = record node { status = NodeStatus.offline }

abbrev pub push_some : Option NodeRecord → List NodeRecord → List NodeRecord
push_some none nodes = nodes
push_some (some node) nodes = node ∷ nodes

-- The nodes after each disconnected one is marked, and the records that were marked.
unfoldable pub mark_offline :
    List (ℕ × ActiveSession) → BTreeMap NodeRecord → BTreeMap NodeRecord × List NodeRecord
mark_offline [] nodes = (nodes, [])
mark_offline ((node_id, _) ∷ rest) nodes =
    let nodes' = update node_id offline nodes in
    let (final, marked) = mark_offline rest nodes' in
    (final, push_some (lookup node_id nodes') marked)

module _ {P : Platform} where
  unfoldable pub authenticate_token : Text → World P → Option TokenKind
  authenticate_token token w = authenticate_hash w.app.tokens (hash_token P.blake3 token)

  unfoldable pub authenticate : Option Text → World P → Option TokenKind
  authenticate none w = none
  authenticate (some raw) w = elim (strip_prefix (text "Bearer ") raw) [
    | none ↦ none
    | some token ↦ authenticate_token token w
  ]

  unfoldable pub close_all : List (ℕ × ActiveSession) → M (World P) (Unit {0})
  close_all [] = pure tt
  close_all ((_, session) ∷ rest) = do close session.connection; close_all rest

  unfoldable pub report_offline : List NodeRecord → M (World P) (Unit {0})
  report_offline [] = pure tt
  report_offline (node ∷ rest) = do
    persist (λ db. P.store.put_node db node)
    modify (record_event EventKind.node_offline (some node.node_id) none none)
    report_offline rest

  -- The part of `replace_token` after the new token is stored.
  unfoldable pub disconnect : TokenKind → M (World P) (Unit {0})
  disconnect kind = do
    w ← get
    let disconnected = keep (of_kind kind) w.app.sessions
    with_app (λ s. record s { sessions = remove_all disconnected s.sessions })
    close_all disconnected
    let marked = mark_offline disconnected w.app.nodes
    with_app (λ s. record s { nodes = marked.0 })
    report_offline marked.1

  unfoldable pub replace_token : TokenKind → Option Text → M (World P) (Unit {0})
  replace_token kind hash = do
    w ← get
    let updated = set_token w.app.tokens kind hash
    persist (λ db. P.store.put_tokens db updated)
    with_app (λ s. record s { tokens = updated })
    disconnect kind
