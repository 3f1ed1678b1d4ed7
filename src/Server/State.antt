-- ===== src/Server/State.antt =====
-- state.rs of crates/ongrok-relay-server/src: the tokens, services, nodes and sessions in memory.
-- The store's operations are an interface, which `Server.Store` implements over redb. Sockets, the
-- clock, blake3 and the source of identifiers are parameters.
use ongrok_relay.Prelude.{
  ℕ, suc, Bool, false, List, ◌∷◌, Option, none, some, Text, text, text_eq, if◌then◌else◌, ok, err,
  Fallible, M, ◌>>=◌, ◌>>◌, pure, get, modify, not,
}
use ongrok_relay.Prelude.Int.{ℤ, pos}
use ongrok_relay.BTree.{BTreeMap, lookup, insert}
use ongrok_relay.Libongrok.Types.{
  TokenKind, admin, user, ServiceDefinition, NodeRecord, NodeMetric, ControlEvent, EventKind,
}

pub record TokenState : Type 0 where
  pub admin_hash : Option Text
  pub user_hash : Option Text

-- The connection of a session, by a number for the object that the source holds.
pub data ClientSession : Type 0 where
  quic yamux : ℕ → ClientSession

pub record ActiveSession : Type 0 where
  pub id : ℕ
  pub token_kind : TokenKind
  pub connection : ClientSession

-- The operations of `ServiceStore` that the server calls. One that fails leaves the database as it
-- was: each is one transaction.
pub record StoreOps : Type 1 where
  pub Db : Type 0
  pub put : Db → ServiceDefinition → Fallible Db
  pub delete : Db → ℕ → Fallible Db
  pub put_node : Db → NodeRecord → Fallible Db
  pub put_metric : Db → NodeMetric → Fallible Db
  pub put_event : Db → ControlEvent → Fallible Db
  pub put_tokens : Db → TokenState → Fallible Db
  pub load_services : Db → Fallible (BTreeMap ServiceDefinition)
  pub load_nodes : Db → Fallible (BTreeMap NodeRecord)
  pub load_or_initialize_tokens : Db → (admin_hash user_hash : Text) → Fallible (TokenState × Db)
  pub metrics_for_node : Db → ℕ → Fallible (List NodeMetric)
  pub recent_events : Db → ℕ → Fallible (List ControlEvent)

-- What the server asks of the rest of the system. `bind ports port` opens a listener on `port` while
-- the server listens on `ports`; `uuid n` is the n-th identifier that it draws.
pub record Platform : Type 1 where
  pub store : StoreOps
  pub blake3 : Text → Text
  pub bind : List ℕ → ℕ → Fallible (Unit {0})
  pub uuid : ℕ → ℕ

-- A task of TCP ingress is the port that its listener holds. `store` is the database's contents.
pub record AppState (P : Platform) : Type 0 where
  pub tokens : TokenState
  pub services : BTreeMap ServiceDefinition
  pub nodes : BTreeMap NodeRecord
  pub sessions : BTreeMap ActiveSession
  pub tcp_ingress_tasks : BTreeMap ℕ
  pub public_host : Text
  pub http_domain : Option Text
  pub tcp_port_start : ℕ
  pub tcp_port_end : ℕ
  pub store : P.store.Db

-- The state, the clock in milliseconds, how many identifiers were drawn, and the connections that
-- the server has closed, the last one first.
pub record World (P : Platform) : Type 0 where
  pub app : AppState P
  pub now : ℕ
  pub drawn : ℕ
  pub closed : List ClientSession

abbrev option_eq : Option Text → Text → Bool
option_eq none t = false
option_eq (some s) t = text_eq s t

-- `TokenState::authenticate`.
unfoldable pub authenticate_hash : TokenState → Text → Option TokenKind
authenticate_hash tokens token_hash =
    if option_eq tokens.admin_hash token_hash
    then some admin
    else if option_eq tokens.user_hash token_hash
    then some user
    else none

-- `TokenState::set`.
unfoldable pub set_token : TokenState → TokenKind → Option Text → TokenState
set_token tokens admin token_hash = record tokens { admin_hash = token_hash }
set_token tokens user token_hash = record tokens { user_hash = token_hash }

abbrev pub key_differs : Option Text → Text → Bool
key_differs none key = false
key_differs (some existing) key = not (text_eq existing key)

abbrev pub is_impostor : Option NodeRecord → Text → Bool
is_impostor none key = false
is_impostor (some existing) key = key_differs existing.public_key key

module _ {P : Platform} where
  abbrev pub with_app : (AppState P → AppState P) → M (World P) (Unit {0})
  with_app f = modify (λ w. record w { app = f w.app })

  -- A write to the store, whose error leaves the function by `?`.
  abbrev pub persist : (P.store.Db → Fallible P.store.Db) → M (World P) (Unit {0})
  persist f w = persisted (f w.app.store) w
    where
      persisted : Fallible P.store.Db → World P → Fallible (Unit {0}) × World P
      persisted (ok db) w = (ok tt, record w { app = record (w.app) { store = db } })
      persisted (err e) w = (err e, w)

  abbrev pub now_unix_ms : World P → ℤ
  now_unix_ms w = pos w.now

  -- `TunnelId::new()`, `ServiceId::new()`, `EventId::new()`.
  abbrev pub new_id : M (World P) ℕ
  new_id w = (ok (P.uuid w.drawn), record w { drawn = suc w.drawn })

  -- `ClientSession::close`.
  abbrev pub close : ClientSession → M (World P) (Unit {0})
  close connection = modify (λ w. record w { closed = connection ∷ w.closed })

  abbrev close_replaced : Option ActiveSession → M (World P) (Unit {0})
  close_replaced none = pure tt
  close_replaced (some previous) = close previous.connection

  unfoldable pub activate_session : ℕ → ℕ → TokenKind → ClientSession → M (World P) (Unit {0})
  activate_session node_id session_id token_kind connection = do
    w ← get
    let session : ActiveSession = record {
      id = session_id;
      token_kind = token_kind;
      connection = connection;
    }
    with_app (λ s. record s { sessions = insert node_id session s.sessions })
    close_replaced (lookup node_id w.app.sessions)

  unfoldable pub validate_node_identity : ℕ → Text → M (World P) (Unit {0})
  validate_node_identity node_id public_key w =
      if is_impostor (lookup node_id w.app.nodes) public_key
      then (err (text "node public key does not match persisted identity"), w)
      else (ok tt, w)

  -- The error of the store is logged only.
  unfoldable pub record_event :
      EventKind → Option ℕ → Option ℕ → Option TokenKind → World P → World P
  record_event kind node_id service_id token_kind w =
      let event : ControlEvent = record {
        event_id = P.uuid w.drawn;
        occurred_at_unix_ms = now_unix_ms w;
        kind = kind;
        node_id = node_id;
        service_id = service_id;
        token_kind = token_kind;
      } in
      let w' : World P = record w { drawn = suc w.drawn } in
      elim (P.store.put_event w.app.store event) [
        | ok db ↦ record w' { app = record (w.app) { store = db } }
        | err e ↦ w'
      ]
