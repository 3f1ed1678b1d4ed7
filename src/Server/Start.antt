-- ===== src/Server/Start.antt =====
-- The start of the server: the commands of `run_cli` and the beginning of `run`, of
-- crates/ongrok-relay-server/src/server.rs, and `validate_tls_material` of config.rs beside it. The
-- listeners that `run` starts are in `Server.Listeners`, and what it does with them in `Server.Serving`.
pub mod Restored
pub mod Tests
use ongrok_relay.Prelude.{
  ℕ, Bool, true, false, List, [], ◌∷◌, ◌++◌, Option, none, some, Text, text, keep, ok, err, Error,
  Fallible, bind, context, or_fail, if◌then◌else◌, M, ◌>>=◌, ◌>>◌, pure, get,
}
use ongrok_relay.BTree.{BTreeMap, values}
use ongrok_relay.Libongrok.Types.{ServiceDefinition, NodeRecord, TokenKind, is_tcp}
use ongrok_relay.Libongrok.Tokens.{hash_token, generate_token}
use ongrok_relay.Server.State.{Platform, AppState, World, TokenState}
use ongrok_relay.Server.Relay.{ensure_tcp_ingress}
use ongrok_relay.Server.Config.{RunOptions, TokenKindArg, token_kind, validate_run_options}

-- What rustls and quinn make of the files of the certificate and of its key.
pub record TlsFiles : Type 0 where
  pub cert_opened : Fallible (Unit {0})
  pub certificates : Fallible (List Text)
  pub key_opened : Fallible (Unit {0})
  pub key : Fallible (Option Text)
  pub versions : Fallible (Unit {0})
  pub single_cert : Fallible (Unit {0})
  pub quic : Fallible (Unit {0})

abbrev chain : List Text → Fallible (Unit {0})
chain [] = err (text "TLS certificate chain is empty")
chain (_ ∷ _) = ok tt

unfoldable pub validate_tls_material : Text → Text → TlsFiles → Fallible (Unit {0})
validate_tls_material cert_path key_path files =
    bind (context files.cert_opened (text "failed to open " ++ cert_path)) (λ _.
      bind (context files.certificates (text "failed to parse TLS certificate chain"))
        (λ certificates. bind (chain certificates) (λ _.
          bind (context files.key_opened (text "failed to open " ++ key_path)) (λ _.
            bind (context files.key (text "failed to parse TLS private key")) (λ found.
              bind (or_fail found (text "TLS private key is missing")) (λ _. configured))))))
  where
    configured : Fallible (Unit {0})
    configured =
        bind (context files.versions (text "failed to configure TLS protocol versions")) (λ _.
          bind (context files.single_cert (text "TLS certificate and private key do not match"))
            (λ _. context files.quic (text "failed to configure QUIC TLS")))

abbrev pub is_tcp_service : ServiceDefinition → Bool
is_tcp_service service = is_tcp service.protocol

abbrev restored : {S : Type 0} → (ℕ → Text) → ServiceDefinition → M S (Unit {0}) → M S (Unit {0})
restored uuid_text service m s = (
  context (m s).0
      (text "failed to restore TCP ingress for persisted service " ++ uuid_text service.service_id),
  (m s).1,
)

module _ {P : Platform} (uuid_text : ℕ → Text) where
  unfoldable pub restore_all : List ServiceDefinition → M (World P) (Unit {0})
  restore_all [] = pure tt
  restore_all (service ∷ rest) =
      restored uuid_text service (ensure_tcp_ingress service) >> restore_all rest

  -- `run`, up to the start of the listeners.
  unfoldable pub restore : M (World P) (Unit {0})
  unfolding restore_all
  restore = do w ← get; restore_all (keep is_tcp_service (values w.app.services))

module _ {P : Platform} where
  abbrev initial :
      RunOptions
      → BTreeMap ServiceDefinition
      → BTreeMap NodeRecord
      → TokenState
      → P.store.Db
      → AppState P
  initial options services nodes tokens db = record {
    tokens = tokens;
    services = services;
    nodes = nodes;
    sessions = [];
    tcp_ingress_tasks = [];
    public_host = options.public_host;
    http_domain = options.http_domain;
    tcp_port_start = options.tcp_port_start;
    tcp_port_end = options.tcp_port_end;
    store = db;
  }

  -- `Command::Run`, up to `run`. `opened` is what `ServiceStore::open` gives.
  unfoldable pub prepare : RunOptions → TlsFiles → Fallible P.store.Db → Fallible (AppState P)
  unfolding validate_tls_material
  prepare options files opened = bind (validate_run_options options) (λ _.
      bind (validate_tls_material options.tls_cert options.tls_key files) (λ _. bind opened (λ db.
        bind (P.store.load_services db) (λ services. bind (P.store.load_nodes db) (λ nodes.
          bind
            (P.store.load_or_initialize_tokens db (hash_token P.blake3 options.admin_token)
              (hash_token P.blake3 options.user_token))
            (λ (tokens, db'). ok (initial options services nodes tokens db')))))))

-- The other commands. `init` gives the two tokens that it prints; `opened` is what
-- `ServiceStore::open` gives, and `random` are the bytes of the tokens.
module _ (blake3 : Text → Text) where
  unfoldable pub init_command :
      {Db : Type 0} → Fallible Db → (random : ℕ → Text) → Fallible (Text × Text)
  init_command opened random = bind opened (λ db. ok (
    (generate_token blake3 TokenKind.admin (random 0)).0,
    (generate_token blake3 TokenKind.user (random 1)).0,
  ))

  unfoldable pub token_command : TokenKindArg → (random : Text) → Text
  token_command kind random = (generate_token blake3 (token_kind kind) random).0

-- `exists` is whether there is a file at the database's path, `database` what `Database::open` gives.
unfoldable pub doctor_command :
    (cert_path key_path db_path : Text)
    → TlsFiles
    → Bool
    → Fallible (Unit {0})
    → Fallible (Unit {0})
unfolding validate_tls_material
doctor_command cert_path key_path db_path files exists database =
    bind (validate_tls_material cert_path key_path files) (λ _.
      if exists
      then context database (text "failed to open database " ++ db_path)
      else err (text "database does not exist: " ++ db_path))
