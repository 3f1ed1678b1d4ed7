-- ===== src/Server/Tests.antt =====
-- Data for tests of the server: a relay with a store that counts its writes.
pub mod Examples
pub mod Outcomes
use ongrok_relay.Prelude.{
  ℕ, suc, ◌-◌, min, ◌+◌, ◌≡◌, ◌≢◌, refl, ◌⊎◌, Bool, true, false, List, [], ◌∷◌, ◌++◌, Option, none,
  some, Text, text, text_eq, ◌==◌, any, if◌then◌else◌, is_some, is_ok, Result, ok, err, Error,
  Fallible, arith,
}
use mathlib.Core.Option
use ongrok_relay.Prelude.Int.{ℤ, pos, negsuc}
use ongrok_relay.BTree.{BTreeMap, lookup, insert, update, remove}
use ongrok_relay.BTree.Order.{IsSorted}
use ongrok_relay.Libongrok.Types.{
  TokenKind, admin, user, Protocol, TransportKind, Metadata, NodeMetadata, NodeRecord, NodeStatus,
  ServiceDefinition, HeartbeatSnapshot, Frame,
}
use ongrok_relay.Libongrok.Tokens.{generate_token, hash_token}
use ongrok_relay.Server.State.{
  StoreOps, Platform, AppState, World, TokenState, ClientSession, ActiveSession, activate_session,
  set_token,
}
use ongrok_relay.Server.Registry.Invariant.{
  IsValid, register_service-IsValid, unregister_service-IsValid,
}
use ongrok_relay.Server.Registry.{register_service, unregister_service, admit, is_previous}
use ongrok_relay.Server.Session.{Peer, Client, handle_frame}
use ongrok_relay.Server.Api.{Request, Formats, Method}
use ongrok_relay.Server.System.{Step, Reach, Reach-IsValid}

abbrev pub counting_store : StoreOps
counting_store = record {
  Db = ℕ;
  put = λ db s. ok (suc db);
  delete = λ db id. ok (suc db);
  put_node = λ db n. ok (suc db);
  put_metric = λ db m. ok (suc db);
  put_event = λ db e. ok (suc db);
  put_tokens = λ db t. ok (suc db);
  load_services = λ db. ok [];
  load_nodes = λ db. ok [];
  load_or_initialize_tokens = λ db a u. ok (record { admin_hash = some a; user_hash = some u }, db);
  metrics_for_node = λ db id. ok [];
  recent_events = λ db n. ok [];
}

-- A hash is its token, and a port can be bound once.
abbrev pub relay : Platform
relay = record {
  store = counting_store;
  blake3 = λ t. t;
  bind = λ ports port. if any (λ p. p == port) ports then err (text "in use") else ok tt;
  uuid = λ n. n + 100;
}

abbrev pub no_metadata : Metadata
no_metadata = record { entries = [] }

abbrev pub machine : NodeMetadata
machine = record {
  hostname = text "host";
  os = text "linux";
  arch = text "x86_64";
  client_version = text "1";
  metadata = no_metadata;
}

abbrev pub node : ℕ → Option Text → NodeRecord
node node_id key = record {
  node_id = node_id;
  public_key = key;
  metadata = machine;
  public_ip = text "10.0.0.1";
  source_port = 4000;
  transport = TransportKind.quic;
  status = NodeStatus.online;
  connected_at_unix_ms = pos 1;
  last_heartbeat_at_unix_ms = none;
  rtt_ms = none;
}

abbrev pub service : ℕ → Text → ℕ → Protocol → ServiceDefinition
service service_id name node_id protocol = record {
  service_id = service_id;
  service_name = name;
  node_id = node_id;
  protocol = protocol;
  local_address = text "127.0.0.1:80";
  public_host = none;
  public_port = none;
  metadata = no_metadata;
}

abbrev pub session : ℕ → TokenKind → ActiveSession
session id kind = record { id = id; token_kind = kind; connection = ClientSession.quic id }

abbrev pub state :
    BTreeMap ServiceDefinition → BTreeMap NodeRecord → BTreeMap ActiveSession → AppState relay
state services nodes sessions = record {
  tokens = record { admin_hash = some (text "admin-token"); user_hash = some (text "user-token") };
  services = services;
  nodes = nodes;
  sessions = sessions;
  tcp_ingress_tasks = [];
  public_host = text "relay.example";
  http_domain = some (text "example");
  tcp_port_start = 20000;
  tcp_port_end = 20010;
  store = 0;
}

abbrev pub world_of : AppState relay → World relay
world_of s = record { app = s; now = 5000; drawn = 0; closed = [] }

abbrev pub empty : World relay
empty = world_of (state [] [] [])

-- Node 3 is online, with a session of each kind of token in the server.
abbrev pub busy : World relay
busy = world_of (
    state [] ((3, node 3 (some (text "key"))) ∷ [])
      ((3, session 30 user) ∷ (4, session 40 admin) ∷ []))

abbrev pub peer : World relay → Peer relay
peer w = record { world = w; sent = []; budget = 9 }

abbrev pub member : Client
member = record {
  node_id = 3;
  session_id = 30;
  token_kind = user;
  connection = ClientSession.quic 30;
  public_ip = text "10.0.0.1";
  source_port = 4000;
  transport = TransportKind.quic;
}

abbrev pub ssh : ServiceDefinition
ssh = service 7 (text "ssh") 3 Protocol.tcp

abbrev pub formats : Formats
formats = record {
  token_mutation = λ t. some user;
  service_create = λ t. none;
  service_patch = λ t. none;
  parse_uuid = λ t. some 7;
  uuid_text = λ n. text "id";
  random = λ n. n ∷ [];
}

abbrev pub deletion : Request
deletion = record {
  method = Method.delete;
  path = text "/v1/services/7";
  authorization = some (text "Bearer user-token");
  body = ok [];
}

pub empty-IsValid : IsValid empty.app
unfolding lookup
empty-IsValid = record {
  sorted = tt;
  entries = λ k b e. absurd cc;
  names = λ i j a b e. absurd cc;
  ports = λ i j a b e. absurd cc;
}
