-- ===== src/Server/Api.antt =====
-- The requests, answers and shapes of the control API: api_models.rs and the helpers at the end of
-- crates/ongrok-relay-server/src/server.rs. JSON and the text of a UUID are other crates' formats, so
-- parsing a body is a parameter and an answer is the value that is serialised.
pub mod Services
pub mod Handler
use ongrok_relay.Prelude.{
  ℕ, Bool, true, false, List, [], ◌∷◌, Option, none, some, Text, text, length, ltb, if◌then◌else◌,
  Result, ok, err, Fallible, bind, or_fail,
}
use ongrok_relay.Prelude.Int.{ℤ}
use ongrok_relay.Libongrok.Types.{
  TokenKind, admin, user, Protocol, Metadata, ServiceDefinition, ServiceStatus, TransportKind,
  NodeRecord, NodeMetric, ControlEvent, is_online,
}

pub data Method : Type 0 where
  get post patch delete options : Method

-- A request: `authorization` is the header's text if it is there and is text, and `body` fails if it
-- cannot be read.
pub record Request : Type 0 where
  pub method : Method
  pub path : Text
  pub authorization : Option Text
  pub body : Fallible Text

pub record ServiceView : Type 0 where
  pub service : ServiceDefinition
  pub status : ServiceStatus
  pub transport : Option TransportKind
  pub last_heartbeat_at_unix_ms : Option ℤ
  pub rtt_ms : Option ℕ

pub record ServiceCreateRequest : Type 0 where
  pub service_name : Text
  pub node_id : ℕ
  pub protocol : Protocol
  pub local_address : Text
  pub public_port : Option ℕ
  pub metadata : Metadata

pub data Body : Type 0 where
  error_response : Text → Body
  auth_response : (kind : Text) (capabilities : List Text) (server : Text) → Body
  health_response : (status : Text) → Body
  token_rotation : (kind token : Text) → Body
  token_revocation : (kind : Text) (revoked : Bool) → Body
  events : List ControlEvent → Body
  nodes : List NodeRecord → Body
  node : NodeRecord → Body
  metrics : List NodeMetric → Body
  service : ServiceDefinition → Body
  view : ServiceView → Body
  views : List ServiceView → Body
  deleted : ℕ → Body

pub record Response : Type 0 where
  pub status : ℕ
  pub body : Body

-- Serde's readings of the bodies, the text of a UUID and its reading, and the random bytes of tokens.
pub record Formats : Type 0 where
  pub token_mutation : Text → Option TokenKind
  pub service_create : Text → Option ServiceCreateRequest
  pub service_patch : Text → Option (Option Metadata)
  pub parse_uuid : Text → Option ℕ
  pub uuid_text : ℕ → Text
  pub random : ℕ → Text

abbrev pub json : ℕ → Body → Response
json status body = record { status = status; body = body }

abbrev pub refuse : ℕ → Text → Response
refuse status message = json status (error_response message)

abbrev pub max_api_body_bytes : ℕ
max_api_body_bytes = 16384

unfoldable pub token_kind_name : TokenKind → Text
token_kind_name admin = text "admin"
token_kind_name user = text "user"

-- `ServiceCreateRequest::into_definition`, with the identifier that it draws.
unfoldable pub into_definition : ServiceCreateRequest → ℕ → ServiceDefinition
into_definition r service_id = record {
  service_id = service_id;
  service_name = r.service_name;
  node_id = r.node_id;
  protocol = r.protocol;
  local_address = r.local_address;
  public_host = none;
  public_port = r.public_port;
  metadata = r.metadata;
}

unfoldable pub token_mutation_request : Formats → Request → Fallible TokenKind
token_mutation_request F request = bind request.body (λ bytes.
    if ltb max_api_body_bytes (length bytes)
    then err (text "token mutation request is too large")
    else or_fail (F.token_mutation bytes) (text "failed to decode token mutation request"))

abbrev pub status_of : Bool → ServiceStatus
status_of true = ServiceStatus.online
status_of false = ServiceStatus.offline

-- A service with what is known of its node.
unfoldable pub service_view : ServiceDefinition → Option NodeRecord → ServiceView
service_view s none = record {
  service = s;
  status = ServiceStatus.offline;
  transport = none;
  last_heartbeat_at_unix_ms = none;
  rtt_ms = none;
}
service_view s (some n) = record {
  service = s;
  status = status_of (is_online n.status);
  transport = some n.transport;
  last_heartbeat_at_unix_ms = n.last_heartbeat_at_unix_ms;
  rtt_ms = n.rtt_ms;
}
