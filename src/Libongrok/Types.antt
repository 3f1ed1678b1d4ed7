-- ===== src/Libongrok/Types.antt =====
-- The identifiers, records and frames of crates/libongrok/src/lib.rs.
-- An identifier is a UUID, as the 128-bit number by whose order `Ord` sorts it. A key or a hash of
-- 32 bytes and a text are lists of bytes. An `f32` that is only carried is its bit pattern.
use ongrok_relay.Prelude.{ℕ, List, Option, Text, Bool, true, false}
use ongrok_relay.Prelude.Int.{ℤ}

pub data TokenKind : Type 0 where
  admin user : TokenKind

pub data Protocol : Type 0 where
  http https tcp : Protocol

pub data TransportKind : Type 0 where
  quic tcp_tls_yamux : TransportKind

pub data ServiceStatus : Type 0 where
  online offline : ServiceStatus

pub data NodeStatus : Type 0 where
  online offline : NodeStatus

pub data EventKind : Type 0 where
  node_online node_offline service_registered service_deleted token_rotated token_revoked :
      EventKind

-- The derived `==` of the enums that the program compares.
abbrev pub kind_eq : TokenKind → TokenKind → Bool
kind_eq admin admin = true
kind_eq user user = true
kind_eq _ _ = false

abbrev pub is_tcp : Protocol → Bool
is_tcp tcp = true
is_tcp _ = false

abbrev pub is_online : NodeStatus → Bool
is_online NodeStatus.online = true
is_online NodeStatus.offline = false

pub record Metadata : Type 0 where
  pub entries : List (Text × Text)

pub record NodeMetadata : Type 0 where
  pub hostname : Text
  pub os : Text
  pub arch : Text
  pub client_version : Text
  pub metadata : Metadata

pub record NodeRecord : Type 0 where
  pub node_id : ℕ
  pub public_key : Option Text
  pub metadata : NodeMetadata
  pub public_ip : Text
  pub source_port : ℕ
  pub transport : TransportKind
  pub status : NodeStatus
  pub connected_at_unix_ms : ℤ
  pub last_heartbeat_at_unix_ms : Option ℤ
  pub rtt_ms : Option ℕ

pub record ServiceDefinition : Type 0 where
  pub service_id : ℕ
  pub service_name : Text
  pub node_id : ℕ
  pub protocol : Protocol
  pub local_address : Text
  pub public_host : Option Text
  pub public_port : Option ℕ
  pub metadata : Metadata

pub record HeartbeatSnapshot : Type 0 where
  pub sequence : ℕ
  pub sent_at_unix_ms : ℤ
  pub cpu_percent : Option ℕ
  pub memory_percent : Option ℕ
  pub load_average : Option ℕ
  pub network_rx_bytes : Option ℕ
  pub network_tx_bytes : Option ℕ

pub record NodeMetric : Type 0 where
  pub node_id : ℕ
  pub recorded_at_unix_ms : ℤ
  pub rtt_ms : Option ℕ
  pub snapshot : HeartbeatSnapshot

pub record ControlEvent : Type 0 where
  pub event_id : ℕ
  pub occurred_at_unix_ms : ℤ
  pub kind : EventKind
  pub node_id : Option ℕ
  pub service_id : Option ℕ
  pub token_kind : Option TokenKind

pub data Frame : Type 0 where
  hello : (version : ℕ) → Frame
  auth : (token : Text) (node_id : ℕ) → Frame
  auth_accepted : (kind : TokenKind) → Frame
  auth_rejected : Frame
  register_node : (metadata : NodeMetadata) (public_key : Text) → Frame
  register_service : (service : ServiceDefinition) → Frame
  register_service_accepted : (service : ServiceDefinition) → Frame
  unregister_service : (service_id : ℕ) → Frame
  service_list : (services : List ServiceDefinition) → Frame
  heartbeat : (snapshot : HeartbeatSnapshot) → Frame
  heartbeat_ack : (sequence : ℕ) (server_time_unix_ms : ℤ) → Frame
  open_stream : (tunnel_id service_id : ℕ) → Frame
  open_stream_ack : (tunnel_id : ℕ) → Frame
  stream_data : (tunnel_id : ℕ) (payload : Text) → Frame
  close_stream : (tunnel_id : ℕ) → Frame
  error : (message : Text) → Frame
  goodbye : Frame

abbrev pub protocol_version : ℕ
protocol_version = 1

abbrev pub max_frame_size : ℕ
max_frame_size = 1048576
