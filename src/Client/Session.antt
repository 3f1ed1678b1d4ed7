-- ===== src/Client/Session.antt =====
-- The control session of a client, of crates/ongrok-relay-client/src/main.rs: what `run_quic` and
-- `run_yamux` do once their stream is open, which is the same text twice. What is read of the machine
-- and of the crates sysinfo and ed25519_dalek is a parameter.
use ongrok_relay.Prelude.{
  ℕ, ◌+◌, ◌%◌, ◌^◌, Bool, List, [], ◌∷◌, ◌++◌, Option, none, some, Text, text, ltb, ◌==◌,
  if◌then◌else◌, ok, err, Fallible, M, ◌>>=◌, ◌>>◌, pure, lift,
}
use ongrok_relay.Prelude.Int.{ℤ}
use ongrok_relay.Libongrok.Types.{
  Frame, NodeMetadata, ServiceDefinition, HeartbeatSnapshot, protocol_version,
}
use ongrok_relay.Client.Link.{
  Arrival, Link, next_arrival, later_arrivals, sleep, receive, send, add_service,
}
use ongrok_relay.Client.Identity.{NodeState}

-- What sysinfo and the clock show when a heartbeat is made.
pub record Readings : Type 0 where
  pub cpu_usage : ℕ
  pub total_memory : ℕ
  pub used_memory : ℕ
  pub load_one : ℕ
  pub networks : List (ℕ × ℕ)
  pub now : ℤ

-- `readings n` is what the n-th heartbeat finds; `percent` is the arithmetic on floating point.
pub record Host : Type 0 where
  pub hostname : Option Text
  pub os : Text
  pub arch : Text
  pub client_version : Text
  pub verifying_key : Text → Text
  pub readings : ℕ → Readings
  pub percent : ℕ → ℕ → ℕ

-- The arguments of `run_quic` and `run_yamux` that the session uses.
pub record Job : Type 0 where
  pub state : NodeState
  pub token : Text
  pub service : Option ServiceDefinition
  pub once : Bool

abbrev heartbeat_pause : ℕ
heartbeat_pause = 60000

abbrev or_unknown : Option Text → Text
or_unknown none = text "unknown"
or_unknown (some name) = name

unfoldable pub check_hello : Frame → Fallible (Unit {0})
check_hello (Frame.hello version) =
    if version == protocol_version
    then ok tt
    else err (text "server sent an invalid Hello response")
check_hello (Frame.error message) = err (text "server rejected protocol: " ++ message)
check_hello _ = err (text "server sent an invalid Hello response")

unfoldable pub check_auth : Frame → Fallible (Unit {0})
check_auth (Frame.auth_accepted kind) = ok tt
check_auth Frame.auth_rejected = err (text "server rejected token")
check_auth _ = err (text "server sent an invalid auth response")

unfoldable pub check_service : Frame → Fallible ServiceDefinition
check_service (Frame.register_service_accepted service) = ok service
check_service (Frame.error message) = err (text "server rejected service: " ++ message)
check_service _ = err (text "server sent an invalid service registration response")

unfoldable pub check_ack : ℕ → Frame → Fallible (Unit {0})
check_ack sequence (Frame.heartbeat_ack ack server_time) =
    if ack == sequence then ok tt else err (text "server sent an invalid heartbeat acknowledgement")
check_ack sequence _ = err (text "server sent an invalid heartbeat acknowledgement")

-- A sum of byte counts, as a `u64`.
abbrev total : List ℕ → ℕ
total [] = 0
total (n ∷ rest) = (n + total rest) % 2 ^ 64

abbrev received : List (ℕ × ℕ) → List ℕ
received [] = []
received ((rx, tx) ∷ rest) = rx ∷ received rest

abbrev transmitted : List (ℕ × ℕ) → List ℕ
transmitted [] = []
transmitted ((rx, tx) ∷ rest) = tx ∷ transmitted rest

unfoldable pub authenticate : Job → List Arrival → M Link (List Arrival)
unfolding check_hello check_auth
authenticate job arrivals = do
  send (Frame.hello protocol_version)
  greeting ← receive (next_arrival arrivals)
  lift (check_hello greeting)
  send (Frame.auth job.token job.state.node_id)
  answer ← receive (next_arrival (later_arrivals arrivals))
  lift (check_auth answer)
  pure (later_arrivals (later_arrivals arrivals))

unfoldable pub publish : Option ServiceDefinition → List Arrival → M Link (List Arrival)
unfolding check_service
publish none arrivals = pure arrivals
publish (some service) arrivals = do
  send (Frame.register_service service)
  answer ← receive (next_arrival arrivals)
  accepted ← lift (check_service answer)
  add_service accepted.service_id service.local_address
  pure (later_arrivals arrivals)

module _ (H : Host) where
  unfoldable pub node_public_key : NodeState → Text
  node_public_key state = H.verifying_key state.private_key

  unfoldable pub local_node_metadata : NodeMetadata
  local_node_metadata = record {
    hostname = or_unknown H.hostname;
    os = H.os;
    arch = H.arch;
    client_version = H.client_version;
    metadata = record { entries = [] };
  }

  unfoldable pub heartbeat_snapshot : ℕ → HeartbeatSnapshot
  heartbeat_snapshot sequence =
      let r = H.readings sequence in
      record {
        sequence = sequence;
        sent_at_unix_ms = r.now;
        cpu_percent = some r.cpu_usage;
        memory_percent =
            if ltb 0 r.total_memory then some (H.percent r.used_memory r.total_memory) else none;
        load_average = some r.load_one;
        network_rx_bytes = some (total (received r.networks));
        network_tx_bytes = some (total (transmitted r.networks));
      }

  -- The loop, which `once` leaves after the first acknowledgement.
  unfoldable pub heartbeats : Bool → ℕ → List Arrival → M Link (Unit {0})
  unfolding check_ack heartbeat_snapshot
  heartbeats once sequence [] =
      send (Frame.heartbeat (heartbeat_snapshot ((sequence + 1) % 2 ^ 64)))
      >> receive (next_arrival [])
      >>= λ frame. lift (check_ack ((sequence + 1) % 2 ^ 64) frame)
  heartbeats once sequence (a ∷ rest) =
      let next = (sequence + 1) % 2 ^ 64 in
      send (Frame.heartbeat (heartbeat_snapshot next)) >> receive a >>= λ frame.
      lift (check_ack next frame)
      >> (if once then send Frame.goodbye else sleep heartbeat_pause >> heartbeats once next rest)

  unfoldable pub run_session : Job → List Arrival → M Link (Unit {0})
  unfolding authenticate publish heartbeats node_public_key local_node_metadata
  run_session job arrivals = do
    later ← authenticate job arrivals
    send (Frame.register_node local_node_metadata (node_public_key job.state))
    rest ← publish job.service later
    heartbeats job.once 0 rest
