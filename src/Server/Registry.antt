-- ===== src/Server/Registry.antt =====
-- `register_service` and `unregister_service` of crates/ongrok-relay-server/src/server.rs. Each runs
-- as one step; `Server.Interleaving` cuts it at its locks.
pub mod Admission
pub mod Cases
pub mod Invariant
pub mod Bystanders
pub mod Untouched
pub mod Ownership
use ongrok_relay.Prelude.{
  ℕ, Bool, true, false, ◌&&◌, ◌||◌, not, Option, none, some, Text, text, text_eq, ◌++◌, decimal,
  ltb, ◌==◌, if◌then◌else◌, any, find, Result, ok, err, Fallible, bind, or_fail, map_err, M, ◌>>=◌,
  ◌>>◌, pure, fail, lift, get, modify, attempt, [], ◌∷◌,
}
use ongrok_relay.BTree.{BTreeMap, lookup, values, insert, remove}
use ongrok_relay.Libongrok.Types.{ServiceDefinition, EventKind, Protocol, is_tcp}
use ongrok_relay.Libongrok.Validation.{validate, validate_service_name, validation_message}
use ongrok_relay.Server.State.{Platform, AppState, World, with_app, persist, record_event}
use ongrok_relay.Server.Relay.{holds_port, first_available_tcp_port, ensure_tcp_ingress}

abbrev pub is_name_taken : ℕ → Text → ServiceDefinition → Bool
is_name_taken node_id name existing =
    text_eq existing.service_name name && not (existing.node_id == node_id)

abbrev pub is_previous : ℕ → Text → ServiceDefinition → Bool
is_previous node_id name existing =
    existing.node_id == node_id && text_eq existing.service_name name

-- A service that its node registers again keeps its identifier, and a TCP service its port.
unfoldable pub renew : Option ServiceDefinition → ServiceDefinition → ServiceDefinition
renew none service = service
renew (some previous) service = record service {
  service_id = previous.service_id;
  public_port =
      if is_tcp previous.protocol && is_tcp service.protocol
      then previous.public_port
      else service.public_port;
}

abbrev pub is_other_lease : ℕ → ℕ → ServiceDefinition → Bool
is_other_lease service_id port existing =
    not (existing.service_id == service_id) && holds_port port existing

abbrev pub is_owned_by : ℕ → Option ServiceDefinition → Bool
is_owned_by node_id none = false
is_owned_by node_id (some service) = service.node_id == node_id

module _ {P : Platform} where
  unfoldable pub lease : AppState P → ServiceDefinition → ℕ → Fallible ServiceDefinition
  lease s service port =
      if ltb port s.tcp_port_start || ltb s.tcp_port_end port
      then err (text "TCP port " ++ decimal port ++ text " is outside the configured relay range")
      else if any (is_other_lease service.service_id port) (values s.services)
      then err (text "TCP port " ++ decimal port ++ text " is already leased")
      else ok (record service { public_port = some port; public_host = some s.public_host })

  abbrev pub wanted_port : AppState P → Option ℕ → Fallible ℕ
  wanted_port s (some port) = ok port
  wanted_port s none =
      or_fail (first_available_tcp_port s.services s) (text "no TCP relay ports are available")

  unfoldable pub publish_at : AppState P → ServiceDefinition → Text → ServiceDefinition
  publish_at s service domain = record service {
    public_host = some (service.service_name ++ (b'.' ∷ domain));
    public_port = none;
  }

  -- The endpoint that the service gets: a port of the range, or a host below the domain.
  unfoldable pub assign : AppState P → ServiceDefinition → Protocol → Fallible ServiceDefinition
  unfolding lease publish_at
  assign s service Protocol.tcp = bind (wanted_port s service.public_port) (lease s service)
  assign s service _ =
      bind (or_fail s.http_domain (text "HTTP/HTTPS ingress is not configured on this relay"))
        (λ domain. ok (publish_at s service domain))

  -- `register_service` up to the insertion, which decides whether the service is taken, and as what.
  unfoldable pub admit : AppState P → ServiceDefinition → ℕ → Fallible ServiceDefinition
  unfolding renew assign
  admit s service node_id =
      bind (map_err validation_message (validate_service_name service.service_name)) (λ _.
        bind (map_err validation_message (validate service.metadata)) (λ _.
          if any (is_name_taken node_id service.service_name) (values s.services)
          then err (text "service name is already in use")
          else let previous = find (is_previous node_id service.service_name) (values s.services) in
            let service' = renew previous service in assign s service' service'.protocol))

  -- The end of `register_service`: without a listener the service is taken back.
  unfoldable pub conclude :
      ServiceDefinition → ℕ → Fallible (Unit {0}) → M (World P) ServiceDefinition
  conclude service node_id (ok _) = do
    modify (record_event EventKind.service_registered (some node_id) (some service.service_id) none)
    pure service
  conclude service node_id (err e) = do
    with_app (λ s. record s { services = remove service.service_id s.services })
    persist (λ db. P.store.delete db service.service_id)
    fail (text "failed to activate TCP relay port")

  unfoldable pub activate : ServiceDefinition → M (World P) (Unit {0})
  activate service = if is_tcp service.protocol then ensure_tcp_ingress service else pure tt

  -- `register_service` from the insertion on.
  unfoldable pub commit : ServiceDefinition → ℕ → M (World P) ServiceDefinition
  unfolding conclude activate
  commit admitted node_id = do
    with_app (λ s. record s { services = insert admitted.service_id admitted s.services })
    persist (λ db. P.store.put db admitted)
    listening ← attempt (activate admitted)
    conclude admitted node_id listening

  unfoldable pub register_service : ServiceDefinition → ℕ → M (World P) ServiceDefinition
  unfolding commit
  register_service service node_id = do
    w ← get
    admitted ← lift (admit w.app service node_id)
    commit admitted node_id

  unfoldable pub withdraw : ℕ → ℕ → M (World P) (Unit {0})
  withdraw service_id node_id = do
    with_app (λ s. record s { services = remove service_id s.services })
    persist (λ db. P.store.delete db service_id)
    modify (record_event EventKind.service_deleted (some node_id) (some service_id) none)
    with_app (λ s. record s { tcp_ingress_tasks = remove service_id s.tcp_ingress_tasks })

  unfoldable pub unregister_service : ℕ → ℕ → M (World P) (Unit {0})
  unfolding withdraw
  unregister_service service_id node_id = do
    w ← get
    if is_owned_by node_id (lookup service_id w.app.services)
        then withdraw service_id node_id
        else pure tt
