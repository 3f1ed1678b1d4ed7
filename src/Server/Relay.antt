-- ===== src/Server/Relay.antt =====
-- relay.rs of crates/ongrok-relay-server/src: the leases of TCP ports and their listeners. The task
-- of a listener is the port that it holds; what it does with a visitor is in `Server.Forwarding`.
pub mod Ports
use ongrok_relay.Prelude.{
  ℕ, zero, suc, ◌+◌, ◌-◌, Bool, false, ◌&&◌, Option, none, some, Text, text, ◌++◌, decimal, ◌==◌,
  if◌then◌else◌, any, or_fail, context, M, ◌>>=◌, ◌>>◌, pure, lift, get,
}
use ongrok_relay.BTree.{BTreeMap, values, insert, contains_key}
use ongrok_relay.Libongrok.Types.{ServiceDefinition, is_tcp}
use ongrok_relay.Server.State.{Platform, AppState, World, with_app}

abbrev pub port_is : Option ℕ → ℕ → Bool
port_is none port = false
port_is (some p) port = p == port

abbrev pub holds_port : ℕ → ServiceDefinition → Bool
holds_port port service = is_tcp service.protocol && port_is service.public_port port

-- The ports from `port` on, `count` of them.
unfoldable pub find_port : ℕ → ℕ → BTreeMap ServiceDefinition → Option ℕ
find_port zero port services = none
find_port (suc count) port services =
    let rest = find_port count (port + 1) services in
    if any (holds_port port) (values services) then rest else some port

abbrev pub bind_failed : ℕ → Text
bind_failed port = text "failed to bind TCP ingress at 0.0.0.0:" ++ decimal port

module _ {P : Platform} where
  unfoldable pub first_available_tcp_port : BTreeMap ServiceDefinition → AppState P → Option ℕ
  unfolding find_port
  first_available_tcp_port services s =
      find_port (s.tcp_port_end + 1 - s.tcp_port_start) s.tcp_port_start services

  unfoldable pub listen : ServiceDefinition → ℕ → M (World P) (Unit {0})
  listen service port = do
    w ← get
    lift (context (P.bind (values w.app.tcp_ingress_tasks) port) (bind_failed port))
    with_app
        (λ s. record s { tcp_ingress_tasks = insert service.service_id port s.tcp_ingress_tasks })

  -- A service that has a task keeps it, whatever port the task's listener holds.
  unfoldable pub ensure_tcp_ingress : ServiceDefinition → M (World P) (Unit {0})
  unfolding listen
  ensure_tcp_ingress service = do
    port ← lift (or_fail service.public_port (text "TCP service has no assigned public port"))
    w ← get
    if contains_key service.service_id w.app.tcp_ingress_tasks then pure tt else listen service port
