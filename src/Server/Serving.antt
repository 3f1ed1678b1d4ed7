-- ===== src/Server/Serving.antt =====
-- `run` and `run_api` of crates/ongrok-relay-server/src/server.rs, one event at a time: from the start
-- of the listeners to the shutdown. What a request of the control API does is in `Server.Api`.
pub mod Shutdown
pub mod Tests
use ongrok_relay.Prelude.{
  ℕ, Bool, true, false, List, [], ◌∷◌, ◌++◌, Option, none, some, Text, text, Fallible, ok, err,
  Error, if◌then◌else◌, map, ◌+◌, leb,
}
use ongrok_relay.Tasks.{
  Listener, Event, accepts, completes, refuses, closes, listening, bound, end_task, spawn_joined,
  finish, finish_joined, on_event,
}
use ongrok_relay.Server.Listeners.{run_quic, run_tcp_tls, run_http_ingress, run_https_ingress}

-- `draining` is once the shutdown signal came, when the loop is left for the wait; `waited` are the
-- milliseconds of the wait.
pub record Api : Type 0 where
  pub tasks : Listener
  pub draining : Bool
  pub waited : ℕ

-- What accept gives, the end of a connection, the signal, and the passing of milliseconds.
pub data ApiEvent : Type 0 where
  socket : Event → ApiEvent
  ctrl_c : ApiEvent
  elapses : ℕ → ApiEvent

-- `Duration::from_secs(5)`.
abbrev pub drain_limit_ms : ℕ
drain_limit_ms = 5000

abbrev pub none_left : List ℕ → Bool
none_left [] = true
none_left (_ ∷ _) = false

-- `join_next` until no task is left.
abbrev pub drain : Api → Api
drain a = if none_left a.tasks.live then record a { tasks = finish_joined (ok tt) a.tasks } else a

-- `timeout` around the wait, after which `abort_all` is called.
abbrev pub wait : ℕ → Api → Api
wait n a =
    if leb drain_limit_ms (a.waited + n)
    then record a { tasks = finish_joined (ok tt) a.tasks; waited = a.waited + n }
    else record a { waited = a.waited + n }

-- One event of `run_api` where its loop goes on, and one of the wait after it.
abbrev pub serve_api : ApiEvent → Api → Api
serve_api (socket (accepts c)) a = record a { tasks = spawn_joined c a.tasks }
serve_api (socket (completes c)) a = record a { tasks = end_task c a.tasks }
serve_api (socket (refuses e)) a = record a {
  tasks = finish_joined (err (text "control API accept failed")) a.tasks;
}
serve_api (socket closes) a = a
serve_api ctrl_c a = drain (record a { draining = true; waited = 0 })
serve_api (elapses n) a = a

abbrev pub drain_api : ApiEvent → Api → Api
drain_api (socket (completes c)) a = drain (record a { tasks = end_task c a.tasks })
drain_api (elapses n) a = wait n a
drain_api _ a = a

abbrev pub api_phase : Option (Fallible (Unit {0})) → Bool → ApiEvent → Api → Api
api_phase (some _) draining event a = a
api_phase none true event a = drain_api event a
api_phase none false event a = serve_api event a

unfoldable pub run_api : ApiEvent → Api → Api
run_api event a = api_phase a.tasks.outcome a.draining event a

-- An address and what binding it gives.
abbrev pub Socket : Type 0
Socket = Text × Fallible (Unit {0})

-- The five sockets, the last two where their addresses are set, and what quinn makes of the TLS files.
pub record Sockets : Type 0 where
  pub api : Socket
  pub quic_config : Fallible (Unit {0})
  pub quic : Socket
  pub tcp_tls : Socket
  pub http : Option Socket
  pub https : Option Socket

abbrev pub bind_at : Text → Socket → Listener
bind_at message (address, binding) = bound binding (message ++ address)

abbrev pub bind_quic : Fallible (Unit {0}) → Socket → Listener
bind_quic (ok _) at = bind_at (text "failed to bind QUIC listener at ") at
bind_quic (err e) at = finish (err e) listening

pub record Listeners : Type 0 where
  pub api : Api
  pub quic : Listener
  pub tcp_tls : Listener
  pub http : Option Listener
  pub https : Option Listener

pub data ServerEvent : Type 0 where
  on_api : ApiEvent → ServerEvent
  on_quic on_tcp_tls on_http on_https : Event → ServerEvent

abbrev pub optional : {A B : Type 0} → (A → B) → Option A → Option B
optional f none = none
optional f (some a) = some (f a)

unfoldable pub bind_api : Socket → Api
bind_api at = record {
  tasks = bind_at (text "failed to bind control API at ") at;
  draining = false;
  waited = 0;
}

-- `run` from its first `tokio::spawn` to its call of `run_api`.
unfoldable pub spawn_listeners : Sockets → Listeners
unfolding bind_api
spawn_listeners sockets = record {
  api = bind_api sockets.api;
  quic = bind_quic sockets.quic_config sockets.quic;
  tcp_tls = bind_at (text "failed to bind TCP/TLS listener at ") sockets.tcp_tls;
  http = optional (bind_at (text "failed to bind HTTP ingress at ")) sockets.http;
  https = optional (bind_at (text "failed to bind HTTPS ingress at ")) sockets.https;
}

unfoldable pub on_server : ServerEvent → Listeners → Listeners
unfolding run_api run_quic run_tcp_tls run_http_ingress run_https_ingress
on_server (on_api event) s = record s { api = run_api event s.api }
on_server (on_quic event) s = record s { quic = on_event run_quic event s.quic }
on_server (on_tcp_tls event) s = record s { tcp_tls = on_event run_tcp_tls event s.tcp_tls }
on_server (on_http event) s = record s { http = optional (on_event run_http_ingress event) s.http }
on_server (on_https event) s = record s {
  https = optional (on_event run_https_ingress event) s.https;
}

-- The warning on a listener that had failed before it was aborted.
abbrev pub stopped : Listener → Text → List Text
stopped l message = warning l.outcome
  where
    warning : Option (Fallible (Unit {0})) → List Text
    warning (some (err e)) = (message ++ text " " ++ e) ∷ []
    warning _ = []

abbrev pub stopped_optional : Option Listener → Text → List Text
stopped_optional none message = []
stopped_optional (some l) message = stopped l message

unfoldable pub warnings : Listeners → List Text
warnings s =
    stopped s.quic (text "QUIC listener stopped")
    ++ stopped s.tcp_tls (text "TCP/TLS listener stopped")
    ++ stopped_optional s.http (text "HTTP ingress listener stopped")
    ++ stopped_optional s.https (text "HTTPS ingress listener stopped")

-- The end of `run`: there is none before that of `run_api`, whose result it returns.
unfoldable pub shut_down : Listeners → Option (Fallible (Unit {0}) × List Text)
unfolding warnings
shut_down s = optional (λ result. (result, warnings s)) s.api.tasks.outcome

-- The events in their order.
abbrev pub serve_all : {E S : Type 0} → (E → S → S) → List E → S → S
serve_all f [] s = s
serve_all f (e ∷ es) s = serve_all f es (f e s)
