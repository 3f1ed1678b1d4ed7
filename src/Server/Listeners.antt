-- ===== src/Server/Listeners.antt =====
-- The loops of crates/ongrok-relay-server/src that accept connections, `run_quic` and `run_tcp_tls` of
-- transport.rs, `run_http_ingress` and `run_https_ingress` of ingress.rs and the task of
-- `ensure_tcp_ingress` of relay.rs, one event at a time. The listener is open; `bound` says what
-- becomes of one that cannot be bound.
pub mod Entries
use ongrok_relay.Prelude.{
  ℕ, Bool, true, false, List, [], ◌∷◌, ◌++◌, Option, none, some, Text, text, Fallible, ok, err,
  Error, if◌then◌else◌,
}
use ongrok_relay.Tasks.{
  Listener, Event, accepts, completes, refuses, closes, listening, bound, is_done, end_task, spawn,
  spawn_joined, finish, finish_joined,
}

-- `Endpoint::accept` gives nothing once the endpoint is closed.
unfoldable pub run_quic : Event → Listener → Listener
run_quic (accepts c) l = spawn c l
run_quic (completes c) l = end_task c l
run_quic (refuses e) l = l
run_quic closes l = finish (ok tt) l

unfoldable pub run_tcp_tls : Event → Listener → Listener
run_tcp_tls (accepts c) l = spawn c l
run_tcp_tls (completes c) l = end_task c l
run_tcp_tls (refuses e) l = finish (err (text "TCP/TLS accept failed")) l
run_tcp_tls closes l = l

unfoldable pub run_http_ingress : Event → Listener → Listener
run_http_ingress (accepts c) l = spawn_joined c l
run_http_ingress (completes c) l = end_task c l
run_http_ingress (refuses e) l = finish_joined (err (text "HTTP ingress accept failed")) l
run_http_ingress closes l = l

unfoldable pub run_https_ingress : Event → Listener → Listener
run_https_ingress (accepts c) l = spawn c l
run_https_ingress (completes c) l = end_task c l
run_https_ingress (refuses e) l = finish (err (text "HTTPS ingress accept failed")) l
run_https_ingress closes l = l

-- The task of a TCP service's listener, which breaks its loop.
unfoldable pub accept_visitors : Event → Listener → Listener
accept_visitors (accepts c) l = spawn c l
accept_visitors (completes c) l = end_task c l
accept_visitors (refuses e) l = finish (ok tt) l
accept_visitors closes l = l
