-- ===== src/Server/Transport.antt =====
-- transport.rs of crates/ongrok-relay-server/src: what the TCP/TLS listener does with one connection.
-- The socket, rustls and yamux are a parameter.
use ongrok_relay.Prelude.{
  Bool, false, List, Option, none, some, Text, text, text_eq, if◌then◌else◌, Fallible, Wait, timely,
  in_time, or_fail, M, ◌>>=◌, ◌>>◌, pure, fail, lift,
}
use ongrok_relay.Libongrok.Types.{Frame}
use ongrok_relay.Server.State.{Platform}
use ongrok_relay.Server.Session.{Peer}
use ongrok_relay.Server.Session.Handlers.{Remote, handle_yamux_session}

-- The handshake and the protocol that it agrees on, the first stream that the client opens (`none` if
-- the session ends before), and what is read on it.
pub record Incoming : Type 0 where
  pub remote : Remote
  pub handshake : Wait (Unit {0})
  pub alpn : Option Text
  pub control : Wait (Option (Unit {0}))
  pub reads : List (Fallible Frame)

abbrev negotiated : Option Text → Bool
negotiated none = false
negotiated (some protocol) = text_eq protocol (text "ongrok/1")

-- The task of one connection of `run_tcp_tls`.
unfoldable pub accept_tcp_tls : {P : Platform} → Incoming → M (Peer P) (Unit {0})
accept_tcp_tls connection = do
  lift (in_time (timely 15000 connection.handshake) (text "TCP/TLS handshake timed out"))
  if negotiated connection.alpn
      then pure tt
      else fail (text "TCP/TLS client did not negotiate ongrok/1")
  opened ← lift (
      in_time (timely 10000 connection.control) (text "client did not open a Yamux control stream"))
  lift (or_fail opened (text "Yamux session ended before opening a control stream"))
  handle_yamux_session connection.remote connection.reads
