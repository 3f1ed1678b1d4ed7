-- ===== src/Client/Dial.antt =====
-- How a client reaches the relay, of crates/ongrok-relay-client/src/main.rs: `load_roots`, the
-- beginnings of `run_quic` and `run_yamux`, `probe_quic` and `probe_tcp_tls`. What quinn, rustls and the
-- network answer is a route, a parameter.
use ongrok_relay.Prelude.{
  ℕ, Bool, false, List, [], ◌∷◌, ◌++◌, Option, none, some, Text, text, text_eq, if◌then◌else◌, ok,
  err, Error, Fallible, context, bind, M, ◌>>◌, pure, fail, lift,
}
use ongrok_relay.Prelude.{Wait}
use ongrok_relay.Client.Link.{Arrival, Link, wait, wait_within}
use ongrok_relay.Client.Session.{Host, Job, run_session}

-- The file of CA certificates: `File::open`, `rustls_pemfile::certs` and `RootCertStore::add`.
pub record CaFile : Type 0 where
  pub path : Text
  pub opened : Fallible (Unit {0})
  pub certs : Fallible (List Text)
  pub add : Text → Fallible (Unit {0})

pub record QuicRoute : Type 0 where
  pub config : Fallible (Unit {0})
  pub endpoint : Fallible (Unit {0})
  pub connecting : Fallible (Unit {0})
  pub connection : Wait (Unit {0})
  pub stream : Wait (Unit {0})
  pub arrivals : List Arrival
  pub budget : ℕ

-- `name` is the check of the server's name; `alpn` is the protocol that the handshake agrees on.
pub record TcpRoute : Type 0 where
  pub socket : Wait (Unit {0})
  pub name : Fallible (Unit {0})
  pub handshake : Wait (Unit {0})
  pub alpn : Option Text
  pub stream : Wait (Unit {0})
  pub arrivals : List Arrival
  pub budget : ℕ

abbrev add_all : (Text → Fallible (Unit {0})) → List Text → Fallible (Unit {0})
add_all add [] = ok tt
add_all add (cert ∷ rest) =
    bind (context (add cert) (text "invalid CA certificate")) (λ _. add_all add rest)

abbrev nonempty : List Text → Fallible (Unit {0})
nonempty [] = err (text "CA certificate file is empty")
nonempty (_ ∷ _) = ok tt

-- The roots are those of the file.
unfoldable pub load_roots : CaFile → Fallible (List Text)
load_roots ca = bind (context ca.opened (text "failed to open CA certificate " ++ ca.path)) (λ _.
    bind (context ca.certs (text "failed to parse CA certificate PEM"))
      (λ certs. bind (nonempty certs) (λ _. bind (add_all ca.add certs) (λ _. ok certs))))

abbrev context_of : {A : Type 0} → Wait A → Error → Wait A
context_of w e = record { after = w.after; result = context w.result e }

abbrev speaks_ongrok : Option Text → Bool
speaks_ongrok none = false
speaks_ongrok (some protocol) = text_eq protocol (text "ongrok/1")

-- The socket and the TLS handshake. The contexts of the two timeouts are the caller's.
unfoldable pub reach_tcp : CaFile → TcpRoute → Error → Error → M Link (Unit {0})
unfolding load_roots
reach_tcp ca route late_socket late_handshake = do
  lift (bind (load_roots ca) (λ _. ok tt))
  wait_within 10000 route.socket late_socket
  lift (context route.name (text "server name is not a valid DNS name"))
  wait_within 15000 route.handshake late_handshake
  if speaks_ongrok route.alpn
      then pure tt
      else fail (text "relay did not negotiate ongrok/1 over TCP/TLS")

unfoldable pub open_yamux : CaFile → TcpRoute → M Link (Unit {0})
unfolding reach_tcp
open_yamux ca route = do
  reach_tcp ca route (text "TCP/TLS fallback connection timed out")
      (text "TCP/TLS fallback handshake timed out")
  wait (context_of route.stream (text "failed to open Yamux control stream"))

unfoldable pub open_quic : CaFile → QuicRoute → M Link (Unit {0})
unfolding load_roots
open_quic ca route = do
  lift (bind (load_roots ca) (λ _. ok tt))
  lift route.config
  lift route.endpoint
  lift route.connecting
  wait (context_of route.connection (text "QUIC connection failed"))
  wait (context_of route.stream (text "failed to open QUIC control stream"))

unfoldable pub probe_tcp_tls : CaFile → TcpRoute → M Link (Unit {0})
unfolding reach_tcp
probe_tcp_tls ca route =
    reach_tcp ca route (text "TCP probe timed out") (text "TCP/TLS probe handshake timed out")

unfoldable pub probe_quic : CaFile → QuicRoute → M Link (Unit {0})
unfolding load_roots
probe_quic ca route = do
  lift (bind (load_roots ca) (λ _. ok tt))
  lift route.config
  lift route.endpoint
  lift route.connecting
  wait_within 10000 (context_of route.connection (text "QUIC probe handshake failed"))
      (text "QUIC probe timed out")

module _ (H : Host) where
  unfoldable pub run_quic : CaFile → Job → QuicRoute → M Link (Unit {0})
  unfolding open_quic
  run_quic ca job route = do open_quic ca route; run_session H job route.arrivals

  unfoldable pub run_yamux : CaFile → Job → TcpRoute → M Link (Unit {0})
  unfolding open_yamux
  run_yamux ca job route = do open_yamux ca route; run_session H job route.arrivals
