-- ===== src/Relaying/Streams.antt =====
-- The stream of a visitor at both ends: `open_client_stream` of the server, on what
-- `handle_data_stream` of the client writes.
use ongrok_relay.Prelude.{
  ℕ, ◌+◌, ◌≤◌, ◌≡◌, sym, ◌∙◌, ap, ◌↔◌, inl, inr, List, [], ◌∷◌, some, Text, text, ok, err, Fallible,
  Option-cases, bind, Wait, timely, in_time, arith,
}
use ongrok_relay.BTree.{BTreeMap, lookup}
use ongrok_relay.Libongrok.Types.{Frame, ServiceDefinition}
use ongrok_relay.Server.State.{Platform, ActiveSession}
use ongrok_relay.Server.Session.{Peer, write}
use ongrok_relay.Server.Forwarding.{Tunnels, opened, check_answer, open_client_stream}
use ongrok_relay.Client.Link.{fresh, send}
use ongrok_relay.Client.Streams.{Local, handle_data_stream}
use ongrok_relay.Relaying.Session.{at_once}

-- The first frame on a stream, as the other end reads it, `latency` after it was written.
abbrev first_frame : ℕ → List (ℕ × Frame) → Wait Frame
first_frame latency [] = record {
  after = latency;
  result = err (text "failed to read control frame length");
}
first_frame latency ((time, frame) ∷ _) = record { after = latency + time; result = ok frame }

abbrev pub client_answer : BTreeMap Text → Local → ℕ → ℕ → ℕ → Wait Frame
client_answer local_services local latency tunnel_id service_id =
    first_frame latency
      (handle_data_stream local_services local
        (at_once (Frame.open_stream tunnel_id service_id) ∷ []) (fresh 0 1)).1.sent

-- The client knows the service, and its local address accepts a connection before the relay gives up.
pub record Serves (local_services : BTreeMap Text) (local : Local) (latency service_id : ℕ)
    : Type 0 where
  pub address : Text
  pub known : lookup service_id local_services ≡ some address
  pub connected : (local.connect address).result ≡ ok tt
  pub prompt : latency + (local.connect address).after ≤ 10000

abbrev judged : ℕ → Wait Frame → Fallible ℕ
judged tunnel_id w =
    bind (in_time (timely 10000 w) (text "timed out waiting for local target"))
      (check_answer tunnel_id)

judged-Serves :
    (local_services : BTreeMap Text) (local : Local) (latency tunnel_id service_id : ℕ)
    → judged tunnel_id (client_answer local_services local latency tunnel_id service_id)
      ≡ ok tunnel_id
    → Serves local_services local latency service_id
unfolding handle_data_stream send check_answer
judged-Serves local_services local latency tunnel_id service_id h =
    elim (Option-cases (lookup service_id local_services)) [
      | inl unknown ↦ absurd (ground arith)
      | inr (address, known) ↦ record {
        address = address;
        known = known;
        connected = ground arith;
        prompt = ground arith;
      }
    ]

Serves-judged :
    (local_services : BTreeMap Text) (local : Local) (latency tunnel_id service_id : ℕ)
    → Serves local_services local latency service_id
    → judged tunnel_id (client_answer local_services local latency tunnel_id service_id)
      ≡ ok tunnel_id
unfolding handle_data_stream send check_answer
Serves-judged local_services local latency tunnel_id service_id s =
    ground (arith, s.known, s.connected, s.prompt)

module _ {P : Platform} where
  open_client_stream-judged :
      (tunnels : Tunnels) (service_id : ℕ) (service : ServiceDefinition) (session : ActiveSession)
      (p : Peer P)
      → lookup service_id p.world.app.services ≡ some service
      → lookup service.node_id p.world.app.sessions ≡ some session
      → opened session.connection (tunnels.open_stream session.connection) ≡ ok tt
      → 1 ≤ p.budget
      → (open_client_stream tunnels service_id p).0
        ≡ judged (P.uuid p.world.drawn) (tunnels.answer session.connection)
  unfolding open_client_stream write
  open_client_stream-judged tunnels service_id service session p registered online opens room =
      ground arith

  -- Where the service is registered, its node has a session whose connection opens a stream in time,
  -- and the request can be written: a visitor gets a stream exactly if the client knows the service and
  -- its local address accepts a connection, within ten seconds with the time that the frames take.
  pub open_client_stream-Serves :
      (tunnels : Tunnels) (local_services : BTreeMap Text) (local : Local) (latency service_id : ℕ)
      (service : ServiceDefinition) (session : ActiveSession) (p : Peer P)
      → lookup service_id p.world.app.services ≡ some service
      → lookup service.node_id p.world.app.sessions ≡ some session
      → opened session.connection (tunnels.open_stream session.connection) ≡ ok tt
      → 1 ≤ p.budget
      → tunnels.answer session.connection
        ≡ client_answer local_services local latency (P.uuid p.world.drawn) service_id
      → ((open_client_stream tunnels service_id p).0 ≡ ok (P.uuid p.world.drawn))
        ↔ Serves local_services local latency service_id
  open_client_stream-Serves tunnels local_services local latency service_id service session p
        registered online opens room met =
      let whole =
        open_client_stream-judged tunnels service_id service session p registered online opens room
        ∙ ap (judged (P.uuid p.world.drawn)) met in
      (
        λ h.
            judged-Serves local_services local latency (P.uuid p.world.drawn) service_id
              (sym whole ∙ h),
        λ s. whole ∙ Serves-judged local_services local latency (P.uuid p.world.drawn) service_id s,
      )
