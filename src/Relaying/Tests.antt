-- ===== src/Relaying/Tests.antt =====
-- The theorems on the client and the server together at concrete inputs.
use ongrok_relay.Prelude.{◌≡◌, refl, ◌↔◌, true, [], ◌∷◌, none, some, Text, text, text_eq, ok, arith}
use ongrok_relay.BTree.{BTreeMap, lookup}
use ongrok_relay.Libongrok.Types.{user, ServiceDefinition}
use ongrok_relay.Libongrok.Tokens.{hash_token}
use ongrok_relay.Libongrok.Validation.{validate, validate_service_name}
use ongrok_relay.Server.State.{
  World, validate_node_identity, activate_session, authenticate_hash, record_event,
}
use ongrok_relay.Server.Registry.{register_service, admit}
use ongrok_relay.Server.Relay.{ensure_tcp_ingress, first_available_tcp_port}
use ongrok_relay.Server.Revocation.{authenticate_token}
use ongrok_relay.Server.Session.{Peer, join}
use ongrok_relay.Server.Session.Handlers.{Remote}
use ongrok_relay.Server.Session.Success.{Takes}
use ongrok_relay.Server.Forwarding.{Tunnels, open_client_stream, opened}
use ongrok_relay.Server.Tests.{relay, empty, ssh, peer, world_of, state, session}
use ongrok_relay.Client.Session.{Job, local_node_metadata, node_public_key}
use ongrok_relay.Client.Streams.{Local}
use ongrok_relay.Client.Tests.{host, job_of}
use ongrok_relay.Relaying.Session.{Dialogue, session_of, greeted, publish-Dialogue}
use ongrok_relay.Relaying.Rejection.{Dismissal, run_session-Dismissal}
use ongrok_relay.Relaying.Streams.{Serves, client_answer, open_client_stream-Serves}

relay-Takes : Takes relay
relay-Takes = record { put_node = λ db n. refl; put_metric = λ db m. refl }

abbrev remote : Remote
remote = record { ip = text "10.0.0.9"; port = 5000; connection = 1 }

abbrev publishing : Job
publishing = job_of (text "user-token") (some ssh) true

abbrev joined : World relay
joined =
    (join (session_of remote publishing user empty) (local_node_metadata host)
      (node_public_key host publishing.state) (greeted empty)).1

abbrev published : ServiceDefinition
published = record ssh { public_host = some (text "relay.example"); public_port = some 20000 }

publish-Dialogue_example : Dialogue host publishing remote empty 6 4
unfolding authenticate_token lookup register_service join validate_node_identity activate_session
    local_node_metadata authenticate_hash text_eq text hash_token admit validate_service_name
    validate record_event first_available_tcp_port ensure_tcp_ingress
publish-Dialogue_example =
    publish-Dialogue host publishing ssh published remote user empty
      (register_service ssh 3 joined).1 6 4 relay-Takes refl refl refl refl refl refl (omega arith)
      (omega arith)

abbrev stranger : Job
stranger = job_of (text "guess") none true

run_session-Dismissal_example : Dismissal host stranger remote empty 2 2
unfolding authenticate_token text text_eq authenticate_hash hash_token
run_session-Dismissal_example =
    run_session-Dismissal host stranger remote empty 2 2 refl (omega arith) (omega arith)

-- Node 3 has published its service and is online.
abbrev serving : Peer relay
serving = peer (world_of (state ((7, published) ∷ []) [] ((3, session 30 user) ∷ [])))

abbrev local_services : BTreeMap Text
local_services = (7, text "127.0.0.1:80") ∷ []

abbrev local : Local
local = record {
  connect = λ address. record { after = 5; result = ok tt };
  copy = record { after = 0; result = ok (0, 0) };
}

abbrev tunnels : Tunnels
tunnels = record {
  open_stream = λ connection. record { after = 1; result = ok tt };
  answer = λ connection. client_answer local_services local 20 100 7;
  copy = ok (0, 0);
}

open_client_stream-Serves_example :
    ((open_client_stream tunnels 7 serving).0 ≡ ok 100) ↔ Serves local_services local 20 7
unfolding lookup opened
open_client_stream-Serves_example =
    open_client_stream-Serves tunnels local_services local 20 7 published (session 30 user) serving
      refl refl refl (omega arith) refl
