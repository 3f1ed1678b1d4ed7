-- ===== src/Client/Tests.antt =====
-- The theorems on the client at concrete inputs.
use ongrok_relay.Prelude.{
  text_eq, contains, strip_prefix, ℕ, zero, suc, ◌+◌, ◌≤◌, ◌≡◌, refl, Bool, true, false, List, [],
  ◌∷◌, Option, none, some, Text, text, length, ok, err, Fallible, Wait, arith,
}
use ongrok_relay.Prelude.Int.{pos}
use ongrok_relay.Libongrok.Types.{Frame, ServiceDefinition}
use ongrok_relay.Client.Link.{Arrival, cut, send}
use ongrok_relay.Client.Identity.{
  NodeState, Json, FilePath, Disk, Writing, load_or_create_state, random_private_key, write_state,
}
use ongrok_relay.Client.Identity.Stability.{load_or_create_state-again}
use ongrok_relay.Client.Session.{Host, Job, run_session}
use ongrok_relay.Client.Dial.{
  CaFile, QuicRoute, TcpRoute, run_quic, run_yamux, open_quic, open_yamux,
}
use ongrok_relay.Client.Retry.{
  RelayEndpoints, Weather, quic_limit, over_quic, over_tcp, run_once_with_fallback,
  run_with_fallback,
}
use ongrok_relay.Client.Retry.Endurance.{
  Rejection, run_once_with_fallback-falls_back, run_with_fallback-stops,
}

-- A format that writes the identifier and then the key.
abbrev print_state : NodeState → Fallible Text
print_state s = ok (s.node_id ∷ s.private_key)

abbrev read_state : Text → Fallible NodeState
read_state [] = err []
read_state (id ∷ key) = ok (record { node_id = id; private_key = key })

read-print :
    (s : NodeState) (t : Text)
    → length s.private_key ≡ 32
    → print_state s ≡ ok t
    → read_state t ≡ ok s
read-print s t size e = ground arith

abbrev plain_json : Json
plain_json = record {
  to_vec_pretty = print_state;
  from_slice = read_state;
  round_trip = read-print;
}

abbrev node_file : FilePath
node_file = record { text = text "/home/node.json"; parent = some (text "/home") }

abbrev new_disk : Disk
new_disk = record {
  file = none;
  is_readable = true;
  can_create_dir = true;
  writing = Writing.done;
  can_set_permissions = true;
  random = λ n. n + 1;
  drawn = 0;
  uuid = 5;
}

abbrev pub identity : NodeState
identity = record { node_id = 3; private_key = 107 ∷ 101 ∷ 121 ∷ [] }

abbrev pub host : Host
host = record {
  hostname = some (text "host");
  os = text "linux";
  arch = text "x86_64";
  client_version = text "1";
  verifying_key = λ key. key;
  readings = λ n. record {
    cpu_usage = 0;
    total_memory = 8;
    used_memory = 4;
    load_one = 0;
    networks = (10, 20) ∷ [];
    now = pos 5000;
  };
  percent = λ used total. 50;
}

abbrev pub job_of : Text → Option ServiceDefinition → Bool → Job
job_of token service once = record {
  state = identity;
  token = token;
  service = service;
  once = once;
}

abbrev ca : CaFile
ca = record {
  path = text "ca.pem";
  opened = ok tt;
  certs = ok (text "cert" ∷ []);
  add = λ cert. ok tt;
}

abbrev at : ℕ → Frame → Arrival
at time frame = record { after = time; result = ok frame }

abbrev done_in : ℕ → Wait (Unit {0})
done_in time = record { after = time; result = ok tt }

-- The relay cannot be reached over QUIC; over TCP it refuses the token.
abbrev quic_route : QuicRoute
quic_route = record {
  config = ok tt;
  endpoint = ok tt;
  connecting = ok tt;
  connection = record { after = 30; result = err (text "refused") };
  stream = done_in 0;
  arrivals = [];
  budget = 0;
}

abbrev tcp_route : List Arrival → TcpRoute
tcp_route arrivals = record {
  socket = done_in 20;
  name = ok tt;
  handshake = done_in 40;
  alpn = some (text "ongrok/1");
  stream = done_in 0;
  arrivals = arrivals;
  budget = 9;
}

draw_zero : (top : ℕ) → 0 ≤ top
draw_zero top = omega arith

abbrev weather : List Arrival → Weather
weather arrivals = record {
  quic = λ a. quic_route;
  tcp = λ a. tcp_route arrivals;
  random_range = λ top. 0;
  in_range = draw_zero;
}

-- First the connection over TCP is lost, then the relay refuses the token.
abbrev two_days : List Weather
two_days = weather [] ∷ weather (at 10 (Frame.hello 1) ∷ at 10 Frame.auth_rejected ∷ []) ∷ []

abbrev endpoints : RelayEndpoints
endpoints = record { quic = text "10.0.0.1:443"; tcp_tls = none }

abbrev steady : Job
steady = job_of (text "token") none false

abbrev count_up : ℕ → ℕ → Text
count_up zero n = []
count_up (suc left) n = (n + 1) ∷ count_up left (n + 1)

abbrev new_identity : NodeState
new_identity = record { node_id = 5; private_key = count_up 32 0 }

abbrev later_disk : Disk
later_disk = record new_disk { file = some (5 ∷ count_up 32 0); drawn = 32 }

load_or_create_state-again_example :
    load_or_create_state plain_json node_file later_disk ≡ (ok new_identity, later_disk)
unfolding load_or_create_state random_private_key write_state
load_or_create_state-again_example =
    load_or_create_state-again plain_json node_file new_identity new_disk later_disk refl refl refl

run_once_with_fallback-falls_back_example :
    run_once_with_fallback host ca steady endpoints (weather []) ≡ (
      (over_tcp host ca steady endpoints (weather [])).0,
      record {
        over_quic = cut quic_limit (over_quic host ca steady endpoints (weather [])).1;
        over_tcp = some (over_tcp host ca steady endpoints (weather [])).1;
      },
    )
run_once_with_fallback-falls_back_example =
    run_once_with_fallback-falls_back host ca steady endpoints (weather []) refl

run_with_fallback-stops_example :
    Rejection host ca steady endpoints two_days (err (text "server rejected token"))
unfolding run_with_fallback run_once_with_fallback run_session open_quic open_yamux text run_quic
    run_yamux text_eq send contains strip_prefix
run_with_fallback-stops_example =
    run_with_fallback-stops host ca steady endpoints two_days (err (text "server rejected token"))
      refl refl
