-- ===== src/Server/Ingress/Tests.antt =====
-- The theorems on the ingress at concrete inputs.
use ongrok_relay.Prelude.{
  ◌≡◌, ◌≢◌, ◌⊎◌, refl, [], ◌∷◌, List, Option, none, some, Text, text, text_eq, text_eq→eq,
  eq→text_eq, if◌then◌else◌, Bool-cases, inl, inr, arith,
}
use ongrok_relay.BTree.{lookup}
use ongrok_relay.Libongrok.Types.{Protocol, ServiceDefinition}
use ongrok_relay.Libongrok.Validation.{validate, validate_service_name}
use ongrok_relay.Server.State.{World, record_event}
use ongrok_relay.Server.Registry.{register_service, admit}
use ongrok_relay.Server.Registry.Invariant.{IsValid, register_service-IsValid}
use ongrok_relay.Server.Tests.{relay, empty, service}
use ongrok_relay.Server.Ingress.{
  HeaderMaps, strip_hop_by_hop_headers, service_for, to_ascii_lowercase,
}
use ongrok_relay.Server.Ingress.Headers.{
  Among, reserved, IsListed, get_all-strip_hop_by_hop_headers,
}
use ongrok_relay.Server.Ingress.Routing.{service_for-upper}

abbrev Pairs : Type 0
Pairs = List (Text × Text)

abbrev all_of : Text → Pairs → List Text
all_of name [] = []
all_of name ((first, value) ∷ rest) =
    let later = all_of name rest in if text_eq first name then value ∷ later else later

abbrev without : Text → Pairs → Pairs
without name [] = []
without name ((first, value) ∷ rest) =
    let later = without name rest in if text_eq first name then later else (first, value) ∷ later

all_of-without :
    (name other : Text) (m : Pairs)
    → all_of other (without name m) ≡ (if text_eq name other then [] else all_of other m)
all_of-without name other [] = ground arith
all_of-without name other ((first, value) ∷ rest) = elim (Bool-cases (text_eq first name)) [
  | inl same ↦ let e = text_eq→eq first name same in ground (arith, all_of-without name other rest)
  | inr differ ↦ elim (Bool-cases (text_eq first other)) [
    | inl hit ↦
        let e = text_eq→eq first other hit in
        ground (arith, all_of-without name other rest, text_eq→eq name other, eq→text_eq first name)
    | inr miss ↦ ground (arith, all_of-without name other rest)
  ]
]

all_of-insert :
    (name other value : Text) (m : Pairs)
    → all_of other ((name, value) ∷ without name m)
      ≡ (if text_eq name other then value ∷ [] else all_of other m)
all_of-insert name other value m = ground (arith, all_of-without name other m)

abbrev some_text : Text → Option Text
some_text t = some t

abbrev pairs : HeaderMaps
pairs = record {
  Map = Pairs;
  empty = [];
  get_all = all_of;
  insert = λ name value m. (name, value) ∷ without name m;
  remove = without;
  get_all-insert = all_of-insert;
  get_all-remove = all_of-without;
  to_str = some_text;
  header_name = some_text;
  header_value = some_text;
  uri = some_text;
}

-- As in the test of the source.
abbrev request_headers : Pairs
request_headers =
    (text "connection", text "x-tunnel-hop, keep-alive")
    ∷ (text "x-tunnel-hop", text "secret")
    ∷ (text "keep-alive", text "timeout=5")
    ∷ (text "x-end-to-end", text "kept")
    ∷ []

get_all-strip_hop_by_hop_headers_example :
    let left = all_of (text "x-tunnel-hop") (strip_hop_by_hop_headers pairs request_headers) in
    (Among (text "x-tunnel-hop") reserved ⊎ IsListed pairs (text "x-tunnel-hop") request_headers)
      × (left ≡ [])
    ⊎ (¬ Among (text "x-tunnel-hop") reserved)
      × (¬ IsListed pairs (text "x-tunnel-hop") request_headers)
      × (left ≡ all_of (text "x-tunnel-hop") request_headers)
get_all-strip_hop_by_hop_headers_example =
    get_all-strip_hop_by_hop_headers pairs (text "x-tunnel-hop") request_headers

abbrev web : ServiceDefinition
web = service 8 (text "web") 3 Protocol.http

abbrev hosted : ServiceDefinition
hosted = record web { public_host = some (text "web.example") }

abbrev with_web : World relay
with_web = (register_service web 3 empty).1

http-ne-tcp : Protocol.http ≢ Protocol.tcp
http-ne-tcp h = cc

-- The relay under a domain with a capital letter.
abbrev capital : World relay
capital = record empty { app = record (empty.app) { http_domain = some (text "Example") } }

capital-IsValid : IsValid capital.app
unfolding lookup
capital-IsValid = record {
  sorted = tt;
  entries = λ k b e. absurd cc;
  names = λ i j a b e. absurd cc;
  ports = λ i j a b e. absurd cc;
}

abbrev with_capital : World relay
with_capital = (register_service web 3 capital).1

service_for-upper_example :
    service_for Protocol.http (to_ascii_lowercase (text "web.Example")) with_capital.app.services
    ≡ none
unfolding register_service text admit validate_service_name validate record_event
service_for-upper_example =
    service_for-upper with_capital.app Protocol.http (text "web.Example") (text "Example")
      (register_service-IsValid capital web 3 capital-IsValid) http-ne-tcp refl refl
