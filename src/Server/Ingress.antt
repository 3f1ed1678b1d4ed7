-- ===== src/Server/Ingress.antt =====
-- ingress.rs of crates/ongrok-relay-server/src: what a request on the HTTP or HTTPS ingress becomes.
-- The header map and its values are the crate http's, an interface with its documented laws; what the
-- tunnel answers is a parameter.
pub mod Headers
pub mod Routing
pub mod Tests
use ongrok_relay.Prelude.{
  ℕ, ◌+◌, ◌≡◌, Bool, true, false, ◌&&◌, ◌||◌, map, List, [], ◌∷◌, ◌++◌, Option, none, some, Text,
  text, text_eq, is_upper, ◌==◌, leb, if◌then◌else◌, any, find, ok, err, Error, Fallible, or_fail,
  context, M, ◌>>=◌, ◌>>◌, pure, fail, lift, get, attempt,
}
use mathlib.Core.List.{reverse}
use ongrok_relay.BTree.{BTreeMap, values}
use ongrok_relay.Libongrok.Types.{Protocol, ServiceDefinition}
use ongrok_relay.Server.State.{Platform, AppState, World}
use ongrok_relay.Server.Session.{Peer, on_world}
use ongrok_relay.Server.Forwarding.{Tunnels, open_client_stream}
use ongrok_relay.Server.Api.{Request, Response, Formats}
use ongrok_relay.Server.Api.Handler.{api_handler}

-- `HeaderMap`, by the values of each name, which is in lower case. `to_str`, `header_name` and
-- `header_value` are the conversions of the crate, `uri` its check of a target.
pub record HeaderMaps : Type 1 where
  pub Map : Type 0
  pub empty : Map
  pub get_all : Text → Map → List Text
  pub insert : Text → Text → Map → Map
  pub remove : Text → Map → Map
  pub get_all-insert :
      (name other value : Text) (m : Map)
      → get_all other (insert name value m)
        ≡ (if text_eq name other then value ∷ [] else get_all other m)
  pub get_all-remove :
      (name other : Text) (m : Map)
      → get_all other (remove name m) ≡ (if text_eq name other then [] else get_all other m)
  pub to_str : Text → Option Text
  pub header_name : Text → Option Text
  pub header_value : Text → Option Text
  pub uri : Text → Option Text

abbrev pub protocol_eq : Protocol → Protocol → Bool
protocol_eq Protocol.http Protocol.http = true
protocol_eq Protocol.https Protocol.https = true
protocol_eq Protocol.tcp Protocol.tcp = true
protocol_eq _ _ = false

abbrev pub lower : ℕ → ℕ
lower c = if is_upper c then c + 32 else c

-- `str::to_ascii_lowercase`.
unfoldable pub to_ascii_lowercase : Text → Text
to_ascii_lowercase [] = []
to_ascii_lowercase (c ∷ s) = lower c ∷ to_ascii_lowercase s

-- `trim_end_matches('.')`.
unfoldable pub trim_dots : Text → Text
trim_dots [] = []
trim_dots (c ∷ s) = prepend (trim_dots s)
  where
    prepend : Text → Text
    prepend [] = if c == b'.' then [] else c ∷ []
    prepend (d ∷ t) = c ∷ d ∷ t

-- `split(':').next()`.
unfoldable pub before_colon : Text → Text
before_colon [] = []
before_colon (c ∷ s) = if c == b':' then [] else c ∷ before_colon s

unfoldable pub hostname : Text → Text
unfolding trim_dots before_colon
hostname host = before_colon (trim_dots host)

abbrev pub first_text : List Text → Option Text
first_text [] = none
first_text (value ∷ _) = some value

abbrev pub option_is : Option Text → Text → Bool
option_is none t = false
option_is (some s) t = text_eq s t

abbrev pub serves_host : Protocol → Text → ServiceDefinition → Bool
serves_host protocol host service =
    protocol_eq service.protocol protocol && option_is service.public_host host

unfoldable pub service_for : Protocol → Text → BTreeMap ServiceDefinition → Option ServiceDefinition
service_for protocol host services = find (serves_host protocol host) (values services)

abbrev onto_first : ℕ → List Text → List Text
onto_first c [] = (c ∷ []) ∷ []
onto_first c (piece ∷ pieces) = (c ∷ piece) ∷ pieces

-- `split(',')`.
unfoldable pub split_commas : Text → List Text
split_commas [] = [] ∷ []
split_commas (c ∷ s) =
    let pieces = split_commas s in if c == b',' then [] ∷ pieces else onto_first c pieces

-- `trim`, of a text that `to_str` gave, so that its white space is ASCII.
abbrev is_blank : ℕ → Bool
is_blank c = c == 32 || leb 9 c && leb c 13

unfoldable pub trim_start : Text → Text
trim_start [] = []
trim_start (c ∷ s) = let rest = trim_start s in if is_blank c then rest else c ∷ s

unfoldable pub trim : Text → Text
unfolding trim_start
trim s = reverse (trim_start (reverse (trim_start s)))

abbrev pub hop_by_hop : List Text
hop_by_hop =
    text "connection"
    ∷ text "keep-alive"
    ∷ text "proxy-authenticate"
    ∷ text "proxy-authorization"
    ∷ text "te"
    ∷ text "trailer"
    ∷ text "transfer-encoding"
    ∷ text "upgrade"
    ∷ []

-- What `filter_map` keeps.
abbrev pub somes : {A B : Type 0} → (A → Option B) → List A → List B
somes f [] = []
somes f (x ∷ xs) = elim (f x) [ some y ↦ y ∷ somes f xs | none ↦ somes f xs ]

abbrev pub flatten : List (List Text) → List Text
flatten [] = []
flatten (xs ∷ xss) = xs ++ flatten xss

module _ (H : HeaderMaps) where
  -- A request: `api` is the request as the control API reads it.
  pub record Visit : Type 0 where
    pub headers : H.Map
    pub authority : Option Text
    pub path_and_query : Option Text
    pub is_options : Bool
    pub api : Request

  pub record Forwarded : Type 0 where
    pub target : Text
    pub headers : H.Map

  pub data Answer : Type 0 where
    preflight : H.Map → Answer
    control : Response → H.Map → Answer
    forwarded : H.Map → Answer
    unavailable : Answer

  -- The names that the values of `Connection` list.
  unfoldable pub connection_names : H.Map → List Text
  unfolding split_commas trim
  connection_names headers =
      somes (λ name. H.header_name (trim name))
        (flatten (map split_commas (somes H.to_str (H.get_all (text "connection") headers))))

  unfoldable pub remove_names : List Text → H.Map → H.Map
  remove_names [] headers = headers
  remove_names (name ∷ rest) headers = remove_names rest (H.remove name headers)

  unfoldable pub strip_hop_by_hop_headers : H.Map → H.Map
  unfolding connection_names remove_names
  strip_hop_by_hop_headers headers =
      remove_names hop_by_hop (remove_names (connection_names headers) headers)

  unfoldable pub add_api_cors_headers : H.Map → H.Map
  add_api_cors_headers headers = H.insert (text "vary") (text "Origin") (
      H.insert (text "access-control-allow-headers") (text "Authorization, Content-Type") (
        H.insert (text "access-control-allow-methods") (text "GET, POST, PATCH, DELETE, OPTIONS") (
          H.insert (text "access-control-allow-origin") (text "https://relay.lemonhx.moe")
            headers)))

  -- The `Host` header if it is text, or else the authority of the target.
  unfoldable pub visit_host : Visit → Option Text
  visit_host visit = host_or (header_text (first_text (H.get_all (text "host") visit.headers)))
    where
      header_text : Option Text → Option Text
      header_text none = none
      header_text (some value) = H.to_str value

      host_or : Option Text → Option Text
      host_or none = visit.authority
      host_or (some host) = some host

  abbrev pub is_api_name : Option Text → Option Text → Bool
  is_api_name (some domain) (some host) =
      text_eq (to_ascii_lowercase (hostname host)) (to_ascii_lowercase (text "api." ++ domain))
  is_api_name _ _ = false

  unfoldable pub is_api_host : {P : Platform} → Visit → AppState P → Bool
  unfolding visit_host hostname to_ascii_lowercase
  is_api_host visit s = is_api_name s.http_domain (visit_host visit)

  abbrev or_root : Option Text → Text
  or_root none = text "/"
  or_root (some target) = target

  -- `exchange` is the tunnel's HTTP/1 handshake and its answer to the request, by its headers.
  unfoldable pub forward_http_request :
      {P : Platform} → Tunnels → (Forwarded → Fallible H.Map) → Visit → Protocol → M (Peer P) H.Map
  unfolding visit_host hostname to_ascii_lowercase service_for strip_hop_by_hop_headers
  forward_http_request tunnels exchange visit protocol = do
    p ← get
    forwarded_host ←
        lift (or_fail (visit_host visit) (text "HTTP request is missing a Host header"))
    service ← lift (
        or_fail
          (service_for protocol (to_ascii_lowercase (hostname forwarded_host)) p.world.app.services)
          (text "no HTTP service is registered for host"))
    tunnel ← open_client_stream tunnels service.service_id
    host ← lift (or_fail (H.header_value forwarded_host) (text "invalid HTTP host"))
    target ←
        lift (or_fail (H.uri (or_root visit.path_and_query)) (text "invalid HTTP request target"))
    let headers = strip_hop_by_hop_headers (H.insert (text "host") host visit.headers)
    answer ← lift (exchange (record { target = target; headers = headers }))
    pure (strip_hop_by_hop_headers answer)

  abbrev answered : Fallible H.Map → Answer
  answered (ok headers) = forwarded headers
  answered (err error) = unavailable

  abbrev json_headers : H.Map
  json_headers = H.insert (text "content-type") (text "application/json") H.empty

  unfoldable pub http_ingress_handler :
      {P : Platform}
      → Formats
      → Tunnels
      → (Forwarded → Fallible H.Map)
      → Visit
      → Protocol
      → M (Peer P) Answer
  unfolding is_api_host add_api_cors_headers forward_http_request
  http_ingress_handler F tunnels exchange visit protocol p =
      if is_api_host visit p.world.app
      then (if visit.is_options
          then (ok (preflight (add_api_cors_headers H.empty)), p)
          else (let (response, w) = api_handler F visit.api p.world in
              (ok (control response (add_api_cors_headers json_headers)), record p { world = w })))
      else (let (result, p') = forward_http_request tunnels exchange visit protocol p in
          (ok (answered result), p'))
