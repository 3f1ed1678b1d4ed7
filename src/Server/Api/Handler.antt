-- ===== src/Server/Api/Handler.antt =====
-- `api_handler` of crates/ongrok-relay-server/src/server.rs: the routes, and who may take them.
pub mod Access
pub mod Validity
pub mod Order
pub mod Preservation
use ongrok_relay.Prelude.{
  ℕ, suc, ◌-◌, Bool, true, false, ◌&&◌, ◌||◌, List, [], ◌∷◌, map, Option, none, some, Text, text,
  text_eq, strip_prefix, is_some, length, take, find, ltb, leb, if◌then◌else◌, Result, ok, err,
  Fallible, starts_with, drop,
}
use ongrok_relay.BTree.{lookup, values}
use ongrok_relay.Libongrok.Types.{
  TokenKind, admin, user, EventKind, NodeRecord, NodeMetric, ControlEvent, is_online,
}
use ongrok_relay.Libongrok.Tokens.{generate_token}
use ongrok_relay.Server.State.{Platform, World, record_event}
use ongrok_relay.Server.Revocation.{authenticate, replace_token}
use ongrok_relay.Server.Api.{
  Method, get, post, patch, delete, options, Request, Response, Formats, json, refuse, Body,
  auth_response, health_response, token_rotation, token_revocation, events, nodes, node, metrics,
  views, token_kind_name, token_mutation_request, service_view,
}
use ongrok_relay.Server.Api.Services.{create_service, get_service, delete_service, patch_service}

abbrev pub method_eq : Method → Method → Bool
method_eq get get = true
method_eq post post = true
method_eq patch patch = true
method_eq delete delete = true
method_eq options options = true
method_eq _ _ = false

abbrev pub is_admin : Option TokenKind → Bool
is_admin (some admin) = true
is_admin _ = false

abbrev pub strip_suffix : Text → Text → Option Text
strip_suffix suffix s =
    if leb (length suffix) (length s) && text_eq (drop (length s - length suffix) s) suffix
    then some (take (length s - length suffix) s)
    else none

abbrev pub invalid_token : Response
invalid_token = refuse 401 (text "invalid bearer token")

abbrev listed_events : Fallible (List ControlEvent) → Response
listed_events (ok es) = json 200 (events es)
listed_events (err e) = refuse 500 (text "failed to load events")

abbrev listed_metrics : Fallible (List NodeMetric) → Response
listed_metrics (ok ms) = json 200 (metrics ms)
listed_metrics (err e) = refuse 500 (text "failed to load node metrics")

abbrev node_key : Text → Text × Bool
node_key suffix = elim (strip_suffix (text "/metrics") suffix) [
  | none ↦ (suffix, false)
  | some key ↦ (key, true)
]

abbrev validated : Option TokenKind → Response
validated (some admin) = json 200 (
    auth_response (text "admin")
      (text "services:read" ∷ text "services:write" ∷ text "nodes:read" ∷ text "tokens:write" ∷ [])
      (text "ongrok"))
validated (some user) = json 200 (
    auth_response (text "user")
      (text "services:read" ∷ text "services:write" ∷ text "nodes:read" ∷ []) (text "ongrok"))
validated none = invalid_token

abbrev pub is_route : Request → Method → Text → Bool
is_route request method path = method_eq request.method method && text_eq request.path path

module _ {P : Platform} (F : Formats) where
  abbrev pub rotated : TokenKind → Text → Fallible (Unit {0}) × World P → Response × World P
  rotated kind token (ok _, w) = (
    json 200 (token_rotation (token_kind_name kind) token),
    record_event EventKind.token_rotated none none (some kind) w,
  )
  rotated kind token (err e, w) = (refuse 500 (text "failed to rotate token"), w)

  unfoldable pub rotate : TokenKind → World P → Response × World P
  rotate kind w =
      let w' : World P = record w { drawn = suc w.drawn } in
      let (token, hash) = generate_token P.blake3 kind (F.random w.drawn) in
      rotated kind token (replace_token kind (some hash) w')

  abbrev pub revoked : TokenKind → Fallible (Unit {0}) × World P → Response × World P
  revoked kind (ok _, w) = (
    json 200 (token_revocation (token_kind_name kind) true),
    record_event EventKind.token_revoked none none (some kind) w,
  )
  revoked kind (err e, w) = (refuse 500 (text "failed to revoke token"), w)

  unfoldable pub revoke : TokenKind → World P → Response × World P
  revoke kind w = revoked kind (replace_token kind none w)

  abbrev pub mutate : Bool → Fallible TokenKind → World P → Response × World P
  mutate rotating (err e) w = (refuse 400 (text "invalid token mutation request"), w)
  mutate rotating (ok kind) w = if rotating then rotate kind w else revoke kind w

  unfoldable pub token_routes : Bool → Request → World P → Response × World P
  token_routes rotating request w =
      if is_admin (authenticate request.authorization w)
      then mutate rotating (token_mutation_request F request) w
      else (refuse 401 (text "admin bearer token required"), w)

  -- A route that wants a token of either kind.
  abbrev pub with_token : Request → (World P → Response × World P) → World P → Response × World P
  with_token request serve w =
      if is_some (authenticate request.authorization w) then serve w else (invalid_token, w)

  abbrev answer_node : Bool → Option NodeRecord → World P → Response
  answer_node wants_metrics none w = refuse 404 (text "node not found")
  answer_node true (some n) w = listed_metrics (P.store.metrics_for_node w.app.store n.node_id)
  answer_node false (some n) w = json 200 (node n)

  unfoldable pub node_route : Text → World P → Response × World P
  node_route suffix w =
      let (key, wants_metrics) = node_key suffix in
      (
        answer_node wants_metrics
            (find (λ n. text_eq (F.uuid_text n.node_id) key) (values w.app.nodes)) w,
        w,
      )

  abbrev pub list_services : World P → Response × World P
  list_services w = (
    json 200
        (views (map (λ s. service_view s (lookup s.node_id w.app.nodes)) (values w.app.services))),
    w,
  )

  abbrev pub list_events : World P → Response × World P
  list_events w = (listed_events (P.store.recent_events w.app.store 200), w)

  abbrev pub list_nodes : World P → Response × World P
  list_nodes w = (json 200 (nodes (values w.app.nodes)), w)

  -- The match at the end of the handler.
  unfoldable pub last_routes : Request → World P → Response × World P
  last_routes request w =
      if is_route request get (text "/healthz") || is_route request get (text "/readyz")
      then (json 200 (health_response (text "ok")), w)
      else if is_route request post (text "/v1/auth/validate")
      then (validated (authenticate request.authorization w), w)
      else if is_route request get (text "/v1/services")
      then with_token request list_services w
      else (refuse 404 (text "route not found"), w)

  abbrev pub on_service : Method → Request → ℕ → World P → Response × World P
  on_service get request service_id w = get_service service_id w
  on_service delete request service_id w = delete_service service_id w
  on_service patch request service_id w = patch_service F request service_id w
  on_service _ request service_id w = last_routes request w

  -- A path below `/v1/services/`: the identifier is read before the token is looked at.
  unfoldable pub service_routes : Request → Option ℕ → World P → Response × World P
  service_routes request none w = (refuse 400 (text "invalid service id"), w)
  service_routes request (some service_id) w =
      with_token request (on_service request.method request service_id) w

  abbrev pub below_services : Request → Option Text → World P → Response × World P
  below_services request none w = last_routes request w
  below_services request (some key) w = service_routes request (F.parse_uuid key) w

  unfoldable pub api_handler : Request → World P → Response × World P
  api_handler request w =
      if is_route request post (text "/v1/admin/tokens/rotate")
      then token_routes true request w
      else if is_route request post (text "/v1/admin/tokens/revoke")
      then token_routes false request w
      else if is_route request get (text "/v1/events")
      then with_token request list_events w
      else if is_route request get (text "/v1/nodes")
      then with_token request list_nodes w
      else if method_eq request.method get && starts_with request.path (text "/v1/nodes/")
      then with_token request (node_route (drop 10 request.path)) w
      else if is_route request post (text "/v1/services")
      then with_token request (create_service F request) w
      else below_services request (strip_prefix (text "/v1/services/") request.path) w
