-- ===== src/Server/Api/Handler/Access.antt =====
-- Who may do what over the control API: `api_handler` of crates/ongrok-relay-server/src/server.rs.
use ongrok_relay.Prelude.{
  ℕ, ◌≡◌, refl, Bool, true, false, Option, none, some, Text, text, arith, strip_prefix, drop,
  starts_with, ◌&&◌, if-holds,
}
use ongrok_relay.Server.State.{Platform, World}
use ongrok_relay.Server.Revocation.{authenticate}
use ongrok_relay.Server.Api.{
  get, post, Request, Response, Formats, Body, error_response, health_response,
}
use ongrok_relay.Server.Api.Services.{create_service}
use ongrok_relay.Server.Api.Handler.{
  is_route, method_eq, with_token, token_routes, last_routes, service_routes, node_route,
  api_handler, below_services, list_events, list_nodes, on_service,
}

-- A body that tells nothing of the server's state: an error, or that the server is up.
abbrev pub is_public : Body → Bool
is_public (error_response message) = true
is_public (health_response status) = true
is_public _ = false

module _ {P : Platform} (F : Formats) where
  -- An answer that tells and changes nothing.
  abbrev pub IsRefusal : World P → Response × World P → Type 0
  IsRefusal w r = (r.1 ≡ w) × (is_public r.0.body ≡ true)

  with_token-IsRefusal :
      (request : Request) (serve : World P → Response × World P) (w : World P)
      → authenticate request.authorization w ≡ none
      → IsRefusal w (with_token F request serve w)
  with_token-IsRefusal request serve w stranger = rw stranger (refl, refl)

  token_routes-IsRefusal :
      (rotating : Bool) (request : Request) (w : World P)
      → authenticate request.authorization w ≡ none
      → IsRefusal w (token_routes F rotating request w)
  unfolding token_routes
  token_routes-IsRefusal rotating request w stranger = rw (stranger, token_routes) (refl, refl)

  last_routes-IsRefusal :
      (request : Request) (w : World P)
      → authenticate request.authorization w ≡ none
      → IsRefusal w (last_routes F request w)
  unfolding last_routes
  last_routes-IsRefusal request w stranger = ground arith

  service_routes-IsRefusal :
      (request : Request) (key : Option ℕ) (w : World P)
      → authenticate request.authorization w ≡ none
      → IsRefusal w (service_routes F request key w)
  unfolding service_routes
  service_routes-IsRefusal request none w stranger = (refl, refl)
  service_routes-IsRefusal request (some service_id) w stranger =
      with_token-IsRefusal request (on_service F request.method request service_id) w stranger

  below_services-IsRefusal :
      (request : Request) (key : Option Text) (w : World P)
      → authenticate request.authorization w ≡ none
      → IsRefusal w (below_services F request key w)
  below_services-IsRefusal request none w stranger = last_routes-IsRefusal request w stranger
  below_services-IsRefusal request (some key) w stranger =
      service_routes-IsRefusal request (F.parse_uuid key) w stranger

  -- What holds of each route holds of the handler.
  pub api_handler-routes :
      (Q : Response × World P → Type 0) (request : Request) (w : World P)
      → ((rotating : Bool) → Q (token_routes F rotating request w))
      → Q (with_token F request (list_events F) w)
      → Q (with_token F request (list_nodes F) w)
      → ((suffix : Text) → Q (with_token F request (node_route F suffix) w))
      → Q (with_token F request (create_service F request) w)
      → ((key : Option Text) → Q (below_services F request key w))
      → Q (api_handler F request w)
  unfolding api_handler
  api_handler-routes Q request w on_tokens on_events on_nodes on_node on_create on_rest =
      if-holds Q (is_route request post (text "/v1/admin/tokens/rotate")) (on_tokens true) (
        if-holds Q (is_route request post (text "/v1/admin/tokens/revoke")) (on_tokens false) (
          if-holds Q (is_route request get (text "/v1/events")) on_events (
            if-holds Q (is_route request get (text "/v1/nodes")) on_nodes (
              if-holds Q
                (method_eq request.method get && starts_with request.path (text "/v1/nodes/"))
                (on_node (drop 10 request.path))
                (if-holds Q (is_route request post (text "/v1/services")) on_create
                  (on_rest (strip_prefix (text "/v1/services/") request.path)))))))

  -- A request whose token is not valid, or that has none, changes nothing of the server and is told
  -- nothing of its state: it gets an error, or that the server is up.
  pub api_handler-IsRefusal :
      (request : Request) (w : World P)
      → authenticate request.authorization w ≡ none
      → IsRefusal w (api_handler F request w)
  api_handler-IsRefusal request w stranger =
      let refused =
        λ (serve : World P → Response × World P). with_token-IsRefusal request serve w stranger in
      api_handler-routes (IsRefusal w) request w
        (λ rotating. token_routes-IsRefusal rotating request w stranger) (refused (list_events F))
        (refused (list_nodes F)) (λ suffix. refused (node_route F suffix))
        (refused (create_service F request))
        (λ key. below_services-IsRefusal request key w stranger)
