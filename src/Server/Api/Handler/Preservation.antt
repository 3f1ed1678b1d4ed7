-- ===== src/Server/Api/Handler/Preservation.antt =====
-- What `api_handler` of crates/ongrok-relay-server/src/server.rs does to the state, by the operations
-- that it calls.
use ongrok_relay.Prelude.{
  ℕ, Bool, true, false, Option, none, some, Text, ok, err, Fallible, if-holds, suc, text, is_some,
  ◌||◌,
}
use ongrok_relay.Libongrok.Types.{TokenKind, EventKind}
use ongrok_relay.Server.State.{Platform, World, record_event}
use ongrok_relay.Libongrok.Tokens.{generate_token}
use ongrok_relay.Server.Revocation.{authenticate, replace_token}
use ongrok_relay.Server.Api.{
  token_mutation_request, Method, get, post, patch, delete, options, Request, Response, Formats,
}
use ongrok_relay.Server.Api.Services.{create_service, get_service, delete_service, patch_service}
use ongrok_relay.Server.Api.Handler.{
  is_admin, is_route, list_events, list_nodes, list_services, rotated, revoked, with_token,
  token_routes, mutate, rotate, revoke, last_routes, service_routes, on_service, node_route,
  api_handler, below_services,
}
use ongrok_relay.Server.Api.Handler.Access.{api_handler-routes}

module _ {P : Platform} (Q : World P → Type 0)
    (drawing : (w : World P) → Q w → Q (record w { drawn = suc w.drawn }))
    (recording : (kind : EventKind) (n i : Option ℕ) (t : Option TokenKind) (w : World P)
      → Q w
      → Q (record_event kind n i t w))
    (replacing : (kind : TokenKind) (hash : Option Text) (w : World P)
      → Q w
      → Q (replace_token kind hash w).1)
    (creating : (F : Formats) (request : Request) (w : World P)
      → Q w
      → Q (create_service F request w).1)
    (deleting : (service_id : ℕ) (w : World P) → Q w → Q (delete_service service_id w).1)
    (patching : (F : Formats) (request : Request) (service_id : ℕ) (w : World P)
      → Q w
      → Q (patch_service F request service_id w).1) where
  abbrev Keeps : (World P → Response × World P) → Type 0
  Keeps serve = (w : World P) → Q w → Q (serve w).1

  rotate-Keeps : (F : Formats) (kind : TokenKind) → Keeps (rotate F kind)
  unfolding rotate
  rotate-Keeps F kind w v =
      let w' : World P = record w { drawn = suc w.drawn } in
      let (token, hash) = generate_token P.blake3 kind (F.random w.drawn) in
      rotated-Q token (replace_token kind (some hash) w')
        (replacing kind (some hash) w' (drawing w v))
    where
      rotated-Q :
          (token : Text) (r : Fallible (Unit {0}) × World P) → Q r.1 → Q (rotated F kind token r).1
      rotated-Q token (ok _, w') v' = recording EventKind.token_rotated none none (some kind) w' v'
      rotated-Q token (err e, w') v' = v'

  revoke-Keeps : (F : Formats) (kind : TokenKind) → Keeps (revoke F kind)
  unfolding revoke
  revoke-Keeps F kind w v = revoked-Q (replace_token kind none w) (replacing kind none w v)
    where
      revoked-Q : (r : Fallible (Unit {0}) × World P) → Q r.1 → Q (revoked F kind r).1
      revoked-Q (ok _, w') v' = recording EventKind.token_revoked none none (some kind) w' v'
      revoked-Q (err e, w') v' = v'

  token_routes-Keeps :
      (F : Formats) (rotating : Bool) (request : Request) → Keeps (token_routes F rotating request)
  unfolding token_routes
  token_routes-Keeps F rotating request w v =
      if-holds (λ (r : Response × World P). Q r.1) (is_admin (authenticate request.authorization w))
        (mutated rotating (token_mutation_request F request)) v
    where
      mutated : (rotating : Bool) (r : Fallible TokenKind) → Q (mutate F rotating r w).1
      mutated rotating (err e) = v
      mutated true (ok kind) = rotate-Keeps F kind w v
      mutated false (ok kind) = revoke-Keeps F kind w v

  with_token-Keeps :
      (F : Formats) (request : Request) (serve : World P → Response × World P)
      → Keeps serve
      → Keeps (with_token F request serve)
  with_token-Keeps F request serve k w v =
      if-holds (λ (r : Response × World P). Q r.1) (is_some (authenticate request.authorization w))
        (k w v) v

  last_routes-Keeps : (F : Formats) (request : Request) → Keeps (last_routes F request)
  unfolding last_routes
  last_routes-Keeps F request w v =
      let Q = λ (r : Response × World P). Q r.1 in
      if-holds Q (is_route request get (text "/healthz") || is_route request get (text "/readyz")) v
        (if-holds Q (is_route request post (text "/v1/auth/validate")) v (
          if-holds Q (is_route request get (text "/v1/services"))
            (with_token-Keeps F request (list_services F) (λ w v. v) w v) v))

  on_service-Keeps :
      (F : Formats) (method : Method) (request : Request) (service_id : ℕ)
      → Keeps (on_service F method request service_id)
  unfolding get_service
  on_service-Keeps F get request service_id w v = v
  on_service-Keeps F delete request service_id w v = deleting service_id w v
  on_service-Keeps F patch request service_id w v = patching F request service_id w v
  on_service-Keeps F post request service_id w v = last_routes-Keeps F request w v
  on_service-Keeps F options request service_id w v = last_routes-Keeps F request w v

  below_services-Keeps :
      (F : Formats) (request : Request) (key : Option Text) → Keeps (below_services F request key)
  unfolding service_routes
  below_services-Keeps F request none w v = last_routes-Keeps F request w v
  below_services-Keeps F request (some key) w v = at_id (F.parse_uuid key)
    where
      at_id : (id : Option ℕ) → Q (service_routes F request id w).1
      at_id none = v
      at_id (some id) =
          with_token-Keeps F request (on_service F request.method request id)
            (on_service-Keeps F request.method request id) w v

  -- What these operations preserve, every request of the control API preserves.
  pub api_handler-preserves :
      (F : Formats) (request : Request) (w : World P) → Q w → Q (api_handler F request w).1
  unfolding node_route
  api_handler-preserves F request w v =
      api_handler-routes F (λ r. Q r.1) request w
        (λ rotating. token_routes-Keeps F rotating request w v)
        (with_token-Keeps F request (list_events F) (λ w v. v) w v)
        (with_token-Keeps F request (list_nodes F) (λ w v. v) w v)
        (λ suffix. with_token-Keeps F request (node_route F suffix) (λ w v. v) w v)
        (with_token-Keeps F request (create_service F request) (creating F request) w v)
        (λ key. below_services-Keeps F request key w v)
