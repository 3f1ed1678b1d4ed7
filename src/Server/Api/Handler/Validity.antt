-- ===== src/Server/Api/Handler/Validity.antt =====
-- The requests of the control API and the registry: `api_handler` of
-- crates/ongrok-relay-server/src/server.rs.
use ongrok_relay.Server.State.{Platform, World}
use ongrok_relay.Server.Registry.Invariant.{IsValid}
use ongrok_relay.Server.Registry.Bystanders.{SameRegistry-IsValid, replace_token-IsBystander}
use ongrok_relay.Server.Api.{Request, Formats}
use ongrok_relay.Server.Api.Services.Validity.{
  create_service-Keeps, delete_service-Keeps, patch_service-Keeps, record_event-IsValid,
}
use ongrok_relay.Server.Api.Handler.{api_handler}
use ongrok_relay.Server.Api.Handler.Preservation.{api_handler-preserves}

module _ {P : Platform} where
  -- Whatever a request of the control API asks for, with whatever token, and whether it is served,
  -- refused or fails in the store, the registry stays valid.
  pub api_handler-IsValid :
      (F : Formats) (request : Request) (w : World P)
      → IsValid w.app
      → IsValid (api_handler F request w).1.app
  api_handler-IsValid =
      api_handler-preserves (λ w. IsValid w.app) (λ w v. v) record_event-IsValid
        (λ kind hash w. SameRegistry-IsValid w.app _ (replace_token-IsBystander kind hash w))
        create_service-Keeps delete_service-Keeps patch_service-Keeps
