-- ===== src/Server/Api/Handler/Order.antt =====
-- The sessions and the requests of the control API: `api_handler` of
-- crates/ongrok-relay-server/src/server.rs.
use ongrok_relay.Prelude.{sym, subst}
use ongrok_relay.BTree.Order.{IsSorted}
use ongrok_relay.Server.State.{Platform, World}
use ongrok_relay.Server.Registry.Untouched.{record_event-Untouched}
use ongrok_relay.Server.Api.Services.Untouched.{
  create_service-Untouched, delete_service-Untouched, patch_service-Untouched,
}
use ongrok_relay.Server.Revocation.Effects.{replace_token-IsSorted}
use ongrok_relay.Server.Api.{Request, Formats}
use ongrok_relay.Server.Api.Handler.{api_handler}
use ongrok_relay.Server.Api.Handler.Preservation.{api_handler-preserves}

module _ {P : Platform} where
  pub api_handler-IsSorted :
      (F : Formats) (request : Request) (w : World P)
      → IsSorted w.app.sessions
      → IsSorted (api_handler F request w).1.app.sessions
  api_handler-IsSorted =
      api_handler-preserves (λ w. IsSorted w.app.sessions) (λ w v. v)
        (λ kind n i t w.
          subst (λ m. IsSorted m) (sym (record_event-Untouched kind n i t w).sessions))
        replace_token-IsSorted
        (λ F request w.
          subst (λ m. IsSorted m) (sym (create_service-Untouched F request w).sessions))
        (λ id w. subst (λ m. IsSorted m) (sym (delete_service-Untouched id w).sessions))
        (λ F request id w.
          subst (λ m. IsSorted m) (sym (patch_service-Untouched F request id w).sessions))
