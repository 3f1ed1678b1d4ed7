-- ===== src/Server/Mirror/Steps.antt =====
-- The stored services at any time: over the steps of `Server.System`.
use ongrok_relay.Prelude.{Bool}
use ongrok_relay.Libongrok.Types.{Frame}
use ongrok_relay.Server.State.{Platform, World}
use ongrok_relay.Server.Registry.Invariant.{IsValid}
use ongrok_relay.Server.Registry.Bystanders.{
  replace_token-IsBystander, record_heartbeat-IsBystander, join-IsBystander, leave-IsBystander,
}
use ongrok_relay.Server.Revocation.{replace_token}
use ongrok_relay.Server.Session.{Peer, Client, handle_frame, join, record_heartbeat, leave}
use ongrok_relay.Server.Session.Preservation.{handle_frame-preserves}
use ongrok_relay.Server.Api.{Request, Formats}
use ongrok_relay.Server.Api.Services.Validity.{
  create_service-Keeps, delete_service-Keeps, patch_service-Keeps, record_event-IsValid,
}
use ongrok_relay.Server.Api.Handler.{api_handler}
use ongrok_relay.Server.Api.Handler.Preservation.{api_handler-preserves}
use ongrok_relay.Server.System.{
  Step, frame, ending, request, tick, Reach, start, step, Reach-IsValid,
}
use ongrok_relay.Server.Registry.Bystanders.{SameRegistry-IsValid}
use ongrok_relay.Server.Mirror.{Durable, Mirrors}
use ongrok_relay.Server.Mirror.Bystanders.{
  quiet-Mirrors, replace_token-rows_of, record_heartbeat-rows_of, join-rows_of, leave-rows_of,
}
use ongrok_relay.Server.Mirror.Registry.{
  register_service-Mirrors, unregister_service-Mirrors, record_event-Mirrors,
}
use ongrok_relay.Server.Mirror.Services.{
  create_service-Mirrors, delete_service-Mirrors, patch_service-Mirrors,
}

module _ {P : Platform} (D : Durable P.store) where
  handle_frame-Mirrors :
      (c : Client) (registered : Bool) (f : Frame) (p : Peer P)
      → Mirrors D p.world.app
      → Mirrors D (handle_frame c registered f p).1.world.app
  handle_frame-Mirrors c =
      handle_frame-preserves (λ (w : World P). Mirrors D w.app) c
        (λ metadata key w.
          quiet-Mirrors D w (join c metadata key w).1 (join-rows_of D c metadata key w)
            (join-IsBystander c metadata key w).services)
        (register_service-Mirrors D) (unregister_service-Mirrors D)
        (λ snapshot w.
          quiet-Mirrors D w (record_heartbeat c.node_id snapshot w).1
            (record_heartbeat-rows_of D c.node_id snapshot w)
            (record_heartbeat-IsBystander c.node_id snapshot w).services)

  api_handler-Mirrors :
      (F : Formats) (r : Request) (w : World P)
      → IsValid w.app × Mirrors D w.app
      → IsValid (api_handler F r w).1.app × Mirrors D (api_handler F r w).1.app
  api_handler-Mirrors =
      api_handler-preserves (λ (w : World P). IsValid w.app × Mirrors D w.app)
        (λ w (v, m). (v, record { table = m.table; same = m.same }))
        (λ kind n i t w (v, m).
          (record_event-IsValid kind n i t w v, record_event-Mirrors D kind n i t w m))
        (λ kind hash w (v, m).
          let same = replace_token-IsBystander kind hash w in
          (
            SameRegistry-IsValid w.app _ same v,
            quiet-Mirrors D w (replace_token kind hash w).1 (replace_token-rows_of D kind hash w)
                same.services m,
          ))
        (λ F r w (v, m). (create_service-Keeps F r w v, create_service-Mirrors D F r w m))
        (λ id w (v, m). (delete_service-Keeps id w v, delete_service-Mirrors D id w m))
        (λ F r id w (v, m). (patch_service-Keeps F r id w v, patch_service-Mirrors D F r id w v m))

  module _ (F : Formats) where
    Step-Mirrors : {v w : World P} → Step F v w → IsValid v.app → Mirrors D v.app → Mirrors D w.app
    Step-Mirrors (frame c registered f p) h m = handle_frame-Mirrors c registered f p m
    Step-Mirrors (ending c w) h m =
        quiet-Mirrors D w (leave c w).1 (leave-rows_of D c w) (leave-IsBystander c w).services m
    Step-Mirrors (request r w) h m = (api_handler-Mirrors F r w (h, m)).1
    Step-Mirrors (tick later w le) h m = record { table = m.table; same = m.same }

    pub Reach-Mirrors :
        {v w : World P} → Reach F v w → IsValid v.app → Mirrors D v.app → Mirrors D w.app
    Reach-Mirrors (start w) h m = m
    Reach-Mirrors (step r s) h m = Step-Mirrors s (Reach-IsValid F r h) (Reach-Mirrors r h m)
