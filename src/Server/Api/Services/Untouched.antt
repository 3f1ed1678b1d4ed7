-- ===== src/Server/Api/Services/Untouched.antt =====
-- The control API's operations on services, of crates/ongrok-relay-server/src/server.rs, leave the
-- sessions and the nodes alone.
use ongrok_relay.Prelude.{
  ℕ, Option, none, some, Text, length, ltb, ok, err, Fallible, arith, if-holds, Bool-cases, inl,
  inr,
}
use ongrok_relay.BTree.{lookup}
use ongrok_relay.Libongrok.Types.{NodeRecord, ServiceDefinition, is_online}
use ongrok_relay.Server.State.{Platform, World, record_event, new_id}
use ongrok_relay.Server.Registry.{register_service}
use ongrok_relay.Server.Registry.Untouched.{Untouched, Untouched-trans, register_service-Untouched}
use ongrok_relay.Server.Api.{
  Request, Response, Formats, ServiceCreateRequest, into_definition, max_api_body_bytes,
}
use ongrok_relay.Server.Api.Services.{
  create_service, delete_service, patch_service, created, create_on, create_parsed, create_from,
}

module _ {P : Platform} where
  pub delete_service-Untouched :
      (service_id : ℕ) (w : World P) → Untouched w.app (delete_service service_id w).1.app
  unfolding delete_service record_event
  delete_service-Untouched service_id w = ground arith

  pub patch_service-Untouched :
      (F : Formats) (request : Request) (service_id : ℕ) (w : World P)
      → Untouched w.app (patch_service F request service_id w).1.app
  unfolding patch_service
  patch_service-Untouched F request service_id w = ground arith

  created-Untouched :
      (r : Fallible ServiceDefinition × World P) → Untouched r.1.app (created r).1.app
  created-Untouched (ok s, w) = ground arith
  created-Untouched (err e, w) = ground arith

  create_on-Untouched :
      (r : ServiceCreateRequest) (node : Option NodeRecord) (w : World P)
      → Untouched w.app (create_on r node w).1.app
  create_on-Untouched r none w = ground arith
  create_on-Untouched r (some node) w = elim (Bool-cases (is_online node.status)) [
    | inr off ↦ rw off (ground arith)
    | inl on ↦ rw on (
        let tried = register_service (into_definition r (P.uuid w.drawn)) r.node_id (new_id w).1 in
        Untouched-trans (new_id w).1.app _ _
          (register_service-Untouched (new_id w).1 (into_definition r (P.uuid w.drawn)) r.node_id)
          (created-Untouched tried))
  ]

  pub create_service-Untouched :
      (F : Formats) (request : Request) (w : World P)
      → Untouched w.app (create_service F request w).1.app
  unfolding create_service
  create_service-Untouched F request w = from request.body
    where
      parsed : (r : Option ServiceCreateRequest) → Untouched w.app (create_parsed r w).1.app
      parsed none = ground arith
      parsed (some r) = create_on-Untouched r (lookup r.node_id w.app.nodes) w

      from : (body : Fallible Text) → Untouched w.app (create_from F body w).1.app
      from (err e) = ground arith
      from (ok bytes) =
          if-holds (λ (r : Response × World P). Untouched w.app r.1.app)
            (ltb max_api_body_bytes (length bytes)) (ground arith) (parsed (F.service_create bytes))
