-- ===== src/Server/Mirror/Services.antt =====
-- The services that the control API of crates/ongrok-relay-server/src/server.rs creates, patches and
-- deletes, and the stored services.
use ongrok_relay.Prelude.{
  ℕ, ◌≡◌, refl, sym, ◌∙◌, ap, Option, none, some, ok, err, Fallible, Result, Bool-cases, inl, inr,
  ◌==◌, if◌then◌else◌, if-holds, ltb, length, ==_iff, Text,
}
use mathlib.Core.Option
use ongrok_relay.BTree.{BTreeMap, lookup, update}
use ongrok_relay.BTree.Lookup.{lookup-update}
use ongrok_relay.Libongrok.Types.{ServiceDefinition, EventKind, Metadata, NodeRecord, is_online}
use ongrok_relay.Libongrok.Validation.{ValidationError, validate}
use ongrok_relay.Server.State.{Platform, World, persist, new_id}
use ongrok_relay.Server.Registry.Invariant.{IsValid}
use ongrok_relay.Server.Api.{
  Request, Response, Formats, ServiceCreateRequest, into_definition, max_api_body_bytes,
}
use ongrok_relay.Server.Api.Services.{
  with_metadata, create_service, delete_service, patch_service, created, create_on, create_parsed,
  create_from, delete_found, patch_found, patch_valid, patch_parsed, patch_from,
}
use ongrok_relay.Server.Mirror.{Durable, Mirrors}
use ongrok_relay.Server.Mirror.Registry.{
  delete-Mirrors, record_event-Mirrors, register_service-Mirrors,
}

lookup-patched :
    (service_id k : ℕ) (metadata : Metadata) (s : ServiceDefinition)
    (services : BTreeMap ServiceDefinition)
    → lookup service_id services ≡ some s
    → s.service_id ≡ service_id
    → (if s.service_id == k then some (with_metadata metadata s) else lookup k services)
      ≡ lookup k (update service_id (with_metadata metadata) services)
lookup-patched service_id k metadata s services e keyed =
    let at_key = λ (j : ℕ). if j == k then some (with_metadata metadata s) else lookup k services in
    ap at_key keyed ∙ elim (Bool-cases (service_id == k)) [
      | inl h ↦
          let at : service_id ≡ k = (==_iff service_id k).0 h in
          rw (lookup-update service_id k (with_metadata metadata) services, h)
            (ap (Option.map (with_metadata metadata)) (sym e ∙ ap (λ j. lookup j services) at))
      | inr h ↦ rw (lookup-update service_id k (with_metadata metadata) services, h) refl
    ]

module _ {P : Platform} (D : Durable P.store) where
  created-Mirrors :
      (r : Fallible ServiceDefinition × World P) → Mirrors D r.1.app → Mirrors D (created r).1.app
  created-Mirrors (ok s, w) m = m
  created-Mirrors (err e, w) m = m

  create_on-Mirrors :
      (r : ServiceCreateRequest) (node : Option NodeRecord) (w : World P)
      → Mirrors D w.app
      → Mirrors D (create_on r node w).1.app
  create_on-Mirrors r none w m = m
  create_on-Mirrors r (some node) w m = elim (Bool-cases (is_online node.status)) [
    | inr off ↦ rw off m
    | inl on ↦ rw on (
        created-Mirrors _ (
          register_service-Mirrors D (into_definition r (P.uuid w.drawn)) r.node_id (new_id w).1
            (record { table = m.table; same = m.same })))
  ]

  pub create_service-Mirrors :
      (F : Formats) (request : Request) (w : World P)
      → Mirrors D w.app
      → Mirrors D (create_service F request w).1.app
  unfolding create_service
  create_service-Mirrors F request w m = from request.body
    where
      parsed : (r : Option ServiceCreateRequest) → Mirrors D (create_parsed r w).1.app
      parsed none = m
      parsed (some r) = create_on-Mirrors r (lookup r.node_id w.app.nodes) w m

      from : (body : Fallible Text) → Mirrors D (create_from F body w).1.app
      from (err e) = m
      from (ok bytes) =
          if-holds (λ (r : Response × World P). Mirrors D r.1.app)
            (ltb max_api_body_bytes (length bytes)) m (parsed (F.service_create bytes))

  pub delete_service-Mirrors :
      (service_id : ℕ) (w : World P)
      → Mirrors D w.app
      → Mirrors D (delete_service service_id w).1.app
  unfolding delete_service
  delete_service-Mirrors service_id w m = found (lookup service_id w.app.services)
    where
      found : (o : Option ServiceDefinition) → Mirrors D (delete_found service_id o w).1.app
      found none = m
      found (some s) =
          let (db, done, kept) = delete-Mirrors D w.app service_id m in
          rw (done, persist)
            (record_event-Mirrors D EventKind.service_deleted (some s.node_id) (some service_id)
              none _ (record { table = kept.table; same = kept.same }))

  put-patched :
      (service_id : ℕ) (metadata : Metadata) (s : ServiceDefinition) (w : World P)
      → lookup service_id w.app.services ≡ some s
      → s.service_id ≡ service_id
      → Mirrors D w.app
      → Mirrors D (patch_found service_id metadata (some s) w).1.app
  put-patched service_id metadata s w e keyed m =
      let (db, done, table, seen) = D.put w.app.store (with_metadata metadata s) m.table in
      rw (done, persist)
        (record {
          table = table;
          same = λ k.
              seen k
              ∙ ap (λ o. if s.service_id == k then some (with_metadata metadata s) else o)
                  (m.same k)
              ∙ lookup-patched service_id k metadata s w.app.services e keyed;
        })

  pub patch_service-Mirrors :
      (F : Formats) (request : Request) (service_id : ℕ) (w : World P)
      → IsValid w.app
      → Mirrors D w.app
      → Mirrors D (patch_service F request service_id w).1.app
  unfolding patch_service
  patch_service-Mirrors F request service_id w v m = from request.body
    where
      found :
          (metadata : Metadata) (o : Option ServiceDefinition)
          → lookup service_id w.app.services ≡ o
          → Mirrors D (patch_found service_id metadata o w).1.app
      found metadata none e = m
      found metadata (some s) e =
          put-patched service_id metadata s w e (v.entries service_id s e).keyed m

      valid :
          (metadata : Metadata) (r : Result ValidationError (Unit {0}))
          → Mirrors D (patch_valid service_id metadata r w).1.app
      valid metadata (err e) = m
      valid metadata (ok _) = found metadata (lookup service_id w.app.services) refl

      parsed : (o : Option (Option Metadata)) → Mirrors D (patch_parsed service_id o w).1.app
      parsed none = m
      parsed (some none) = m
      parsed (some (some metadata)) = valid metadata (validate metadata)

      from : (body : Fallible Text) → Mirrors D (patch_from F service_id body w).1.app
      from (err e) = m
      from (ok bytes) =
          if-holds (λ (r : Response × World P). Mirrors D r.1.app)
            (ltb max_api_body_bytes (length bytes)) m (parsed (F.service_patch bytes))
