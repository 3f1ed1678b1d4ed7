-- ===== src/Server/Api/Services.antt =====
-- The branches of `api_handler` for `/v1/services` and below: create, read, patch and delete.
pub mod Validity
pub mod Untouched
use ongrok_relay.Prelude.{
  ℕ, Bool, true, false, List, Option, none, some, Text, text, length, ltb, if◌then◌else◌, Result,
  ok, err, Fallible, is_ok,
}
use ongrok_relay.BTree.{lookup, remove, update}
use ongrok_relay.Libongrok.Types.{ServiceDefinition, Metadata, NodeRecord, EventKind, is_online}
use ongrok_relay.Libongrok.Validation.{ValidationError, validate}
use ongrok_relay.Server.State.{Platform, World, persist, new_id, record_event}
use ongrok_relay.Server.Registry.{register_service}
use ongrok_relay.Server.Api.{
  Request, Response, Formats, ServiceCreateRequest, json, refuse, service, view, deleted,
  max_api_body_bytes, into_definition, service_view,
}

abbrev pub with_metadata : Metadata → ServiceDefinition → ServiceDefinition
with_metadata m s = record s { metadata = m }

module _ {P : Platform} where
  abbrev pub created : Fallible ServiceDefinition × World P → Response × World P
  created (ok s, w) = (json 201 (service s), w)
  created (err e, w) = (refuse 400 (text "service could not be created"), w)

  abbrev pub create_on : ServiceCreateRequest → Option NodeRecord → World P → Response × World P
  create_on r none w = (refuse 404 (text "node not found"), w)
  create_on r (some node) w =
      if is_online node.status
      then created (register_service (into_definition r (P.uuid w.drawn)) r.node_id (new_id w).1)
      else (refuse 409 (text "node is offline"), w)

  abbrev pub create_parsed : Option ServiceCreateRequest → World P → Response × World P
  create_parsed none w = (refuse 400 (text "invalid service request"), w)
  create_parsed (some r) w = create_on r (lookup r.node_id w.app.nodes) w

  abbrev pub create_from : Formats → Fallible Text → World P → Response × World P
  create_from F (err e) w = (refuse 400 (text "invalid service request"), w)
  create_from F (ok bytes) w =
      if ltb max_api_body_bytes (length bytes)
      then (refuse 413 (text "service request is too large"), w)
      else create_parsed (F.service_create bytes) w

  -- `POST /v1/services`, once the token was accepted.
  unfoldable pub create_service : Formats → Request → World P → Response × World P
  create_service F request w = create_from F request.body w

  abbrev pub shown : Option ServiceDefinition → World P → Response
  shown none w = refuse 404 (text "service not found")
  shown (some s) w = json 200 (view (service_view s (lookup s.node_id w.app.nodes)))

  unfoldable pub get_service : ℕ → World P → Response × World P
  get_service service_id w = (shown (lookup service_id w.app.services) w, w)

  abbrev pub deleted_from :
      ℕ → ServiceDefinition → Fallible (Unit {0}) × World P → Response × World P
  deleted_from service_id s (ok _, w) = (
    json 200 (deleted service_id),
    record_event EventKind.service_deleted (some s.node_id) (some service_id) none w,
  )
  deleted_from service_id s (err e, w) = (refuse 500 (text "failed to delete service"), w)

  abbrev pub delete_found : ℕ → Option ServiceDefinition → World P → Response × World P
  delete_found service_id none w = (refuse 404 (text "service not found"), w)
  delete_found service_id (some s) w = deleted_from service_id s (
      persist (λ db. P.store.delete db service_id)
        (record w {
          app = record (w.app) {
            services = remove service_id w.app.services;
            tcp_ingress_tasks = remove service_id w.app.tcp_ingress_tasks;
          };
        }))

  unfoldable pub delete_service : ℕ → World P → Response × World P
  delete_service service_id w = delete_found service_id (lookup service_id w.app.services) w

  abbrev pub patched : ServiceDefinition → Fallible (Unit {0}) × World P → Response × World P
  patched s (ok _, w) = (json 200 (view (service_view s (lookup s.node_id w.app.nodes))), w)
  patched s (err e, w) = (refuse 500 (text "failed to update service"), w)

  abbrev pub patch_found : ℕ → Metadata → Option ServiceDefinition → World P → Response × World P
  patch_found service_id m none w = (refuse 404 (text "service not found"), w)
  patch_found service_id m (some s) w = patched (with_metadata m s) (
      persist (λ db. P.store.put db (with_metadata m s))
        (record w {
          app = record (w.app) { services = update service_id (with_metadata m) w.app.services };
        }))

  abbrev pub patch_valid :
      ℕ → Metadata → Result ValidationError (Unit {0}) → World P → Response × World P
  patch_valid service_id m (err e) w = (refuse 400 (text "invalid service metadata"), w)
  patch_valid service_id m (ok _) w = patch_found service_id m (lookup service_id w.app.services) w

  abbrev pub patch_parsed : ℕ → Option (Option Metadata) → World P → Response × World P
  patch_parsed service_id none w = (refuse 400 (text "invalid service patch request"), w)
  patch_parsed service_id (some none) w = (refuse 400 (text "metadata is required"), w)
  patch_parsed service_id (some (some m)) w = patch_valid service_id m (validate m) w

  abbrev pub patch_from : Formats → ℕ → Fallible Text → World P → Response × World P
  patch_from F service_id (err e) w = (refuse 400 (text "invalid service patch request"), w)
  patch_from F service_id (ok bytes) w =
      if ltb max_api_body_bytes (length bytes)
      then (refuse 413 (text "service patch request is too large"), w)
      else patch_parsed service_id (F.service_patch bytes) w

  unfoldable pub patch_service : Formats → Request → ℕ → World P → Response × World P
  patch_service F request service_id w = patch_from F service_id request.body w
