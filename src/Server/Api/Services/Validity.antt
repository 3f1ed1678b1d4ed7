-- ===== src/Server/Api/Services/Validity.antt =====
-- The registry and the creation, the patching and the deletion of a service over the control API, in
-- crates/ongrok-relay-server/src/server.rs.
use ongrok_relay.Prelude.{
  ℕ, ◌≡◌, refl, sym, ◌∙◌, subst, ◌==◌, Option, none, some, Text, Result, ok, err, Fallible, arith,
  Bool-cases, inl, inr, length, ltb, if-holds,
}
use ongrok_relay.BTree.{BTreeMap, lookup, update, remove}
use ongrok_relay.BTree.Lookup.{lookup-update-some}
use ongrok_relay.BTree.Order.{update-IsSorted}
use ongrok_relay.Libongrok.Types.{
  ServiceDefinition, Metadata, TokenKind, EventKind, Protocol, NodeRecord, is_online,
}
use ongrok_relay.Libongrok.Validation.{ValidationError, validate}
use ongrok_relay.Server.State.{Platform, AppState, World, persist, record_event, new_id}
use ongrok_relay.Server.Registry.Invariant.{
  IsRegistry, IsValid, register_service-IsValid, remove-IsRegistry, IsValid-of,
}
use ongrok_relay.Server.Registry.Bystanders.{
  SameRegistry-IsValid, record_event-SameRegistry, persist-IsBystander,
}
use ongrok_relay.Server.Registry.Admission.{HasEndpoint}
use ongrok_relay.Server.Api.{
  Request, Response, Formats, ServiceCreateRequest, into_definition, max_api_body_bytes,
}
use ongrok_relay.Server.Api.Services.{
  with_metadata, create_service, delete_service, patch_service, created, create_on, create_parsed,
  create_from, delete_found, patch_found, patch_valid, patch_parsed, patch_from, deleted_from,
  patched,
}

-- Other metadata change nothing else of a service.
record SameButMetadata (a b : ServiceDefinition) : Type 0 where
  same_id : a.service_id ≡ b.service_id
  same_name : a.service_name ≡ b.service_name
  same_protocol : a.protocol ≡ b.protocol
  same_port : a.public_port ≡ b.public_port
  same_host : a.public_host ≡ b.public_host

-- An entry after a patch is one from before, whose metadata may have been replaced.
patched_from :
    (k j : ℕ) (m : Metadata) (a : ServiceDefinition) (services : BTreeMap ServiceDefinition)
    → validate m ≡ ok tt
    → lookup j (update k (with_metadata m) services) ≡ some a
    → (b : ServiceDefinition) × (lookup j services ≡ some b)
      × (SameButMetadata a b × (validate b.metadata ≡ ok tt → validate a.metadata ≡ ok tt))
patched_from k j m a services good e =
    let (b, at, same) = lookup-update-some k j (with_metadata m) a services e in
    (
      b,
      at,
      elim (Bool-cases (k == j)) [
        | inl p ↦ let is : a ≡ with_metadata m b = ground arith in (ground arith, λ _. ground arith)
        | inr p ↦ let is : a ≡ b = ground arith in (ground arith, λ h. ground arith)
      ],
    )

module _ {P : Platform} where
  -- Other metadata within the limits keeps the registry valid.
  pub patch-IsRegistry :
      (s : AppState P) (k : ℕ) (m : Metadata) (services : BTreeMap ServiceDefinition)
      → validate m ≡ ok tt
      → IsRegistry s services
      → IsRegistry s (update k (with_metadata m) services)
  patch-IsRegistry s k m services good v = record {
    sorted = update-IsSorted k (with_metadata m) services v.sorted;
    entries = λ j a e.
        let (b, at, (same, described)) = patched_from k j m a services good e in
        let entry = v.entries j b at in
        record {
          keyed = same.same_id ∙ entry.keyed;
          named = rw same.same_name entry.named;
          described = described entry.described;
          endpoint = HasEndpoint-of s a b same entry.endpoint;
        };
    names = λ i j a b x y r.
        let (a', x', (sa, _)) = patched_from k i m a services good x in
        let (b', y', (sb, _)) = patched_from k j m b services good y in
        v.names i j a' b' x' y' (sym sa.same_name ∙ r ∙ sb.same_name);
    ports = λ i j a b x y r.
        let (a', x', (sa, _)) = patched_from k i m a services good x in
        let (b', y', (sb, _)) = patched_from k j m b services good y in
        v.ports i j a' b' x' y' (
          sym sa.same_protocol ∙ r.0,
          sym sb.same_protocol ∙ r.1,
          sym sa.same_port ∙ r.2 ∙ sb.same_port,
        );
  }
    where
      HasEndpoint-of :
          (s : AppState P) (a b : ServiceDefinition)
          → SameButMetadata a b
          → HasEndpoint s b b.protocol
          → HasEndpoint s a a.protocol
      HasEndpoint-of s a b same h =
          subst (HasEndpoint s a) (sym same.same_protocol) (at_protocol s a b b.protocol same h)
        where
          at_protocol :
              (s : AppState P) (a b : ServiceDefinition) (p : Protocol)
              → SameButMetadata a b
              → HasEndpoint s b p
              → HasEndpoint s a p
          at_protocol s a b Protocol.tcp same (port, at, low, high, host) =
              (port, same.same_port ∙ at, low, high, same.same_host ∙ host)
          at_protocol s a b Protocol.http same (domain, set, host, port) =
              (domain, set, rw same.same_name (same.same_host ∙ host), same.same_port ∙ port)
          at_protocol s a b Protocol.https same (domain, set, host, port) =
              (domain, set, rw same.same_name (same.same_host ∙ host), same.same_port ∙ port)

  IsValid-persist :
      (f : P.store.Db → Fallible P.store.Db) (w : World P)
      → IsValid w.app
      → IsValid (persist f w).1.app
  IsValid-persist f w v = SameRegistry-IsValid w.app _ (persist-IsBystander f w) v

  abbrev pub Keeps : (World P → Response × World P) → Type 0
  Keeps serve = (w : World P) → IsValid w.app → IsValid (serve w).1.app

  created-IsValid :
      (r : Fallible ServiceDefinition × World P) → IsValid r.1.app → IsValid (created r).1.app
  created-IsValid (ok s, w) v = v
  created-IsValid (err e, w) v = v

  pub create_service-Keeps : (F : Formats) (request : Request) → Keeps (create_service F request)
  unfolding create_service
  create_service-Keeps F request w v = create_from-Keeps request.body
    where
      create_on-Keeps :
          (r : ServiceCreateRequest) (node : Option NodeRecord) → IsValid (create_on r node w).1.app
      create_on-Keeps r none = v
      create_on-Keeps r (some node) = elim (Bool-cases (is_online node.status)) [
        | inr off ↦ rw off v
        | inl on ↦ rw on (
            created-IsValid _ (
              register_service-IsValid (new_id w).1 (into_definition r (P.uuid w.drawn)) r.node_id
                v))
      ]

      create_from-Keeps : (body : Fallible Text) → IsValid (create_from F body w).1.app
      create_from-Keeps (err e) = v
      create_from-Keeps (ok bytes) =
          if-holds (λ (r : Response × World P). IsValid r.1.app)
            (ltb max_api_body_bytes (length bytes)) v (parsed (F.service_create bytes))
        where
          parsed : (r : Option ServiceCreateRequest) → IsValid (create_parsed r w).1.app
          parsed none = v
          parsed (some r) = create_on-Keeps r (lookup r.node_id w.app.nodes)

  pub record_event-IsValid :
      (kind : EventKind) (n i : Option ℕ) (t : Option TokenKind) (w : World P)
      → IsValid w.app
      → IsValid (record_event kind n i t w).app
  record_event-IsValid kind n i t w v =
      SameRegistry-IsValid w.app _ (record_event-SameRegistry kind n i t w) v

  pub delete_service-Keeps : (service_id : ℕ) → Keeps (delete_service service_id)
  unfolding delete_service
  delete_service-Keeps service_id w v = found (lookup service_id w.app.services)
    where
      deleted-IsValid :
          (s : ServiceDefinition) (r : Fallible (Unit {0}) × World P)
          → IsValid r.1.app
          → IsValid (deleted_from service_id s r).1.app
      deleted-IsValid s (ok _, w') v' =
          record_event-IsValid EventKind.service_deleted (some s.node_id) (some service_id) none w'
            v'
      deleted-IsValid s (err e, w') v' = v'

      found : (o : Option ServiceDefinition) → IsValid (delete_found service_id o w).1.app
      found none = v
      found (some s) =
          let w' : World P = record w {
            app = record (w.app) {
              services = remove service_id w.app.services;
              tcp_ingress_tasks = remove service_id w.app.tcp_ingress_tasks;
            };
          } in
          deleted-IsValid s (persist (λ db. P.store.delete db service_id) w') (
            IsValid-persist (λ db. P.store.delete db service_id) w'
              (IsValid-of w.app w'.app _ (ground arith) refl
                (remove-IsRegistry w.app service_id _ v)))

  pub patch_service-Keeps :
      (F : Formats) (request : Request) (service_id : ℕ)
      → Keeps (patch_service F request service_id)
  unfolding patch_service
  patch_service-Keeps F request service_id w v = from request.body
    where
      patched-IsValid :
          (s : ServiceDefinition) (r : Fallible (Unit {0}) × World P)
          → IsValid r.1.app
          → IsValid (patched s r).1.app
      patched-IsValid s (ok _, w') v' = v'
      patched-IsValid s (err e, w') v' = v'

      found :
          (m : Metadata) (o : Option ServiceDefinition)
          → validate m ≡ ok tt
          → IsValid (patch_found service_id m o w).1.app
      found m none good = v
      found m (some s) good =
          let w' : World P = record w {
            app = record (w.app) { services = update service_id (with_metadata m) w.app.services };
          } in
          patched-IsValid (with_metadata m s)
            (persist (λ db. P.store.put db (with_metadata m s)) w')
            (IsValid-persist (λ db. P.store.put db (with_metadata m s)) w'
              (IsValid-of w.app w'.app _ (ground arith) refl
                (patch-IsRegistry w.app service_id m w.app.services good v)))

      checked :
          (m : Metadata) (r : Result ValidationError (Unit {0}))
          → validate m ≡ r
          → IsValid (patch_valid service_id m r w).1.app
      checked m (err e) good = v
      checked m (ok tt) good = found m (lookup service_id w.app.services) good

      parsed : (r : Option (Option Metadata)) → IsValid (patch_parsed service_id r w).1.app
      parsed none = v
      parsed (some none) = v
      parsed (some (some m)) = checked m (validate m) refl

      from : (body : Fallible Text) → IsValid (patch_from F service_id body w).1.app
      from (err e) = v
      from (ok bytes) =
          if-holds (λ (r : Response × World P). IsValid r.1.app)
            (ltb max_api_body_bytes (length bytes)) v (parsed (F.service_patch bytes))
