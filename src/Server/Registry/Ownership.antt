-- ===== src/Server/Registry/Ownership.antt =====
-- Whose services `register_service` of crates/ongrok-relay-server/src/server.rs changes.
use ongrok_relay.Prelude.{
  ℕ, ◌≡◌, ◌≢◌, sym, ◌∙◌, subst, ◌⊎◌, inl, inr, Option, none, some, ok, arith, find-holds, find,
}
use ongrok_relay.BTree.{lookup, insert, remove, values}
use ongrok_relay.BTree.Lookup.{
  lookup-insert_self, lookup-insert_ne, lookup-remove_ne, lookup-remove_self,
}
use ongrok_relay.BTree.Order.{lookup-find}
use ongrok_relay.Libongrok.Types.{ServiceDefinition}
use ongrok_relay.Server.State.{Platform, AppState, World}
use ongrok_relay.Server.Registry.{is_previous, renew, admit, register_service}
use ongrok_relay.Server.Registry.Admission.{admit-Stages, assign-Keeps, Keeps}
use ongrok_relay.Server.Registry.Cases.{register_service-cases}
use ongrok_relay.Server.Registry.Invariant.{IsValid}

module _ {P : Platform} where
  -- The identifier of an admitted service is the one in the request, or that of a service which the
  -- node has.
  admit-id :
      (s : AppState P) (service a : ServiceDefinition) (node_id : ℕ)
      → IsValid s
      → admit s service node_id ≡ ok a
      → (a.service_id ≡ service.service_id)
        ⊎ ((b : ServiceDefinition) × (lookup a.service_id s.services ≡ some b)
            × (b.node_id ≡ node_id))
  unfolding renew
  admit-id s service a node_id v admitted =
      let stages = admit-Stages s service a node_id admitted in
      let kept = assign-Keeps s (renew stages.previous service) a _ stages.assigned in
      renewed stages.previous stages.found kept.same_id
    where
      renewed :
          (previous : Option ServiceDefinition)
          → find (is_previous node_id service.service_name) (values s.services) ≡ previous
          → a.service_id ≡ (renew previous service).service_id
          → (a.service_id ≡ service.service_id)
            ⊎ ((b : ServiceDefinition) × (lookup a.service_id s.services ≡ some b)
                × (b.node_id ≡ node_id))
      renewed none found same = inl same
      renewed (some p) found same =
          let (k, at) =
            lookup-find (is_previous node_id service.service_name) s.services p v.sorted found in
          let keyed = (v.entries k p at).keyed in
          let holds =
            find-holds (is_previous node_id service.service_name) (values s.services) p found in
          inr (p, ground arith, ground arith)

  -- In a valid registry, the service of another node stays as it is, unless the request names its
  -- identifier.
  pub register_service-others :
      (w : World P) (service b : ServiceDefinition) (node_id k : ℕ)
      → IsValid w.app
      → lookup k w.app.services ≡ some b
      → b.node_id ≢ node_id
      → service.service_id ≢ k
      → lookup k (register_service service node_id w).1.app.services ≡ some b
  register_service-others w service b node_id k v there other named =
      elim (register_service-cases w service node_id) [
        | inl (e, refused, same) ↦ rw same there
        | inr (a, admitted, (config, ended)) ↦
            let apart : a.service_id ≢ k = elim (admit-id w.app service a node_id v admitted) [
              | inl as_given ↦ λ p. named (sym as_given ∙ p)
              | inr (c, held, mine) ↦ λ p. other (ground arith)
            ] in
            let kept : lookup k (insert a.service_id a w.app.services) ≡ some b =
              lookup-insert_ne a.service_id k a w.app.services apart ∙ there in
            elim ended [
              | inl (done, same) ↦ rw same kept
              | inr (inl (failed, same)) ↦ rw same kept
              | inr (inr (failed, same)) ↦ rw same (
                  lookup-remove_ne a.service_id k (insert a.service_id a w.app.services) apart
                  ∙ kept)
            ]
      ]

  -- If a request is admitted that names the identifier of a service of another node, and no service of
  -- its own has the name, then that service is gone, whatever the store and the relay do.
  pub register_service-takes_over :
      (w : World P) (service a b : ServiceDefinition) (node_id : ℕ)
      → find (is_previous node_id service.service_name) (values w.app.services) ≡ none
      → admit w.app service node_id ≡ ok a
      → lookup service.service_id w.app.services ≡ some b
      → b.node_id ≢ service.node_id
      → ¬ (lookup service.service_id (register_service service node_id w).1.app.services ≡ some b)
  unfolding renew
  register_service-takes_over w service a b node_id fresh admitted there other still =
      let stages = admit-Stages w.app service a node_id admitted in
      let kept : Keeps w.app service a =
        unrenewed w.app stages.previous (sym stages.found ∙ fresh)
          (assign-Keeps w.app (renew stages.previous service) a _ stages.assigned) in
      elim (register_service-cases w service node_id) [
        | inl (e, refused, same) ↦ absurd (ground arith)
        | inr (a', admitted', (config, ended)) ↦
            let same_a : a' ≡ a = ground arith in
            elim ended [
              | inl (done, same) ↦
                  overwritten a' (subst (λ m. lookup service.service_id m ≡ some b) same still)
                    (owner a' same_a kept)
              | inr (inl (failed, same)) ↦
                  overwritten a' (subst (λ m. lookup service.service_id m ≡ some b) same still)
                    (owner a' same_a kept)
              | inr (inr (failed, same)) ↦
                  deleted_too a' (subst (λ m. lookup service.service_id m ≡ some b) same still)
                    (owner a' same_a kept)
            ]
      ]
    where
      owner :
          (a' : ServiceDefinition)
          → a' ≡ a
          → Keeps w.app service a
          → (a'.service_id ≡ service.service_id) × (b.node_id ≢ a'.node_id)
      owner a' same kept = (ground arith, λ p. other (ground arith))

      overwritten :
          (a' : ServiceDefinition)
          → lookup service.service_id (insert a'.service_id a' w.app.services) ≡ some b
          → ¬ ((a'.service_id ≡ service.service_id) × (b.node_id ≢ a'.node_id))
      overwritten a' found (id, stranger) =
          let now = lookup-insert_self a'.service_id a' w.app.services in stranger (ground arith)

      deleted_too :
          (a' : ServiceDefinition)
          → lookup service.service_id
              (remove a'.service_id (insert a'.service_id a' w.app.services))
            ≡ some b
          → ¬ ((a'.service_id ≡ service.service_id) × (b.node_id ≢ a'.node_id))
      deleted_too a' found (id, stranger) =
          let now = lookup-remove_self a'.service_id (insert a'.service_id a' w.app.services) in
          absurd (ground arith)

      unrenewed :
          (s : AppState P) (previous : Option ServiceDefinition)
          → previous ≡ none
          → Keeps s (renew previous service) a
          → Keeps s service a
      unrenewed s none e k = k
      unrenewed s (some p) e k = absurd cc
