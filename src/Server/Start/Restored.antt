-- ===== src/Server/Start/Restored.antt =====
-- The listeners of a server that was started again.
use ongrok_relay.Prelude.{
  ℕ, ◌≡◌, refl, ◌∙◌, ap, true, List, [], ◌∷◌, Option, none, some, Text, All, keep, ok, after-eq-ok,
  arith, ◌==◌, if◌then◌else◌, Bool-cases, Option-cases, inl, inr,
}
use ongrok_relay.BTree.{BTreeMap, lookup, values}
use ongrok_relay.BTree.Lookup.{lookup-insert}
use ongrok_relay.Libongrok.Types.{ServiceDefinition}
use ongrok_relay.Server.State.{Platform, World}
use ongrok_relay.Server.Relay.{ensure_tcp_ingress}
use ongrok_relay.Server.Start.{is_tcp_service, restored, restore_all, restore}

-- The port of a service whose listeners a list of services asks for.
abbrev or_port : Option ℕ → Option ℕ → Option ℕ
or_port (some held) wanted = some held
or_port none wanted = wanted

abbrev planned : List ServiceDefinition → ℕ → Option ℕ → Option ℕ
planned [] k held = held
planned (s ∷ rest) k held =
    planned rest k (if s.service_id == k then or_port held s.public_port else held)

module _ {P : Platform} where
  ensure_tcp_ingress-tasks :
      (s : ServiceDefinition) (w w' : World P) (k : ℕ)
      → ensure_tcp_ingress s w ≡ (ok tt, w')
      → lookup k w'.app.tcp_ingress_tasks ≡ (
          if s.service_id == k
          then or_port (lookup k w.app.tcp_ingress_tasks) s.public_port
          else lookup k w.app.tcp_ingress_tasks)
  unfolding ensure_tcp_ingress
  ensure_tcp_ingress-tasks s w w' k h = elim (Option-cases s.public_port) [
    | inl unassigned ↦ absurd (ground arith)
    | inr (port, assigned) ↦
        ground (arith, lookup-insert s.service_id k port w.app.tcp_ingress_tasks)
  ]

  restored-eq-ok :
      (uuid_text : ℕ → Text) (s : ServiceDefinition) (w w' : World P)
      → restored uuid_text s (ensure_tcp_ingress s) w ≡ (ok tt, w')
      → ensure_tcp_ingress s w ≡ (ok tt, w')
  restored-eq-ok uuid_text s w w' h = ground arith

  restore_all-tasks :
      (uuid_text : ℕ → Text) (services : List ServiceDefinition) (w w' : World P) (k : ℕ)
      → restore_all uuid_text services w ≡ (ok tt, w')
      → lookup k w'.app.tcp_ingress_tasks ≡ planned services k (lookup k w.app.tcp_ingress_tasks)
  unfolding restore_all
  restore_all-tasks uuid_text [] w w' k h =
      let same : w' ≡ w = cc h in ap (λ (x : World P). lookup k x.app.tcp_ingress_tasks) same
  restore_all-tasks uuid_text (s ∷ rest) w w' k h =
      let (u, w1, first, later) =
        after-eq-ok (restored uuid_text s (ensure_tcp_ingress s) w)
          (λ _. restore_all uuid_text rest) h in
      restore_all-tasks uuid_text rest w1 w' k later
      ∙ ap (planned rest k)
          (ensure_tcp_ingress-tasks s w w1 k (restored-eq-ok uuid_text s w w1 first))

planned_held :
    (services : List ServiceDefinition) (k port : ℕ) → planned services k (some port) ≡ some port
planned_held [] k port = refl
planned_held (s ∷ rest) k port = elim (Bool-cases (s.service_id == k)) [
  | inl same ↦ rw same (planned_held rest k port)
  | inr other ↦ rw other (planned_held rest k port)
]

-- Each service is under its identifier.
abbrev pub IsKeyed : BTreeMap ServiceDefinition → Type 0
IsKeyed m = All (λ e. e.1.service_id ≡ e.0) m

planned-values :
    (m : BTreeMap ServiceDefinition) (k port : ℕ) (s : ServiceDefinition)
    → IsKeyed m
    → lookup k m ≡ some s
    → is_tcp_service s ≡ true
    → s.public_port ≡ some port
    → planned (keep is_tcp_service (values m)) k none ≡ some port
unfolding lookup
planned-values [] k port s keyed found tcp assigned = absurd cc
planned-values ((j, b) ∷ rest) k port s (key, keyed) found tcp assigned =
    elim (Bool-cases (j == k)) [
      | inl here ↦
          let same : b ≡ s = ground arith in
          ground (arith, planned_held (keep is_tcp_service (values rest)) k port)
      | inr there ↦ ground (arith, planned-values rest k port s keyed (ground arith) tcp assigned)
    ]

-- When a server that was started again goes on to its listeners, every TCP service that it loaded has
-- its listener, on the port that the service had. The services are under their identifiers, and no
-- listener was open before.
pub restore-listens :
    {P : Platform} (uuid_text : ℕ → Text) (w w' : World P) (s : ServiceDefinition) (k port : ℕ)
    → IsKeyed w.app.services
    → w.app.tcp_ingress_tasks ≡ []
    → restore uuid_text w ≡ (ok tt, w')
    → lookup k w.app.services ≡ some s
    → is_tcp_service s ≡ true
    → s.public_port ≡ some port
    → lookup k w'.app.tcp_ingress_tasks ≡ some port
unfolding restore lookup
restore-listens uuid_text w w' s k port keyed silent done found tcp assigned =
    let services = keep is_tcp_service (values w.app.services) in
    restore_all-tasks uuid_text services w w' k done
    ∙ ap (λ m. planned services k (lookup k m)) silent
    ∙ planned-values w.app.services k port s keyed found tcp assigned
