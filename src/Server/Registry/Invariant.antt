-- ===== src/Server/Registry/Invariant.antt =====
-- The registry's invariant: names and TCP ports are held once, and each service has its endpoint.
use ongrok_relay.Prelude.{
  ℕ, ◌≡◌, refl, sym, ◌∙◌, subst, inl, inr, true, Option, none, some, text_eq→eq, eq→text_eq,
  find-holds, ok, arith, Option-cases, and-eq-true,
}
use mathlib.Core.Path.{subst₂}
use ongrok_relay.BTree.{BTreeMap, lookup, insert, remove, values}
use ongrok_relay.BTree.Lookup.{
  lookup-any-false, lookup-find-none, lookup-insert_cases, lookup-remove-some,
}
use ongrok_relay.BTree.Order.{IsSorted, insert-IsSorted, remove-IsSorted, lookup-find}
use ongrok_relay.BTree.Unique.{IsUnique, insert-IsUnique, remove-IsUnique}
use ongrok_relay.Libongrok.Types.{ServiceDefinition, Protocol}
use ongrok_relay.Libongrok.Validation.{validate, validate_service_name}
use ongrok_relay.Server.State.{Platform, AppState, World}
use ongrok_relay.Server.Registry.{
  is_name_taken, is_previous, renew, assign, admit, register_service, unregister_service,
}
use ongrok_relay.Server.Registry.Admission.{
  HasEndpoint, Keeps, assign-Keeps, assign-HasEndpoint, assign-free, Stages, admit-Stages,
}
use ongrok_relay.Server.Registry.Cases.{
  SameConfig, register_service-cases, unregister_service-cases,
}

abbrev pub SameName : ServiceDefinition → ServiceDefinition → Type 0
SameName a b = a.service_name ≡ b.service_name

abbrev pub SamePort : ServiceDefinition → ServiceDefinition → Type 0
SamePort a b =
    (a.protocol ≡ Protocol.tcp) × (b.protocol ≡ Protocol.tcp) × (a.public_port ≡ b.public_port)

module _ {P : Platform} where
  pub record IsEntry (s : AppState P) (k : ℕ) (b : ServiceDefinition) : Type 0 where
    pub keyed : b.service_id ≡ k
    pub named : validate_service_name b.service_name ≡ ok tt
    pub described : validate b.metadata ≡ ok tt
    pub endpoint : HasEndpoint s b b.protocol

  pub record IsRegistry (s : AppState P) (m : BTreeMap ServiceDefinition) : Type 0 where
    pub sorted : IsSorted m
    pub entries : (k : ℕ) (b : ServiceDefinition) → lookup k m ≡ some b → IsEntry s k b
    pub names : IsUnique SameName m
    pub ports : IsUnique SamePort m

  pub remove-IsRegistry :
      (s : AppState P) (k : ℕ) (m : BTreeMap ServiceDefinition)
      → IsRegistry s m
      → IsRegistry s (remove k m)
  remove-IsRegistry s k m v = record {
    sorted = remove-IsSorted k m v.sorted;
    entries = λ j b e. v.entries j b (lookup-remove-some k j b m e).1;
    names = remove-IsUnique SameName k m v.names;
    ports = remove-IsUnique SamePort k m v.ports;
  }

  module _ (s : AppState P) (service a : ServiceDefinition) (node_id : ℕ)
      (v : IsRegistry s s.services) (admitted : admit s service node_id ≡ ok a) where
    stages : Stages s service node_id a
    stages = admit-Stages s service a node_id admitted

    kept : Keeps s (renew stages.previous service) a
    kept = assign-Keeps s _ a _ stages.assigned

    renew-keeps :
        (previous : Option ServiceDefinition)
        → ((renew previous service).service_name ≡ service.service_name)
          × ((renew previous service).metadata ≡ service.metadata)
    unfolding renew
    renew-keeps none = (refl, refl)
    renew-keeps (some p) = (refl, refl)

    abbrev x : ServiceDefinition
    x = renew stages.previous service

    same_as_given : a.service_name ≡ service.service_name
    same_as_given = kept.same_name ∙ (renew-keeps stages.previous).0

    -- A service with the name of the admitted one is of the same node.
    is_previous_of :
        (k : ℕ) (b : ServiceDefinition)
        → lookup k s.services ≡ some b
        → SameName a b
        → is_previous node_id service.service_name b ≡ true
    is_previous_of k b found same =
        let named = eq→text_eq b.service_name service.service_name (sym same ∙ same_as_given) in
        let unclaimed =
          lookup-any-false (is_name_taken node_id service.service_name) s.services k b
            stages.unclaimed found in
        ground arith

    renewed_id :
        (previous : Option ServiceDefinition) (p : ServiceDefinition)
        → previous ≡ some p
        → (renew previous service).service_id ≡ p.service_id
    unfolding renew
    renewed_id previous p e = rw e refl

    -- The only service that may have the name of an admitted one is the one that it replaces.
    admit-name :
        (k : ℕ) (b : ServiceDefinition)
        → lookup k s.services ≡ some b
        → SameName a b
        → a.service_id ≡ k
    admit-name k b found same = elim (Option-cases stages.previous) [
      | inl absent ↦
          let missed =
            lookup-find-none (is_previous node_id service.service_name) s.services k b
              (stages.found ∙ absent) found in
          absurd (ground (arith, is_previous_of k b found same))
      | inr (p, present) ↦
          let (j, at) =
            lookup-find (is_previous node_id service.service_name) s.services p v.sorted
              (stages.found ∙ present) in
          let holds =
            find-holds (is_previous node_id service.service_name) (values s.services) p
              (stages.found ∙ present) in
          let alike : SameName p b =
            text_eq→eq _ _ (and-eq-true _ _ holds).1 ∙ sym same_as_given ∙ same in
          kept.same_id
          ∙ renewed_id stages.previous p present
          ∙ (v.entries j p at).keyed
          ∙ v.names j k p b at found alike
    ]

    admit-port :
        (k : ℕ) (b : ServiceDefinition)
        → lookup k s.services ≡ some b
        → SamePort a b
        → a.service_id ≡ k
    admit-port k b found (a_tcp, b_tcp, alike) =
        let assigned : assign s x Protocol.tcp ≡ ok a =
          subst (λ q. assign s x q ≡ ok a) (sym kept.same_protocol ∙ a_tcp) stages.assigned in
        let (port, at, low, high, host) = assign-HasEndpoint s x a Protocol.tcp assigned in
        kept.same_id
        ∙ sym (assign-free s x a port k b assigned at found (ground arith))
        ∙ (v.entries k b found).keyed

    admit-IsEntry : IsEntry s a.service_id a
    admit-IsEntry = record {
      keyed = refl;
      named = rw same_as_given stages.name_valid;
      described = rw (kept.same_metadata ∙ (renew-keeps stages.previous).1) stages.metadata_valid;
      endpoint =
          subst (HasEndpoint s a) (sym kept.same_protocol)
            (assign-HasEndpoint s x a x.protocol stages.assigned);
    }

    pub insert-IsRegistry : IsRegistry s (insert a.service_id a s.services)
    insert-IsRegistry = record {
      sorted = insert-IsSorted a.service_id a s.services v.sorted;
      entries = λ j b e. elim (lookup-insert_cases a.service_id j a b s.services e) [
        | inl (p, same) ↦ subst₂ (IsEntry s) p same admit-IsEntry
        | inr (other, found) ↦ v.entries j b found
      ];
      names = insert-IsUnique SameName a.service_id a s.services (λ x y. sym) admit-name v.names;
      ports =
          insert-IsUnique SamePort a.service_id a s.services (λ x y q. (q.1, q.0, sym q.2))
            admit-port v.ports;
    }

  -- An entry and an invariant depend on the configuration only.
  pub SameConfig-IsRegistry :
      (s t : AppState P) (m : BTreeMap ServiceDefinition)
      → SameConfig s t
      → IsRegistry s m
      → IsRegistry t m
  SameConfig-IsRegistry s t m c v = record {
    sorted = v.sorted;
    entries = λ k b e. SameConfig-IsEntry k b (v.entries k b e);
    names = v.names;
    ports = v.ports;
  }
    where
      SameConfig-HasEndpoint :
          (b : ServiceDefinition) (p : Protocol) → HasEndpoint s b p → HasEndpoint t b p
      SameConfig-HasEndpoint b Protocol.tcp h = ground arith
      SameConfig-HasEndpoint b Protocol.http h = ground arith
      SameConfig-HasEndpoint b Protocol.https h = ground arith

      SameConfig-IsEntry : (k : ℕ) (b : ServiceDefinition) → IsEntry s k b → IsEntry t k b
      SameConfig-IsEntry k b i = record {
        keyed = i.keyed;
        named = i.named;
        described = i.described;
        endpoint = SameConfig-HasEndpoint b b.protocol i.endpoint;
      }

  -- The invariant of a server's state.
  abbrev pub IsValid : AppState P → Type 0
  IsValid s = IsRegistry s s.services

  pub IsValid-of :
      (s t : AppState P) (m : BTreeMap ServiceDefinition)
      → SameConfig s t
      → t.services ≡ m
      → IsRegistry s m
      → IsValid t
  IsValid-of s t m c e v = subst (IsRegistry t) (sym e) (SameConfig-IsRegistry s t m c v)

  -- Registration keeps the registry valid, whether it succeeds, is refused, or fails half way.
  pub register_service-IsValid :
      (w : World P) (service : ServiceDefinition) (node_id : ℕ)
      → IsValid w.app
      → IsValid (register_service service node_id w).1.app
  register_service-IsValid w service node_id v = elim (register_service-cases w service node_id) [
    | inl (e, refused, same) ↦ rw same v
    | inr (a, admitted, (config, ended)) ↦
        let inserted = insert-IsRegistry w.app service a node_id v admitted in
        elim ended [
          | inl (done, same) ↦ IsValid-of w.app _ _ config same inserted
          | inr (inl (failed, same)) ↦ IsValid-of w.app _ _ config same inserted
          | inr (inr (failed, same)) ↦
              IsValid-of w.app _ _ config same (remove-IsRegistry w.app a.service_id _ inserted)
        ]
  ]

  -- Unregistering keeps the registry valid, whether or not the service is there and the node's own, and
  -- even if the store fails.
  pub unregister_service-IsValid :
      (w : World P) (service_id node_id : ℕ)
      → IsValid w.app
      → IsValid (unregister_service service_id node_id w).1.app
  unregister_service-IsValid w service_id node_id v =
      elim (unregister_service-cases w service_id node_id) [
        | inl (other, same) ↦ rw same v
        | inr (owned, config, same) ↦
            IsValid-of w.app _ _ config same (remove-IsRegistry w.app service_id _ v)
      ]
