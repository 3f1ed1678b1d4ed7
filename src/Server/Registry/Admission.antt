-- ===== src/Server/Registry/Admission.antt =====
-- What holds of a service that `register_service` lets in.
use ongrok_relay.Prelude.{
  ℕ, ◌≤◌, ◌≡◌, refl, subst, inl, inr, true, false, Option, none, some, Text, any, find, Result, ok,
  err, bind-eq-ok, map_err, arith, Bool-cases, ◌++◌, ◌∷◌,
}
use ongrok_relay.BTree.{lookup, values}
use ongrok_relay.BTree.Lookup.{lookup-any-false}
use ongrok_relay.Libongrok.Types.{ServiceDefinition, Protocol}
use ongrok_relay.Libongrok.Validation.{
  ValidationError, validation_message, validate, validate_service_name,
}
use ongrok_relay.Server.State.{Platform, AppState}
use ongrok_relay.Server.Relay.{holds_port}
use ongrok_relay.Server.Registry.{
  is_name_taken, is_previous, is_other_lease, renew, lease, wanted_port, assign, publish_at, admit,
}

module _ {P : Platform} (s : AppState P) where
  -- The endpoint of a service: a port of the range that no other TCP service holds, or a host.
  abbrev pub HasEndpoint : ServiceDefinition → Protocol → Type 0
  HasEndpoint a Protocol.tcp =
      (port : ℕ) × (a.public_port ≡ some port)
      × (s.tcp_port_start ≤ port)
      × (port ≤ s.tcp_port_end)
      × (a.public_host ≡ some s.public_host)
  HasEndpoint a _ =
      (domain : Text) × (s.http_domain ≡ some domain)
      × (a.public_host ≡ some (a.service_name ++ (b'.' ∷ domain)))
      × (a.public_port ≡ none)

  -- What `assign` leaves alone.
  pub record Keeps (x a : ServiceDefinition) : Type 0 where
    pub same_id : a.service_id ≡ x.service_id
    pub same_name : a.service_name ≡ x.service_name
    pub same_node : a.node_id ≡ x.node_id
    pub same_protocol : a.protocol ≡ x.protocol
    pub same_address : a.local_address ≡ x.local_address
    pub same_metadata : a.metadata ≡ x.metadata

  lease-eq-ok :
      (x a : ServiceDefinition) (port : ℕ)
      → lease s x port ≡ ok a
      → Keeps x a
        × (a.public_port ≡ some port)
        × (s.tcp_port_start ≤ port)
        × (port ≤ s.tcp_port_end)
        × (a.public_host ≡ some s.public_host)
        × (any (is_other_lease x.service_id port) (values s.services) ≡ false)
  unfolding lease
  lease-eq-ok x a port h =
      elim (Bool-cases (any (is_other_lease x.service_id port) (values s.services))) [
        | inl taken ↦ absurd (ground arith)
        | inr free ↦ ground arith
      ]

  pub assign-Keeps : (x a : ServiceDefinition) (p : Protocol) → assign s x p ≡ ok a → Keeps x a
  unfolding assign
  assign-Keeps x a Protocol.tcp h =
      let (port, wanted, leased) = bind-eq-ok (wanted_port s x.public_port) (lease s x) h in
      (lease-eq-ok x a port leased).0
  assign-Keeps x a Protocol.http h = ground arith
  assign-Keeps x a Protocol.https h = ground arith

  pub assign-HasEndpoint :
      (x a : ServiceDefinition) (p : Protocol) → assign s x p ≡ ok a → HasEndpoint a p
  unfolding assign publish_at
  assign-HasEndpoint x a Protocol.tcp h =
      let (port, wanted, leased) = bind-eq-ok (wanted_port s x.public_port) (lease s x) h in
      let (kept, at, low, high, host, free) = lease-eq-ok x a port leased in
      (port, at, low, high, host)
  assign-HasEndpoint x a Protocol.http h = ground arith
  assign-HasEndpoint x a Protocol.https h = ground arith

  other_lease-eq-false :
      (b : ServiceDefinition) (id port : ℕ)
      → is_other_lease id port b ≡ false
      → holds_port port b ≡ true
      → b.service_id ≡ id
  other_lease-eq-false b id port h holds = ground arith

  -- No other TCP service holds the port that is assigned.
  pub assign-free :
      (x a : ServiceDefinition) (port k : ℕ) (b : ServiceDefinition)
      → assign s x Protocol.tcp ≡ ok a
      → a.public_port ≡ some port
      → lookup k s.services ≡ some b
      → holds_port port b ≡ true
      → b.service_id ≡ x.service_id
  unfolding assign
  assign-free x a port k b h e found holds =
      let (port', wanted, leased) = bind-eq-ok (wanted_port s x.public_port) (lease s x) h in
      let (kept, at, low, high, host, free) = lease-eq-ok x a port' leased in
      let unleased =
        lookup-any-false (is_other_lease x.service_id port') s.services k b free found in
      let same : port ≡ port' = ground arith in
      other_lease-eq-false b x.service_id port' unleased
        (subst (λ q. holds_port q b ≡ true) same holds)

  -- The stages of an admission.
  pub record Stages (service : ServiceDefinition) (node_id : ℕ) (a : ServiceDefinition)
      : Type 0 where
    pub name_valid : validate_service_name service.service_name ≡ ok tt
    pub metadata_valid : validate service.metadata ≡ ok tt
    pub unclaimed : any (is_name_taken node_id service.service_name) (values s.services) ≡ false
    pub previous : Option ServiceDefinition
    pub found : find (is_previous node_id service.service_name) (values s.services) ≡ previous
    pub assigned : assign s (renew previous service) (renew previous service).protocol ≡ ok a

  valid_of_map_err :
      (r : Result ValidationError (Unit {0})) (u : Unit {0})
      → map_err validation_message r ≡ ok u
      → r ≡ ok tt
  valid_of_map_err (ok u) u' h = refl
  valid_of_map_err (err e) u h = cc

  pub admit-Stages :
      (service a : ServiceDefinition) (node_id : ℕ)
      → admit s service node_id ≡ ok a
      → Stages service node_id a
  unfolding admit
  admit-Stages service a node_id h =
      let (u, named, more) =
        bind-eq-ok (map_err validation_message (validate_service_name service.service_name)) _ h in
      let (v, described, rest) =
        bind-eq-ok (map_err validation_message (validate service.metadata)) _ more in
      elim (Bool-cases (any (is_name_taken node_id service.service_name) (values s.services))) [
        | inl taken ↦ absurd (ground arith)
        | inr free ↦ record {
          name_valid = valid_of_map_err _ u named;
          metadata_valid = valid_of_map_err _ v described;
          unclaimed = free;
          previous = find (is_previous node_id service.service_name) (values s.services);
          found = refl;
          assigned = ground arith;
        }
      ]
