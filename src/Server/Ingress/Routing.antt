-- ===== src/Server/Ingress/Routing.antt =====
-- Which service a visitor's host names.
use ongrok_relay.Prelude.{
  ℕ, ◌≡◌, ◌≢◌, refl, sym, ◌∙◌, ap, true, false, ◌||◌, [], ◌∷◌, ◌++◌, Option, none, some, inl, inr,
  Text, text_eq→eq, text_eq_self, any, find, is_upper, find-holds, Option-cases, and-eq-true, arith,
}
use mathlib.Core.List.{append_cancel_right}
use ongrok_relay.BTree.{lookup, values}
use ongrok_relay.BTree.Lookup.{lookup-find-none}
use ongrok_relay.BTree.Order.{lookup-find}
use ongrok_relay.Libongrok.Types.{Protocol, ServiceDefinition}
use ongrok_relay.Server.State.{Platform, AppState}
use ongrok_relay.Server.Registry.Admission.{HasEndpoint}
use ongrok_relay.Server.Registry.Invariant.{IsValid}
use ongrok_relay.Server.Ingress.{
  protocol_eq, option_is, serves_host, service_for, to_ascii_lowercase,
}

to_ascii_lowercase-lower : (s : Text) → any is_upper (to_ascii_lowercase s) ≡ false
unfolding to_ascii_lowercase
to_ascii_lowercase-lower [] = refl
to_ascii_lowercase-lower (c ∷ s) = ground (arith, to_ascii_lowercase-lower s)

any-upper-append : (s t : Text) → any is_upper (s ++ t) ≡ (any is_upper s || any is_upper t)
any-upper-append [] t = refl
any-upper-append (c ∷ s) t = ground (arith, any-upper-append s t)

protocol_eq→eq : (p q : Protocol) → protocol_eq p q ≡ true → p ≡ q
protocol_eq→eq Protocol.http Protocol.http h = refl
protocol_eq→eq Protocol.https Protocol.https h = refl
protocol_eq→eq Protocol.tcp Protocol.tcp h = refl
protocol_eq→eq _ _ h = cc

protocol_eq_self : (p : Protocol) → protocol_eq p p ≡ true
protocol_eq_self Protocol.http = refl
protocol_eq_self Protocol.https = refl
protocol_eq_self Protocol.tcp = refl

module _ {P : Platform} (s : AppState P) where
  -- The host of a service of the ingress.
  record HasHost (a : ServiceDefinition) : Type 0 where
    pub domain : Text
    pub configured : s.http_domain ≡ some domain
    pub host : a.public_host ≡ some (a.service_name ++ (b'.' ∷ domain))

  endpoint-HasHost :
      (a : ServiceDefinition) (p : Protocol) → p ≢ Protocol.tcp → HasEndpoint s a p → HasHost a
  endpoint-HasHost a Protocol.tcp other e = absurd (other refl)
  endpoint-HasHost a Protocol.http other (domain, configured, host, port) = record {
    domain = domain;
    configured = configured;
    host = host;
  }
  endpoint-HasHost a Protocol.https other (domain, configured, host, port) = record {
    domain = domain;
    configured = configured;
    host = host;
  }

  serves_host-parts :
      (p : Protocol) (host : Text) (b : ServiceDefinition)
      → serves_host p host b ≡ true
      → (b.protocol ≡ p) × (b.public_host ≡ some host)
  serves_host-parts p host b h =
      let (same, named) = and-eq-true _ _ h in
      (protocol_eq→eq b.protocol p same, is-some b.public_host named)
    where
      is-some : (o : Option Text) → option_is o host ≡ true → o ≡ some host
      is-some none e = cc
      is-some (some t) e = ap (λ x. some x) (text_eq→eq t host e)

  entry-HasHost :
      (p : Protocol) (k : ℕ) (b : ServiceDefinition)
      → IsValid s
      → p ≢ Protocol.tcp
      → lookup k s.services ≡ some b
      → b.protocol ≡ p
      → HasHost b
  entry-HasHost p k b v other found same =
      endpoint-HasHost b b.protocol (λ e. other (sym same ∙ e)) (v.entries k b found).endpoint

  -- In a valid registry, a request on the ingress of a protocol whose host, in lower case and without
  -- its port, is the public host of a service of that protocol goes to that service and no other.
  pub service_for-found :
      (p : Protocol) (host : Text) (k : ℕ) (b : ServiceDefinition)
      → IsValid s
      → p ≢ Protocol.tcp
      → lookup k s.services ≡ some b
      → b.protocol ≡ p
      → b.public_host ≡ some host
      → service_for p host s.services ≡ some b
  unfolding service_for
  service_for-found p host k b v other found same named =
      elim (Option-cases (find (serves_host p host) (values s.services))) [
        | inl missed ↦
            let unseen = lookup-find-none (serves_host p host) s.services k b missed found in
            absurd (ground (arith, protocol_eq_self p, text_eq_self host))
        | inr (a, hit) ↦
            let (j, there) = lookup-find (serves_host p host) s.services a v.sorted hit in
            let (alike, called) =
              serves_host-parts p host a
                (find-holds (serves_host p host) (values s.services) a hit) in
            let x = entry-HasHost p j a v other there alike in
            let y = entry-HasHost p k b v other found same in
            let domains : x.domain ≡ y.domain = cc (x.configured, y.configured) in
            let hosts : a.service_name ++ (b'.' ∷ x.domain) ≡ b.service_name ++ (b'.' ∷ y.domain) =
              cc (x.host, y.host, called, named) in
            let names =
              append_cancel_right a.service_name b.service_name (b'.' ∷ y.domain)
                (ap (λ d. a.service_name ++ (b'.' ∷ d)) (sym domains) ∙ hosts) in
            let keys = v.names j k a b there found names in
            let one : a ≡ b = cc (there, found, keys) in hit ∙ ap (λ c. some c) one
      ]

  -- In a valid registry, with a domain in which a letter is in upper case: no request on the ingress
  -- finds a service, whatever its host.
  pub service_for-upper :
      (p : Protocol) (host domain : Text)
      → IsValid s
      → p ≢ Protocol.tcp
      → s.http_domain ≡ some domain
      → any is_upper domain ≡ true
      → service_for p (to_ascii_lowercase host) s.services ≡ none
  unfolding service_for
  service_for-upper p host domain v other configured upper =
      elim (Option-cases (find (serves_host p (to_ascii_lowercase host)) (values s.services))) [
        | inl missed ↦ missed
        | inr (a, hit) ↦
            let test = serves_host p (to_ascii_lowercase host) in
            let (j, there) = lookup-find test s.services a v.sorted hit in
            let (alike, called) =
              serves_host-parts p (to_ascii_lowercase host) a
                (find-holds test (values s.services) a hit) in
            let x = entry-HasHost p j a v other there alike in
            let hosts : a.service_name ++ (b'.' ∷ domain) ≡ to_ascii_lowercase host =
              cc (x.configured, configured, x.host, called) in
            absurd (
              ground (
                arith,
                any-upper-append a.service_name (b'.' ∷ domain),
                hosts,
                to_ascii_lowercase-lower host,
              ))
      ]
