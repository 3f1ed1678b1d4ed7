-- ===== src/Server/Tests/Examples.antt =====
-- The theorems on the registry and the whole server at concrete inputs.
use ongrok_relay.Prelude.{◌≡◌, refl, true, [], ◌∷◌, none, some, text, text_eq, ap, ok, arith}
use ongrok_relay.BTree.{lookup, insert}
use ongrok_relay.Libongrok.Types.{Protocol, ServiceDefinition, Frame}
use ongrok_relay.Server.State.{World}
use ongrok_relay.Server.Registry.Invariant.{IsValid, register_service-IsValid}
use ongrok_relay.Server.Registry.{register_service, admit, is_previous}
use ongrok_relay.Server.Session.{handle_frame}
use ongrok_relay.Server.Api.{Request}
use ongrok_relay.Server.System.{Step, Reach, Reach-IsValid}
use ongrok_relay.BTree.{values}
use ongrok_relay.Server.Revocation.{authenticate}
use ongrok_relay.Server.Registry.{commit, conclude, activate, renew, assign, publish_at}
use ongrok_relay.Server.State.{record_event}
use ongrok_relay.Libongrok.Validation.{
  validate, validate_service_name, validate_entries, is_valid_name,
}
use ongrok_relay.Prelude.{find, arith}
use ongrok_relay.Server.Registry.Ownership.{register_service-others, register_service-takes_over}
use ongrok_relay.Server.Api.Handler.{api_handler}
use ongrok_relay.Server.Api.Handler.Access.{IsRefusal, api_handler-IsRefusal}
use ongrok_relay.Server.Tests.{
  relay, service, empty, peer, member, ssh, formats, deletion, empty-IsValid,
}

Reach-IsValid_example :
    IsValid (handle_frame member true (Frame.register_service ssh) (peer empty)).1.world.app
Reach-IsValid_example =
    Reach-IsValid formats
      (Reach.step (Reach.start empty)
        (Step.frame member true (Frame.register_service ssh) (peer empty)))
      empty-IsValid

register_service-IsValid_example : IsValid (register_service ssh 3 empty).1.app
register_service-IsValid_example = register_service-IsValid empty ssh 3 empty-IsValid

abbrev published : World relay
published = (register_service ssh 3 empty).1

published-IsValid : IsValid published.app
published-IsValid = register_service-IsValid empty ssh 3 empty-IsValid

abbrev anonymous : Request
anonymous = record deletion { authorization = none }

api_handler-IsRefusal_example :
    IsRefusal formats published (api_handler formats anonymous published)
unfolding authenticate
api_handler-IsRefusal_example = api_handler-IsRefusal formats anonymous published refl

-- A host of node 3, and the requests of node 4.
abbrev web : ServiceDefinition
web = service 7 (text "web") 3 Protocol.http

abbrev hosted : ServiceDefinition
hosted = record web { public_host = some (text "web.example") }

abbrev hosting : World relay
hosting = (register_service web 3 empty).1

hosting-IsValid : IsValid hosting.app
hosting-IsValid = register_service-IsValid empty web 3 empty-IsValid

hosting-services : hosting.app.services ≡ (7, hosted) ∷ []
unfolding register_service commit conclude activate admit renew assign publish_at insert
    record_event text text_eq validate validate_entries validate_service_name is_valid_name
hosting-services = refl

abbrev rival : ServiceDefinition
rival = service 7 (text "fresh") 4 Protocol.http

hosting-7 : lookup 7 hosting.app.services ≡ some hosted
unfolding lookup
hosting-7 = ap (lookup 7) hosting-services

hosting-fresh : find (is_previous 4 (text "fresh")) (values hosting.app.services) ≡ none
hosting-fresh = ap (λ m. find (is_previous 4 (text "fresh")) (values m)) hosting-services

hosting-admits :
    admit hosting.app rival 4 ≡ ok (record rival { public_host = some (text "fresh.example") })
unfolding register_service commit conclude activate admit renew assign publish_at insert
    record_event text text_eq validate validate_entries validate_service_name is_valid_name
hosting-admits = refl

register_service-others_example :
    lookup 7 (register_service (service 8 (text "blog") 4 Protocol.http) 4 hosting).1.app.services
    ≡ some hosted
register_service-others_example =
    register_service-others hosting (service 8 (text "blog") 4 Protocol.http) hosted 4 7
      hosting-IsValid hosting-7 (λ p. omega arith) (λ p. omega arith)

register_service-takes_over_example :
    ¬ (lookup 7 (register_service rival 4 hosting).1.app.services ≡ some hosted)
register_service-takes_over_example =
    register_service-takes_over hosting rival
      (record rival { public_host = some (text "fresh.example") }) hosted 4 hosting-fresh
      hosting-admits hosting-7 (λ p. omega arith)
