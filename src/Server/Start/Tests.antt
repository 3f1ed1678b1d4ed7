-- ===== src/Server/Start/Tests.antt =====
-- The theorem on the start of the server at a concrete input.
use ongrok_relay.Prelude.{◌≡◌, refl, [], ◌∷◌, some, text}
use ongrok_relay.BTree.{lookup, insert}
use ongrok_relay.Libongrok.Types.{ServiceDefinition}
use ongrok_relay.Server.State.{World}
use ongrok_relay.Server.Relay.{ensure_tcp_ingress}
use ongrok_relay.Server.Tests.{relay, ssh, state, world_of}
use ongrok_relay.Server.Start.{restore}
use ongrok_relay.Server.Start.Restored.{restore-listens}

abbrev leased : ServiceDefinition
leased = record ssh { public_host = some (text "relay.example"); public_port = some 20003 }

abbrev before : World relay
before = world_of (state ((7, leased) ∷ []) [] [])

abbrev after_restore : World relay
after_restore = (restore (λ n. text "id") before).1

restore-listens_example : lookup 7 after_restore.app.tcp_ingress_tasks ≡ some 20003
unfolding restore lookup ensure_tcp_ingress insert
restore-listens_example =
    restore-listens (λ n. text "id") before after_restore leased 7 20003 (refl, tt) refl refl refl
      refl refl
