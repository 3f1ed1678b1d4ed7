-- ===== src/Server/Joins/Tests.antt =====
-- The theorems on joins at concrete sessions.
use ongrok_relay.Prelude.{refl, [], ◌∷◌, text}
use ongrok_relay.BTree.{lookup, insert}
use ongrok_relay.Libongrok.Validation.{validate, validate_entries}
use ongrok_relay.Server.State.{World, validate_node_identity, activate_session, record_event}
use ongrok_relay.Server.Session.{Client, node_record}
use ongrok_relay.Server.Tests.{relay, machine, empty, member}
use ongrok_relay.Server.Identities.{HasKey}
use ongrok_relay.Server.Joins.{
  checking, activating, joined, join_section, run_joining, Joins, start, moves,
}
use ongrok_relay.Server.Joins.Keys.{Joins-public_key}
use ongrok_relay.Server.Joins.Race.{joining-race}

abbrev rival : Client
rival = record member { session_id = 31 }

joining-race_example :
    (u v : World relay) × Joins
      (checking member machine (text "key") ∷ checking rival machine (text "other") ∷ [], empty)
      (joined ∷ activating rival machine (text "other") ∷ [], u)
    × HasKey 3 (text "key") u.app
    × Joins (joined ∷ activating rival machine (text "other") ∷ [], u) (joined ∷ joined ∷ [], v)
    × HasKey 3 (text "other") v.app
unfolding lookup validate validate_entries
joining-race_example =
    joining-race (λ db n. (_, refl)) member rival machine (text "key") (text "other") empty refl
      refl refl

-- Node 3 has joined with a key, and another session begins to join it with another key.
abbrev settled : World relay
settled = (run_joining 5 (checking member machine (text "key"), empty)).1

Joins-public_key_example :
    HasKey 3 (text "key") (join_section (checking rival machine (text "other")) settled).1.app
unfolding join_section activate_session validate_node_identity record_event node_record validate
    validate_entries lookup insert
Joins-public_key_example =
    Joins-public_key 3 (text "key")
      (moves [] [] (checking rival machine (text "other")) settled
        (start (checking rival machine (text "other") ∷ []) settled))
      (tt, tt) refl
