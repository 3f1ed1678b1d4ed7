-- ===== src/Server/Tests/Outcomes.antt =====
-- The theorems on sessions and tokens at concrete inputs.
use ongrok_relay.Prelude.{
  ℕ, ◌≡◌, refl, ◌⊎◌, true, false, List, [], ◌∷◌, ◌++◌, none, some, Text, text, text_eq, is_some, ok,
  err, Error, Fallible, arith,
}
use ongrok_relay.Prelude.Int.{pos}
use ongrok_relay.BTree.{lookup, insert, update, remove}
use ongrok_relay.Libongrok.Types.{user, HeartbeatSnapshot, Frame}
use ongrok_relay.Libongrok.Tokens.{generate_token, hash_token}
use ongrok_relay.Server.State.{activate_session, set_token}
use ongrok_relay.Server.Session.{handle_frame}
use ongrok_relay.Server.Revocation.{authenticate}
use ongrok_relay.Server.State.{record_event, authenticate_hash, validate_node_identity}
use ongrok_relay.Libongrok.Validation.{validate, validate_entries}
use ongrok_relay.Prelude.{arith}
use ongrok_relay.Server.Session.Handlers.{run_yamux, run_quic}
use ongrok_relay.Server.Tests.{relay, machine, busy, peer, member}
use ongrok_relay.Server.Revocation.{
  disconnect, close_all, report_offline, replace_token, authenticate_token, remove_all,
  mark_offline,
}
use ongrok_relay.Server.Revocation.Effects.{Replaced, replace_token-cases}
use ongrok_relay.Server.Revocation.Acceptance.{replace_token-authenticate, replace_token-accepts}
use ongrok_relay.Server.Session.{serve, leave, drop_session, join, node_record}
use ongrok_relay.Server.Session.Ending.{is_active, run_yamux-ends}
use ongrok_relay.Server.Session.Staying.{Stays, run_quic-Stays}

replace_token-cases_example :
    ((e : Error) × (relay.store.put_tokens busy.app.store (set_token busy.app.tokens user none)
        ≡ err e)
      × (replace_token user none busy ≡ (err e, busy)))
    ⊎ ((db : ℕ) × (relay.store.put_tokens busy.app.store (set_token busy.app.tokens user none)
          ≡ ok db)
        × Replaced user none busy (replace_token user none busy).1)
replace_token-cases_example = replace_token-cases user none busy ((omega arith, tt), (tt, tt))

replace_token-authenticate_example :
    some (text "fresh") ≡ some (hash_token relay.blake3 (text "fresh"))
unfolding lookup insert update remove replace_token disconnect remove_all mark_offline close_all
    report_offline authenticate_token authenticate_hash set_token text text_eq hash_token run_yamux
    run_quic serve handle_frame join node_record activate_session validate_node_identity
    record_event validate validate_entries leave drop_session
replace_token-authenticate_example =
    replace_token-authenticate user (some (text "fresh")) (text "fresh") 1 busy
      ((omega arith, tt), (tt, tt)) refl refl

abbrev random : Text
random = 18 ∷ 52 ∷ []

replace_token-accepts_example :
    is_some (
      authenticate
        (some (text "Bearer " ++ (generate_token relay.blake3 user random).0))
        (replace_token user (some (generate_token relay.blake3 user random).1) busy).1)
    ≡ true
replace_token-accepts_example =
    replace_token-accepts user random 1 busy ((omega arith, tt), (tt, tt)) refl

abbrev frames : List (Fallible Frame)
frames = ok (Frame.register_node machine (text "key")) ∷ err (text "connection lost") ∷ []

run_yamux-ends_example : is_active member (run_yamux member frames (peer busy)).1.world ≡ false
run_yamux-ends_example = run_yamux-ends member frames (peer busy)

abbrev beat : HeartbeatSnapshot
beat = record {
  sequence = 1;
  sent_at_unix_ms = pos 4990;
  cpu_percent = none;
  memory_percent = none;
  load_average = none;
  network_rx_bytes = none;
  network_tx_bytes = none;
}

run_quic-Stays_example :
    Stays member
      (run_quic member
        (ok (Frame.register_node machine (text "key"))
          ∷ ok (Frame.heartbeat beat)
          ∷ err (text "connection lost")
          ∷ [])
        (peer busy)).1.world
unfolding join activate_session validate_node_identity record_event validate validate_entries
    node_record lookup text_eq text
run_quic-Stays_example =
    run_quic-Stays member machine (text "key")
      (ok (Frame.heartbeat beat) ∷ err (text "connection lost") ∷ []) (peer busy) refl
      ((λ e. ground arith), ((λ e. ground arith), tt))
