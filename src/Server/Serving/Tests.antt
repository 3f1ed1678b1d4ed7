-- ===== src/Server/Serving/Tests.antt =====
-- The theorems on the listeners and on the end of the server, at concrete events.
use ongrok_relay.Prelude.{◌+◌, false, List, [], ◌∷◌, none, ◌≡◌, refl, length}
use ongrok_relay.Tasks.{Event, accepts, completes, listening}
use ongrok_relay.Server.Listeners.{run_http_ingress}
use ongrok_relay.Server.Listeners.Entries.{run_events, accepted, run_http_ingress-entries}
use ongrok_relay.Server.Serving.{Api, ApiEvent, socket, ctrl_c, elapses, run_api, serve_all}
use ongrok_relay.Server.Serving.Shutdown.{Ends, run_api-ctrl_c}

abbrev three_visits : List Event
three_visits = accepts 1 ∷ completes 1 ∷ accepts 2 ∷ completes 2 ∷ accepts 3 ∷ []

run_http_ingress-entries_example :
    length (run_events run_http_ingress three_visits listening).entries
    ≡ length listening.entries + accepted three_visits
run_http_ingress-entries_example =
    run_http_ingress-entries three_visits listening refl (tt, (tt, (tt, (tt, (tt, tt)))))

abbrev two_connections : Api
two_connections = record {
  tasks = record { entries = 1 ∷ 2 ∷ []; live = 1 ∷ 2 ∷ []; outcome = none };
  draining = false;
  waited = 0;
}

-- One connection ends in time, and the other is still there after five seconds.
abbrev slow : List ApiEvent
slow = elapses 3000 ∷ socket (completes 1) ∷ elapses 2000 ∷ []

run_api-ctrl_c_example : Ends (2 ∷ []) 5000 (serve_all run_api (ctrl_c ∷ slow) two_connections)
run_api-ctrl_c_example = run_api-ctrl_c two_connections slow refl refl
