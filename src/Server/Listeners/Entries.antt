-- ===== src/Server/Listeners/Entries.antt =====
-- What the `JoinSet` of the HTTP ingress keeps.
use ongrok_relay.Prelude.{
  ℕ, ◌+◌, List, [], ◌∷◌, none, ◌≡◌, ap, ◌∙◌, length, length-append, arith, All,
}
use ongrok_relay.Tasks.{
  Listener, Event, accepts, completes, refuses, closes, on_event-listening, on_event, spawn_joined,
  end_task,
}
use ongrok_relay.Server.Listeners.{run_http_ingress}

abbrev pub run_events : (Event → Listener → Listener) → List Event → Listener → Listener
run_events loop [] l = l
run_events loop (e ∷ es) l = run_events loop es (on_event loop e l)

-- The connections that were accepted.
abbrev pub accepted : List Event → ℕ
accepted [] = 0
accepted (accepts c ∷ es) = accepted es + 1
accepted (_ ∷ es) = accepted es

-- Anything but a failure of `accept`.
abbrev pub IsOrdinary : Event → Type 0
IsOrdinary (refuses e) = ⊥
IsOrdinary _ = Unit

-- As long as `accept` does not fail, the set of tasks of the HTTP ingress has an entry for every
-- connection that it ever accepted, however many of these have ended.
pub run_http_ingress-entries :
    (es : List Event) (l : Listener)
    → l.outcome ≡ none
    → All IsOrdinary es
    → length (run_events run_http_ingress es l).entries ≡ length l.entries + accepted es
unfolding run_http_ingress
run_http_ingress-entries [] l open_yet o = omega arith
run_http_ingress-entries (accepts c ∷ es) l open_yet o =
    ap (λ m. length (run_events run_http_ingress es m).entries)
      (on_event-listening run_http_ingress (accepts c) l open_yet)
    ∙ run_http_ingress-entries es (spawn_joined c l) open_yet o.1
    ∙ omega (arith, length-append l.entries (c ∷ []))
run_http_ingress-entries (completes c ∷ es) l open_yet o =
    run_http_ingress-entries es (end_task c l) open_yet o.1
run_http_ingress-entries (refuses e ∷ es) l open_yet o = absurd o.0
run_http_ingress-entries (closes ∷ es) l open_yet o =
    ap (λ m. length (run_events run_http_ingress es m).entries)
      (on_event-listening run_http_ingress closes l open_yet)
    ∙ run_http_ingress-entries es l open_yet o.1
