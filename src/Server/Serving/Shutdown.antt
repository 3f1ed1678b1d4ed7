-- ===== src/Server/Serving/Shutdown.antt =====
-- How the control API ends.
use ongrok_relay.Prelude.{
  ℕ, ◌+◌, ◌≤◌, true, false, List, [], ◌∷◌, none, some, ◌≡◌, refl, sym, ◌∙◌, ap, subst, ok,
  if◌then◌else◌, ltb, leb, arith, Bool-cases, inl, inr, ◌⊎◌,
}
use ongrok_relay.Tasks.{accepts, completes, refuses, closes, drop_task}
use ongrok_relay.Server.Serving.{
  Api, ApiEvent, socket, ctrl_c, elapses, none_left, drain, drain_api, run_api, serve_all,
  drain_limit_ms, api_phase,
}

-- The connections that are left of some once events have come.
abbrev pub remaining : List ApiEvent → List ℕ → List ℕ
remaining [] live = live
remaining (socket (completes c) ∷ es) live = remaining es (drop_task c live)
remaining (_ ∷ es) live = remaining es live

-- The milliseconds that events take.
abbrev pub milliseconds : List ApiEvent → ℕ
milliseconds [] = 0
milliseconds (elapses n ∷ es) = n + milliseconds es
milliseconds (_ ∷ es) = milliseconds es

-- The wait after the signal is over.
record IsOver (a : Api) : Type 0 where
  pub live : a.tasks.live ≡ []
  pub outcome : a.tasks.outcome ≡ some (ok tt)

-- The wait goes on, with these connections after some time.
record IsWaiting (live : List ℕ) (ms : ℕ) (a : Api) : Type 0 where
  pub live_tasks : a.tasks.live ≡ live
  pub outcome : a.tasks.outcome ≡ none
  pub draining : a.draining ≡ true
  pub waited : a.waited ≡ ms
  pub some_left : none_left live ≡ false
  pub in_time : ltb ms 5000 ≡ true

run_api-IsOver : (e : ApiEvent) (a : Api) → IsOver a → IsOver (run_api e a)
unfolding run_api
run_api-IsOver e a o = subst IsOver (sym (ap (λ r. api_phase r a.draining e a) o.outcome)) o

all-IsOver : (es : List ApiEvent) (a : Api) → IsOver a → IsOver (serve_all run_api es a)
all-IsOver [] a o = o
all-IsOver (e ∷ es) a o = all-IsOver es (run_api e a) (run_api-IsOver e a o)

remaining_nil : (es : List ApiEvent) → remaining es [] ≡ []
remaining_nil [] = refl
remaining_nil (socket (accepts c) ∷ es) = remaining_nil es
remaining_nil (socket (completes c) ∷ es) = remaining_nil es
remaining_nil (socket (refuses e) ∷ es) = remaining_nil es
remaining_nil (socket closes ∷ es) = remaining_nil es
remaining_nil (ctrl_c ∷ es) = remaining_nil es
remaining_nil (elapses n ∷ es) = remaining_nil es

-- While the wait goes on, an event is one of the wait.
run_api-drain_api :
    (e : ApiEvent) (live : List ℕ) (ms : ℕ) (a : Api)
    → IsWaiting live ms a
    → run_api e a ≡ drain_api e a
unfolding run_api
run_api-drain_api e live ms a k =
    ap (λ r. api_phase r a.draining e a) k.outcome ∙ ap (λ d. api_phase none d e a) k.draining

-- The connections are `live` after `ms` milliseconds, none after five seconds, and without one it ends.
pub record Ends (live : List ℕ) (ms : ℕ) (a : Api) : Type 0 where
  pub live_tasks : a.tasks.live ≡ (if ltb ms 5000 then live else [])
  pub outcome :
      a.tasks.outcome
      ≡ (if none_left (if ltb ms 5000 then live else []) then some (ok tt) else none)

over-Ends :
    (live : List ℕ) (ms : ℕ) (a : Api)
    → IsOver a
    → (live ≡ []) ⊎ (ltb ms 5000 ≡ false)
    → Ends live ms a
over-Ends live ms a o why =
    let shown : (if ltb ms 5000 then live else []) ≡ [] = none_shown why in
    record {
      live_tasks = o.live ∙ sym shown;
      outcome = o.outcome ∙ ap (λ l. if none_left l then some (ok tt) else none) (sym shown);
    }
  where
    none_shown : (live ≡ []) ⊎ (ltb ms 5000 ≡ false) → (if ltb ms 5000 then live else []) ≡ []
    none_shown (inl empty) = ground arith
    none_shown (inr late) = rw late refl

none_left-eq-true : (live : List ℕ) → none_left live ≡ true → live ≡ []
none_left-eq-true [] h = refl
none_left-eq-true (c ∷ cs) h = cc

waiting-Ends : (live : List ℕ) (ms : ℕ) (a : Api) → IsWaiting live ms a → Ends live ms a
waiting-Ends live ms a k = record {
  live_tasks = k.live_tasks ∙ ap (λ b. if b then live else []) (sym k.in_time);
  outcome =
      k.outcome
      ∙ ap (λ b. if b then some (ok tt) else none) (sym k.some_left)
      ∙ ap (λ b. if none_left (if b then live else []) then some (ok tt) else none) (sym k.in_time);
}

-- One event of the wait.
completes-IsWaiting :
    (c : ℕ) (live : List ℕ) (ms : ℕ) (a : Api)
    → IsWaiting live ms a
    → (IsOver (drain_api (socket (completes c)) a) × (drop_task c live ≡ []))
      ⊎ IsWaiting (drop_task c live) ms (drain_api (socket (completes c)) a)
completes-IsWaiting c live ms a k =
    let left = ap (drop_task c) k.live_tasks in
    elim (Bool-cases (none_left (drop_task c a.tasks.live))) [
      | inl done ↦ inl (
        rw done (record { live = refl; outcome = refl }),
        sym left ∙ none_left-eq-true (drop_task c a.tasks.live) done,
      )
      | inr more ↦ inr (
          rw more (record {
            live_tasks = left;
            outcome = k.outcome;
            draining = k.draining;
            waited = k.waited;
            some_left = ap none_left (sym left) ∙ more;
            in_time = k.in_time;
          }))
    ]

elapses-IsWaiting :
    (n : ℕ) (live : List ℕ) (ms : ℕ) (a : Api)
    → IsWaiting live ms a
    → (IsOver (drain_api (elapses n) a) × (5000 ≤ ms + n))
      ⊎ IsWaiting live (ms + n) (drain_api (elapses n) a)
elapses-IsWaiting n live ms a k =
    let same = ap (λ m. m + n) k.waited in
    elim (Bool-cases (leb drain_limit_ms (a.waited + n))) [
      | inl late ↦ inl (rw late (record { live = refl; outcome = refl }), ground (arith, same))
      | inr early ↦ inr (
          rw early (record {
            live_tasks = k.live_tasks;
            outcome = k.outcome;
            draining = k.draining;
            waited = same;
            some_left = k.some_left;
            in_time = ground (arith, same);
          }))
    ]

all-Ends :
    (es : List ApiEvent) (live : List ℕ) (ms : ℕ) (a : Api)
    → IsWaiting live ms a
    → Ends (remaining es live) (ms + milliseconds es) (serve_all run_api es a)
all-Ends [] live ms a k = subst (λ m. Ends live m a) (omega arith) (waiting-Ends live ms a k)
all-Ends (socket (accepts c) ∷ es) live ms a k =
    rw (run_api-drain_api (socket (accepts c)) live ms a k) (all-Ends es live ms a k)
all-Ends (socket (refuses e) ∷ es) live ms a k =
    rw (run_api-drain_api (socket (refuses e)) live ms a k) (all-Ends es live ms a k)
all-Ends (socket closes ∷ es) live ms a k =
    rw (run_api-drain_api (socket closes) live ms a k) (all-Ends es live ms a k)
all-Ends (ctrl_c ∷ es) live ms a k =
    rw (run_api-drain_api ctrl_c live ms a k) (all-Ends es live ms a k)
all-Ends (socket (completes c) ∷ es) live ms a k =
    let e = socket (completes c) in
    rw (run_api-drain_api e live ms a k) (elim (completes-IsWaiting c live ms a k) [
      | inl (over, none_now) ↦
          over-Ends _ _ _ (all-IsOver es (drain_api e a) over)
            (inl (ap (remaining es) none_now ∙ remaining_nil es))
      | inr going ↦ all-Ends es (drop_task c live) ms (drain_api e a) going
    ])
all-Ends (elapses n ∷ es) live ms a k =
    rw (run_api-drain_api (elapses n) live ms a k) (elim (elapses-IsWaiting n live ms a k) [
      | inl (over, late) ↦
          over-Ends _ _ _ (all-IsOver es (drain_api (elapses n) a) over) (inr (ground arith))
      | inr going ↦
          subst (λ m. Ends (remaining es live) m (serve_all run_api es (drain_api (elapses n) a)))
            (omega arith) (all-Ends es live (ms + n) (drain_api (elapses n) a) going)
    ])

-- After the shutdown signal, whatever comes: for 5000 milliseconds the control API aborts no connection,
-- and those are left that have not completed; then none is left. It ends, without an error, as soon as
-- none is left.
pub run_api-ctrl_c :
    (a : Api) (es : List ApiEvent)
    → a.tasks.outcome ≡ none
    → a.draining ≡ false
    → Ends (remaining es a.tasks.live) (milliseconds es) (serve_all run_api (ctrl_c ∷ es) a)
unfolding run_api
run_api-ctrl_c a es open_yet serving =
    let signal : run_api ctrl_c a ≡ drain (record a { draining = true; waited = 0 }) =
      ap (λ r. api_phase r a.draining ctrl_c a) open_yet
      ∙ ap (λ d. api_phase none d ctrl_c a) serving in
    rw signal (elim (Bool-cases (none_left a.tasks.live)) [
      | inl idle ↦
          over-Ends _ _ _ (all-IsOver es _ (rw idle (record { live = refl; outcome = refl })))
            (inl (ap (remaining es) (none_left-eq-true a.tasks.live idle) ∙ remaining_nil es))
      | inr busy ↦
          let after = drain (record a { draining = true; waited = 0 }) in
          subst (λ m. Ends (remaining es a.tasks.live) m (serve_all run_api es after)) (omega arith)
            (all-Ends es a.tasks.live 0 after (
              rw busy (record {
                live_tasks = refl;
                outcome = open_yet;
                draining = refl;
                waited = refl;
                some_left = busy;
                in_time = refl;
              })))
    ])
