-- ===== src/Server/Store/Retention.antt =====
-- What is kept of the history in store.rs of crates/ongrok-relay-server/src: metrics for three days,
-- and the events that are shown.
use ongrok_relay.Prelude.{
  ℕ, zero, suc, ◌+◌, ◌≤◌, ◌≡◌, refl, Bool, false, not, ◌&&◌, ◌||◌, List, [], ◌∷◌, Text, text_eq,
  text_eq_self, ok, err, Fallible, any, take, length, text, All, arith, Bool-cases, Result-cases,
  inl, inr,
}
use ongrok_relay.Prelude.Int.{ℤ, pos, negsuc, ltz, pos_part, neg_part, saturating_sub}
use ongrok_relay.Libongrok.Types.{NodeMetric, ControlEvent}
use ongrok_relay.Server.Store.{
  Tables, Table, Redb, is_old, expired, drop_row, drop_rows, place, newest_first, decode_all,
  set_row, metric_retention_ms,
}
use ongrok_relay.Server.Store.History.{metric_key, cutoff, prune, put_metric, recent_events}

has : Text → List Text → Bool
has key [] = false
has key (k ∷ keys) = text_eq k key || has key keys

text_eq_comm : (s t : Text) → text_eq s t ≡ text_eq t s
unfolding text_eq
text_eq_comm [] [] = refl
text_eq_comm [] (b ∷ t) = refl
text_eq_comm (a ∷ s) [] = refl
text_eq_comm (a ∷ s) (b ∷ t) = ground (arith, text_eq_comm s t)

module _ (decode : Text → Fallible NodeMetric) (oldest : ℤ) where
  -- Whether a row holds an old metric.
  abbrev holds_old : Table → Bool
  holds_old = any (λ r. is_old oldest (decode r.1))

  -- Whether a row whose key is not among these holds an old metric.
  uncovered : List Text → Table → Bool
  uncovered keys [] = false
  uncovered keys ((key, value) ∷ rows) =
      is_old oldest (decode value) && not (has key keys) || uncovered keys rows

  uncovered-more :
      (k : Text) (keys : List Text) (rows : Table)
      → uncovered keys rows ≡ false
      → uncovered (k ∷ keys) rows ≡ false
  unfolding uncovered has
  uncovered-more k keys [] h = refl
  uncovered-more k keys ((key, value) ∷ rows) h = ground (arith, uncovered-more k keys rows)

  uncovered-expired : (rows : Table) → uncovered (expired decode oldest rows) rows ≡ false
  unfolding uncovered has expired
  uncovered-expired [] = refl
  uncovered-expired ((key, value) ∷ rows) = ground (
    arith,
    uncovered-expired rows,
    text_eq_self key,
    uncovered-more key (expired decode oldest rows) rows,
  )

  uncovered-drop_row :
      (k : Text) (keys : List Text) (rows : Table)
      → uncovered (k ∷ keys) rows ≡ false
      → uncovered keys (drop_row k rows) ≡ false
  unfolding uncovered has drop_row
  uncovered-drop_row k keys [] h = refl
  uncovered-drop_row k keys ((key, value) ∷ rows) h =
      ground (arith, text_eq_comm key k, uncovered-drop_row k keys rows)

  holds_old-uncovered : (rows : Table) → uncovered [] rows ≡ false → holds_old rows ≡ false
  unfolding uncovered has
  holds_old-uncovered [] h = refl
  holds_old-uncovered ((key, value) ∷ rows) h = ground (arith, holds_old-uncovered rows)

  holds_old-drop_rows :
      (keys : List Text) (rows : Table)
      → uncovered keys rows ≡ false
      → holds_old (drop_rows keys rows) ≡ false
  unfolding drop_rows
  holds_old-drop_rows [] rows h = holds_old-uncovered rows h
  holds_old-drop_rows (k ∷ keys) rows h =
      holds_old-drop_rows keys (drop_row k rows) (uncovered-drop_row k keys rows h)

-- A metric that was recorded at most three days before a time, if it is one.
abbrev pub IsRetained : ℤ → Fallible NodeMetric → Type 0
IsRetained at (err e) = Unit
IsRetained at (ok metric) =
    pos_part at + neg_part metric.recorded_at_unix_ms
    ≤ pos_part metric.recorded_at_unix_ms + neg_part at + 259200000

is_old-IsRetained :
    (metric : NodeMetric) (r : Fallible NodeMetric)
    → pos_part metric.recorded_at_unix_ms ≤ 9223372036854775807
    → is_old (cutoff metric) r ≡ false
    → IsRetained metric.recorded_at_unix_ms r
is_old-IsRetained metric (err e) bounded h = tt
is_old-IsRetained metric (ok stored) bounded h =
    recent metric.recorded_at_unix_ms stored.recorded_at_unix_ms bounded h
  where
    recent :
        (at t : ℤ)
        → pos_part at ≤ 9223372036854775807
        → ltz t (saturating_sub at (pos metric_retention_ms)) ≡ false
        → pos_part at + neg_part t ≤ pos_part t + neg_part at + 259200000
    recent (pos a) (pos b) bounded h = ground arith
    recent (pos a) (negsuc b) bounded h = ground arith
    recent (negsuc a) (pos b) bounded h = ground arith
    recent (negsuc a) (negsuc b) bounded h = ground arith

All-IsRetained :
    (decode : Text → Fallible NodeMetric) (metric : NodeMetric)
    → pos_part metric.recorded_at_unix_ms ≤ 9223372036854775807
    → (rows : Table) → holds_old decode (cutoff metric) rows ≡ false
    → All (λ (r : Text × Text). IsRetained metric.recorded_at_unix_ms (decode r.1)) rows
All-IsRetained decode metric bounded [] h = tt
All-IsRetained decode metric bounded (r ∷ rows) h = (
  is_old-IsRetained metric (decode r.1) bounded (ground arith),
  All-IsRetained decode metric bounded rows (ground arith),
)

-- The events in an order in which none is older than a later one.
abbrev pub IsNewestFirst : List ControlEvent → Type 0
IsNewestFirst [] = Unit
IsNewestFirst (event ∷ later) =
    All (λ (e : ControlEvent). ltz event.occurred_at_unix_ms e.occurred_at_unix_ms ≡ false) later
    × IsNewestFirst later

module _ (at : ℤ) where
  abbrev NoneAfter : List ControlEvent → Type 0
  NoneAfter = All (λ (e : ControlEvent). ltz at e.occurred_at_unix_ms ≡ false)

  NoneAfter-place :
      (event : ControlEvent) (events : List ControlEvent)
      → ltz at event.occurred_at_unix_ms ≡ false
      → NoneAfter events
      → NoneAfter (place event events)
  unfolding place
  NoneAfter-place event [] h n = (h, tt)
  NoneAfter-place event (next ∷ later) h n = ground (arith, NoneAfter-place event later h n.1)

  NoneAfter-take :
      (limit : ℕ) (events : List ControlEvent) → NoneAfter events → NoneAfter (take limit events)
  NoneAfter-take zero events n = tt
  NoneAfter-take (suc limit) [] n = tt
  NoneAfter-take (suc limit) (e ∷ events) n = (n.0, NoneAfter-take limit events n.1)

NoneAfter-later :
    (a b : ℤ) (events : List ControlEvent)
    → ltz a b ≡ false
    → NoneAfter b events
    → NoneAfter a events
NoneAfter-later a b [] h n = tt
NoneAfter-later a b (e ∷ events) h n = (ground arith, NoneAfter-later a b events h n.1)

place-IsNewestFirst :
    (event : ControlEvent) (events : List ControlEvent)
    → IsNewestFirst events
    → IsNewestFirst (place event events)
unfolding place
place-IsNewestFirst event [] s = (tt, tt)
place-IsNewestFirst event (next ∷ later) s =
    elim (Bool-cases (ltz event.occurred_at_unix_ms next.occurred_at_unix_ms)) [
      | inl older ↦
          rw (older, place)
            (
              NoneAfter-place next.occurred_at_unix_ms event later (ground arith) s.0,
              place-IsNewestFirst event later s.1,
            )
      | inr newer ↦
          rw (newer, place)
            (
              (
                newer,
                NoneAfter-later event.occurred_at_unix_ms next.occurred_at_unix_ms later newer s.0,
              ),
              s,
            )
    ]

newest_first-IsNewestFirst : (events : List ControlEvent) → IsNewestFirst (newest_first events)
unfolding newest_first
newest_first-IsNewestFirst [] = tt
newest_first-IsNewestFirst (event ∷ events) =
    place-IsNewestFirst event (newest_first events) (newest_first-IsNewestFirst events)

take-IsNewestFirst :
    (limit : ℕ) (events : List ControlEvent)
    → IsNewestFirst events
    → (length (take limit events) ≤ limit) × IsNewestFirst (take limit events)
take-IsNewestFirst zero events s = (omega arith, tt)
take-IsNewestFirst (suc limit) [] s = (omega arith, tt)
take-IsNewestFirst (suc limit) (e ∷ events) s =
    let (short, sorted) = take-IsNewestFirst limit events s.1 in
    (omega arith, (NoneAfter-take e.occurred_at_unix_ms limit events s.0, sorted))

module _ (E : Redb) where
  -- After a metric was stored, no metric that can be decoded is stored that was recorded more than
  -- 259200000 milliseconds, three days, before it. Its own time is one of an `i64`.
  pub put_metric-retention :
      (db db' : Tables) (metric : NodeMetric)
      → pos_part metric.recorded_at_unix_ms ≤ 9223372036854775807
      → put_metric E db metric ≡ ok db'
      → All
          (λ (r : Text × Text).
            IsRetained metric.recorded_at_unix_ms (E.metric_format.from_bytes r.1))
          db'.metrics
  unfolding put_metric prune
  put_metric-retention db db' metric bounded stored =
      elim (Result-cases (E.metric_format.to_allocvec metric)) [
        | inr (x, failed) ↦ absurd (ground arith)
        | inl (encoded, encodes) ↦
            let rows = set_row (metric_key E.uuid_text metric) encoded db.metrics in
            let keys = expired E.metric_format.from_bytes (cutoff metric) rows in
            let kept : db'.metrics ≡ drop_rows keys rows = ground arith in
            All-IsRetained E.metric_format.from_bytes metric bounded db'.metrics (
              rw kept (
                holds_old-drop_rows E.metric_format.from_bytes (cutoff metric) keys rows
                  (uncovered-expired E.metric_format.from_bytes (cutoff metric) rows)))
      ]

  -- The recent events are at most as many as asked for, the newest first.
  pub recent_events-IsNewestFirst :
      (db : Tables) (limit : ℕ) (events : List ControlEvent)
      → recent_events E db limit ≡ ok events
      → (length events ≤ limit) × IsNewestFirst events
  unfolding recent_events
  recent_events-IsNewestFirst db limit events loaded =
      elim (Result-cases
        (decode_all E.event_format.from_bytes (text "failed to decode control event") db.events)) [
          | inr (x, failed) ↦ absurd (ground arith)
          | inl (stored, decoded) ↦
              let shown : events ≡ take limit (newest_first stored) = ground arith in
              rw shown
                (take-IsNewestFirst limit (newest_first stored) (newest_first-IsNewestFirst stored))
        ]
