-- ===== src/Tasks.antt =====
-- A loop that accepts connections and starts a task for each, with what the crate tokio keeps of them:
-- `tokio::spawn` detaches a task, a `JoinSet` has an entry for it until it is joined, and aborts what
-- still runs when it is dropped. A connection is a number; what its task does is modelled where the
-- task's function is.
use ongrok_relay.Prelude.{
  ℕ, Bool, not, ◌≡◌, refl, sym, ap, subst, List, [], ◌∷◌, ◌++◌, Option, none, some, Fallible, ok,
  err, Error, keep, ◌==◌, is_some, if◌then◌else◌,
}

-- The loop's result is there once it has ended. `entries` are those of the `JoinSet`, `live` the tasks
-- that have not ended.
pub record Listener : Type 0 where
  pub entries : List ℕ
  pub live : List ℕ
  pub outcome : Option (Fallible (Unit {0}))

-- What `accept` gives, and the end of a task.
pub data Event : Type 0 where
  accepts completes : ℕ → Event
  refuses : Error → Event
  closes : Event

abbrev pub listening : Listener
listening = record { entries = []; live = []; outcome = none }

-- The socket is bound, or the loop is not reached: `e` is the context of the error.
abbrev pub bound : Fallible (Unit {0}) → Error → Listener
bound (ok _) e = listening
bound (err _) e = record listening { outcome = some (err e) }

abbrev pub is_done : Listener → Bool
is_done l = is_some l.outcome

abbrev pub drop_task : ℕ → List ℕ → List ℕ
drop_task c cs = keep (λ d. not (d == c)) cs

abbrev pub end_task : ℕ → Listener → Listener
end_task c l = record l { live = drop_task c l.live }

-- `tokio::spawn`.
abbrev pub spawn : ℕ → Listener → Listener
spawn c l = record l { live = l.live ++ (c ∷ []) }

-- `JoinSet::spawn`.
abbrev pub spawn_joined : ℕ → Listener → Listener
spawn_joined c l = record l { entries = l.entries ++ (c ∷ []); live = l.live ++ (c ∷ []) }

-- The function returns, and its detached tasks go on.
abbrev pub finish : Fallible (Unit {0}) → Listener → Listener
finish result l = record l { outcome = some result }

-- The function returns, and drops its `JoinSet`, in which all of its tasks are.
abbrev pub finish_joined : Fallible (Unit {0}) → Listener → Listener
finish_joined result l = record l { entries = []; live = []; outcome = some result }

-- Once a loop has ended nothing is accepted.
abbrev pub on_event : (Event → Listener → Listener) → Event → Listener → Listener
on_event loop (completes c) l = loop (completes c) l
on_event loop event l = if is_done l then l else loop event l

going :
    (loop : Event → Listener → Listener) (event : Event) (l : Listener)
    → l.outcome ≡ none
    → (if is_done l then l else loop event l) ≡ loop event l
going loop event l e =
    subst (λ b. (if b then l else loop event l) ≡ loop event l) (sym (ap is_some e)) refl

-- A loop that has not ended takes every event.
pub on_event-listening :
    (loop : Event → Listener → Listener) (event : Event) (l : Listener)
    → l.outcome ≡ none
    → on_event loop event l ≡ loop event l
on_event-listening loop (completes c) l e = refl
on_event-listening loop (accepts c) l e = going loop (accepts c) l e
on_event-listening loop (refuses x) l e = going loop (refuses x) l e
on_event-listening loop closes l e = going loop closes l e
