-- ===== src/Libongrok/Yamux/Ledger.antt =====
-- What becomes of the calls of `open_stream` and of the streams that the other side opens.
use ongrok_relay.Prelude.{
  ℕ, none, some, List, [], ◌∷◌, ◌++◌, ◌≡◌, refl, sym, ap, ◌∙◌, subst, ok, err, Fallible, length,
  not, if-holds, inl, inr, ltb,
}
use ongrok_relay.Libongrok.Yamux.{
  Task, ended, opening, YamuxSession, Action, asks, Step, asked, read, closed, released, request,
  no_request, opened, polled, sent, changed, Run, start, later, spawn, finish, hand_over,
  take_request, answer, take_inbound, open_stream, next_inbound, close, release, capacity,
  abandoned,
}
use ongrok_relay.Libongrok.Yamux.Cases.{open_stream-cases, next_inbound-cases, is_running-ne-ended}
use mathlib.Core.List.{append_assoc, append-nil}

module _ {Stream : Type 0} where
  abbrev pub tickets : List (ℕ × Fallible Stream) → List ℕ
  tickets [] = []
  tickets (a ∷ rest) = a.0 ∷ tickets rest

  abbrev pub serving : Task Stream → List ℕ
  serving (opening n) = n ∷ []
  serving _ = []

  -- The calls of `open_stream`: those that have an answer, the one at hand, those that wait.
  abbrev pub ledger : YamuxSession Stream → List ℕ
  ledger s = tickets s.answers ++ serving s.task ++ s.outbound

  abbrev pub asked_by : Action Stream → List ℕ
  asked_by (asks n) = n ∷ []
  asked_by _ = []

  abbrev pub calls : List (Action Stream) → List ℕ
  calls [] = []
  calls (a ∷ done) = calls done ++ asked_by a

  abbrev pub IsSettled : YamuxSession Stream → Type 0
  IsSettled s = s.task ≡ ended → s.outbound ≡ []

  tickets-append :
      (xs ys : List (ℕ × Fallible Stream)) → tickets (xs ++ ys) ≡ tickets xs ++ tickets ys
  tickets-append [] ys = refl
  tickets-append (x ∷ xs) ys = ap (λ r. x.0 ∷ r) (tickets-append xs ys)

  tickets-abandoned :
      (given : List (ℕ × Fallible Stream)) (ns : List ℕ)
      → tickets (given ++ abandoned ns) ≡ tickets given ++ ns
  tickets-abandoned (x ∷ rest) ns = ap (λ r. x.0 ∷ r) (tickets-abandoned rest ns)
  tickets-abandoned [] [] = refl
  tickets-abandoned [] (n ∷ ns) = ap (λ r. n ∷ r) (tickets-abandoned [] ns)

  finish-ledger : (s : YamuxSession Stream) → serving s.task ≡ [] → ledger (finish s) ≡ ledger s
  unfolding finish
  finish-ledger s e =
      rw (tickets-abandoned s.answers s.outbound, e)
        (append-nil _ ∙ append-nil _ ∙ ap (λ r. r ++ s.outbound) (sym (append-nil _)))

  hand_over-ledger :
      (x : Stream) (s : YamuxSession Stream)
      → serving s.task ≡ []
      → ledger (hand_over x s) ≡ ledger s
  unfolding hand_over
  hand_over-ledger x s e =
      if-holds (λ t. ledger t ≡ ledger s) (not s.held) (finish-ledger s e)
        (if-holds (λ t. ledger t ≡ ledger s) (ltb (length s.inbound) capacity) (rw e refl)
          (rw e refl))

  Step-ledger :
      {s t : YamuxSession Stream} {a : Action Stream}
      → Step s a t
      → IsSettled s
      → ledger t ≡ ledger s ++ asked_by a
  unfolding open_stream next_inbound close release take_request answer take_inbound
  Step-ledger (asked {s} {t} n h e) settled = elim (open_stream-cases n s t e) [
    | inl (q, same) ↦
        subst (λ u. ledger u ≡ ledger s ++ (n ∷ [])) (sym same) simp
          (q, settled q, tickets-append, append_assoc, append-nil)
    | inr (runs, q, same) ↦
        subst (λ u. ledger u ≡ ledger s ++ (n ∷ [])) (sym same) simp (append_assoc)
  ]
  Step-ledger (read {s} {t} h e) settled = elim (next_inbound-cases s t e) [
    | inl (x, rest, q, same) ↦
        subst (λ u. ledger u ≡ ledger s ++ []) (sym same) (sym (append-nil _))
    | inr (q, r, same) ↦ subst (λ u. ledger u ≡ ledger s ++ []) (sym same) (sym (append-nil _))
  ]
  Step-ledger (closed s h) settled = sym (append-nil _)
  Step-ledger (released s) settled = sym (append-nil _)
  Step-ledger (request s n rest e q) settled = simp (e, q, append_assoc, append-nil)
  Step-ledger (no_request s e q h) settled = finish-ledger s (rw e refl) ∙ sym (append-nil _)
  Step-ledger (opened s n result e) settled = simp (e, tickets-append, append_assoc, append-nil)
  Step-ledger (polled s (some (ok x)) e) settled =
      hand_over-ledger x s (rw e refl) ∙ sym (append-nil _)
  Step-ledger (polled s (some (err x)) e) settled = finish-ledger s (rw e refl) ∙ sym (append-nil _)
  Step-ledger (polled s none e) settled = finish-ledger s (rw e refl) ∙ sym (append-nil _)
  Step-ledger (sent s x e) settled = hand_over-ledger x s (rw e refl) ∙ sym (append-nil _)
  Step-ledger (changed s e h) settled = finish-ledger s (rw e refl) ∙ sym (append-nil _)

  finish-IsSettled : (s : YamuxSession Stream) → IsSettled (finish s)
  unfolding finish
  finish-IsSettled s e = refl

  hand_over-IsSettled : (x : Stream) (s : YamuxSession Stream) → IsSettled (hand_over x s)
  unfolding hand_over
  hand_over-IsSettled x s =
      if-holds IsSettled (not s.held) (finish-IsSettled s)
        (if-holds IsSettled (ltb (length s.inbound) capacity) (λ e. cc) (λ e. cc))

  Step-IsSettled :
      {s t : YamuxSession Stream} {a : Action Stream} → Step s a t → IsSettled s → IsSettled t
  unfolding close release take_request answer take_inbound
  Step-IsSettled (asked {s} {t} n h e) settled = elim (open_stream-cases n s t e) [
    | inl (q, same) ↦ subst IsSettled (sym same) settled
    | inr (runs, q, same) ↦
        subst IsSettled (sym same) (λ gone. absurd (is_running-ne-ended gone runs))
  ]
  Step-IsSettled (read {s} {t} h e) settled = elim (next_inbound-cases s t e) [
    | inl (x, rest, q, same) ↦ subst IsSettled (sym same) settled
    | inr (q, r, same) ↦ subst IsSettled (sym same) settled
  ]
  Step-IsSettled (closed s h) settled = settled
  Step-IsSettled (released s) settled = settled
  Step-IsSettled (request s n rest e q) settled = λ h. cc
  Step-IsSettled (no_request s e q h) settled = finish-IsSettled s
  Step-IsSettled (opened s n result e) settled = λ h. cc
  Step-IsSettled (polled s (some (ok x)) e) settled = hand_over-IsSettled x s
  Step-IsSettled (polled s (some (err x)) e) settled = finish-IsSettled s
  Step-IsSettled (polled s none e) settled = finish-IsSettled s
  Step-IsSettled (sent s x e) settled = hand_over-IsSettled x s
  Step-IsSettled (changed s e h) settled = finish-IsSettled s

  pub Run-IsSettled :
      {s t : YamuxSession Stream} {done : List (Action Stream)}
      → Run s done t
      → IsSettled s
      → IsSettled t
  Run-IsSettled (start s) h = h
  Run-IsSettled (later r x) h = Step-IsSettled x (Run-IsSettled r h)

  pub Run-ledger :
      {s t : YamuxSession Stream} {done : List (Action Stream)}
      → Run s done t
      → IsSettled s
      → ledger t ≡ ledger s ++ calls done
  Run-ledger (start s) h = sym (append-nil _)
  Run-ledger (later {s = s} {a = a} {done = done} r x) h =
      Step-ledger x (Run-IsSettled r h)
      ∙ ap (λ l. l ++ asked_by a) (Run-ledger r h)
      ∙ append_assoc (ledger s) (calls done) (asked_by a)

  tickets-answered :
      (t : YamuxSession Stream) → t.task ≡ ended → t.outbound ≡ [] → tickets t.answers ≡ ledger t
  tickets-answered t e q = rw (e, q) (sym (append-nil _ ∙ append-nil _))

  -- However the task, its connection and the callers interleave, the calls of `open_stream` are, in
  -- their order and each once: those that were given an answer, the one whose stream is being opened,
  -- and those that wait. Once the task is gone every call has its answer.
  pub Run-open_stream :
      {t : YamuxSession Stream} {done : List (Action Stream)}
      → Run spawn done t
      → (tickets t.answers ++ serving t.task ++ t.outbound ≡ calls done)
        × (t.task ≡ ended → tickets t.answers ≡ calls done)
  Run-open_stream {t} {done} r =
      let kept = Run-ledger r (λ _. refl) in
      (kept, λ e. tickets-answered t e (Run-IsSettled r (λ _. refl) e) ∙ kept)
