-- ===== src/Libongrok/Yamux/Inbound.antt =====
-- The streams that the other side opens, up to the calls of `next_inbound`.
use ongrok_relay.Prelude.{
  Option, none, some, List, [], ◌∷◌, ◌++◌, true, not, ◌≡◌, refl, sym, ap, ◌∙◌, subst, ok, err,
  length, inl, inr, ltb, if-holds,
}
use ongrok_relay.Libongrok.Yamux.{
  Task, sending, YamuxSession, Action, polls, Step, asked, read, closed, released, request,
  no_request, opened, polled, sent, changed, Run, start, later, spawn, finish, hand_over,
  take_request, answer, take_inbound, close, release, capacity,
}
use ongrok_relay.Libongrok.Yamux.Cases.{open_stream-cases, next_inbound-cases}
use mathlib.Core.List.{append_assoc, append-nil}

module _ {Stream : Type 0} where
  abbrev pub streams : List (Option Stream) → List Stream
  streams [] = []
  streams (some x ∷ rest) = x ∷ streams rest
  streams (none ∷ rest) = streams rest

  abbrev pub in_hand : Task Stream → List Stream
  in_hand (sending x) = x ∷ []
  in_hand _ = []

  -- The streams that were taken, those in the channel, and the one that the task holds.
  abbrev pub inflow : YamuxSession Stream → List Stream
  inflow s = streams s.received ++ s.inbound ++ in_hand s.task

  abbrev arrived_by : Action Stream → List Stream
  arrived_by (polls (some (ok x))) = x ∷ []
  arrived_by _ = []

  abbrev pub arrivals : List (Action Stream) → List Stream
  arrivals [] = []
  arrivals (a ∷ done) = arrivals done ++ arrived_by a

  streams-some :
      (given : List (Option Stream)) (x : Stream)
      → streams (given ++ (some x ∷ [])) ≡ streams given ++ (x ∷ [])
  streams-some [] x = refl
  streams-some (some y ∷ rest) x = ap (λ r. y ∷ r) (streams-some rest x)
  streams-some (none ∷ rest) x = streams-some rest x

  streams-none : (given : List (Option Stream)) → streams (given ++ (none ∷ [])) ≡ streams given
  streams-none [] = refl
  streams-none (some y ∷ rest) = ap (λ r. y ∷ r) (streams-none rest)
  streams-none (none ∷ rest) = streams-none rest

  finish-inflow : (s : YamuxSession Stream) → in_hand s.task ≡ [] → inflow (finish s) ≡ inflow s
  unfolding finish
  finish-inflow s e = rw e refl

  hand_over-inflow :
      (x : Stream) (s : YamuxSession Stream)
      → s.held ≡ true
      → inflow (hand_over x s) ≡ streams s.received ++ s.inbound ++ (x ∷ [])
  unfolding hand_over
  hand_over-inflow x s h = rw h (
      if-holds (λ (t : YamuxSession Stream). inflow t ≡ streams s.received ++ s.inbound ++ (x ∷ []))
        (ltb (length s.inbound) capacity)
        (append-nil _ ∙ sym (append_assoc (streams s.received) s.inbound (x ∷ []))) refl)

  hand_over-held : (x : Stream) (s : YamuxSession Stream) → (hand_over x s).held ≡ s.held
  unfolding hand_over finish
  hand_over-held x s =
      if-holds (λ (t : YamuxSession Stream). t.held ≡ s.held) (not s.held) refl
        (if-holds (λ (t : YamuxSession Stream). t.held ≡ s.held) (ltb (length s.inbound) capacity)
          refl refl)

  -- A handle that is left was there before.
  Step-held :
      {s t : YamuxSession Stream} {a : Action Stream} → Step s a t → t.held ≡ true → s.held ≡ true
  unfolding finish close release take_request answer take_inbound
  Step-held (asked n h e) q = h
  Step-held (read h e) q = h
  Step-held (closed s h) q = h
  Step-held (released s) q = absurd cc
  Step-held (request s n rest e r) q = q
  Step-held (no_request s e r h) q = q
  Step-held (opened s n result e) q = q
  Step-held (polled s (some (ok x)) e) q = sym (hand_over-held x s) ∙ q
  Step-held (polled s (some (err x)) e) q = q
  Step-held (polled s none e) q = q
  Step-held (sent s x e) q = sym (hand_over-held x s) ∙ q
  Step-held (changed s e h) q = q

  Step-inflow :
      {s t : YamuxSession Stream} {a : Action Stream}
      → Step s a t
      → t.held ≡ true
      → inflow t ≡ inflow s ++ arrived_by a
  unfolding close release take_request answer take_inbound
  Step-inflow (asked {s} {t} n h e) q = elim (open_stream-cases n s t e) [
    | inl (_, same) ↦ subst (λ u. inflow u ≡ inflow s ++ []) (sym same) (sym (append-nil _))
    | inr (_, _, same) ↦ subst (λ u. inflow u ≡ inflow s ++ []) (sym same) (sym (append-nil _))
  ]
  Step-inflow (read {s} {t} h e) q = elim (next_inbound-cases s t e) [
    | inl (x, rest, r, same) ↦
        subst (λ u. inflow u ≡ inflow s ++ []) (sym same) simp
          (r, streams-some, append_assoc, append-nil)
    | inr (_, r, same) ↦
        subst (λ u. inflow u ≡ inflow s ++ []) (sym same) simp (streams-none, append-nil)
  ]
  Step-inflow (closed s h) q = sym (append-nil _)
  Step-inflow (released s) q = absurd cc
  Step-inflow (request s n rest e r) q = simp (e, append-nil)
  Step-inflow (no_request s e r h) q = finish-inflow s (rw e refl) ∙ sym (append-nil _)
  Step-inflow (opened s n result e) q = simp (e, append-nil)
  Step-inflow (polled s (some (ok x)) e) q =
      hand_over-inflow x s (Step-held (polled s (some (ok x)) e) q) ∙ simp (e, append-nil)
  Step-inflow (polled s (some (err x)) e) q = finish-inflow s (rw e refl) ∙ sym (append-nil _)
  Step-inflow (polled s none e) q = finish-inflow s (rw e refl) ∙ sym (append-nil _)
  Step-inflow (sent s x e) q =
      hand_over-inflow x s (Step-held (sent s x e) q) ∙ simp (e, append-nil)
  Step-inflow (changed s e h) q = finish-inflow s (rw e refl) ∙ sym (append-nil _)

  Run-inflow :
      {s t : YamuxSession Stream} {done : List (Action Stream)}
      → Run s done t
      → t.held ≡ true
      → inflow t ≡ inflow s ++ arrivals done
  Run-inflow (start s) h = sym (append-nil _)
  Run-inflow (later {s = s} {a = a} {done = done} r x) h =
      Step-inflow x h
      ∙ ap (λ l. l ++ arrived_by a) (Run-inflow r (Step-held x h))
      ∙ append_assoc (inflow s) (arrivals done) (arrived_by a)

  -- As long as a handle is left no stream that the other side opened is lost, doubled or overtaken:
  -- in the order in which the connection gave them they are those that `next_inbound` returned, those
  -- that wait in the channel, and the one that the task holds while the channel is full.
  pub Run-next_inbound :
      {t : YamuxSession Stream} {done : List (Action Stream)}
      → Run spawn done t
      → t.held ≡ true
      → streams t.received ++ t.inbound ++ in_hand t.task ≡ arrivals done
  Run-next_inbound r h = Run-inflow r h
