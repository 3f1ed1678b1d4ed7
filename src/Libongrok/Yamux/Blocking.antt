-- ===== src/Libongrok/Yamux/Blocking.antt =====
-- What the two channels hold, and what a full inbound channel holds up.
use ongrok_relay.Prelude.{
  ℕ, ◌≤◌, none, some, List, [], ◌∷◌, true, false, not, ◌≡◌, refl, sym, ap, ◌∙◌, subst, ok, err,
  Fallible, length, arith, inl, inr, Bool-cases, ltb, length-append, if-holds, All,
}
use ongrok_relay.Libongrok.Yamux.{
  selecting, ended, opening, sending, YamuxSession, Action, reads, releases, Step, asked, read,
  closed, released, request, no_request, opened, polled, sent, changed, Run, start, later, spawn,
  finish, hand_over, take_request, answer, take_inbound, close, release, capacity,
}
use ongrok_relay.Libongrok.Yamux.Cases.{open_stream-cases, next_inbound-cases}

module _ {Stream : Type 0} where
  -- Both channels keep to their capacity.
  pub record IsBounded (s : YamuxSession Stream) : Type 0 where
    pub outbound : length s.outbound ≤ 128
    pub inbound : length s.inbound ≤ 128

  finish-IsBounded : (s : YamuxSession Stream) → IsBounded s → IsBounded (finish s)
  unfolding finish
  finish-IsBounded s h = record { outbound = omega arith; inbound = h.inbound }

  hand_over-IsBounded :
      (x : Stream) (s : YamuxSession Stream) → IsBounded s → IsBounded (hand_over x s)
  unfolding hand_over
  hand_over-IsBounded x s h =
      if-holds IsBounded (not s.held) (finish-IsBounded s h)
        (elim (Bool-cases (ltb (length s.inbound) capacity)) [
          | inl q ↦ rw q (record {
            outbound = h.outbound;
            inbound = ground (arith, length-append s.inbound (x ∷ []));
          })
          | inr q ↦ rw q (record { outbound = h.outbound; inbound = h.inbound })
        ])

  Step-IsBounded :
      {s t : YamuxSession Stream} {a : Action Stream} → Step s a t → IsBounded s → IsBounded t
  unfolding close release take_request answer take_inbound
  Step-IsBounded (asked {s} {t} n h e) b = elim (open_stream-cases n s t e) [
    | inl (_, same) ↦
        subst IsBounded (sym same) (record { outbound = b.outbound; inbound = b.inbound })
    | inr (_, q, same) ↦ subst IsBounded (sym same) (record {
      outbound = ground (arith, length-append s.outbound (n ∷ []));
      inbound = b.inbound;
    })
  ]
  Step-IsBounded (read {s} {t} h e) b = elim (next_inbound-cases s t e) [
    | inl (x, rest, q, same) ↦
        subst IsBounded (sym same)
          (record { outbound = b.outbound; inbound = omega (arith, ap length q, b.inbound) })
    | inr (_, q, same) ↦
        subst IsBounded (sym same) (record { outbound = b.outbound; inbound = b.inbound })
  ]
  Step-IsBounded (closed s h) b = record { outbound = b.outbound; inbound = b.inbound }
  Step-IsBounded (released s) b = record { outbound = b.outbound; inbound = omega arith }
  Step-IsBounded (request s n rest e q) b = record {
    outbound = omega (arith, ap length q, b.outbound);
    inbound = b.inbound;
  }
  Step-IsBounded (no_request s e q h) b = finish-IsBounded s b
  Step-IsBounded (opened s n result e) b = record { outbound = b.outbound; inbound = b.inbound }
  Step-IsBounded (polled s (some (ok x)) e) b = hand_over-IsBounded x s b
  Step-IsBounded (polled s (some (err x)) e) b = finish-IsBounded s b
  Step-IsBounded (polled s none e) b = finish-IsBounded s b
  Step-IsBounded (sent s x e) b = hand_over-IsBounded x s b
  Step-IsBounded (changed s e h) b = finish-IsBounded s b

  pub Run-IsBounded :
      {s t : YamuxSession Stream} {done : List (Action Stream)}
      → Run s done t
      → IsBounded s
      → IsBounded t
  Run-IsBounded (start s) b = b
  Run-IsBounded (later r x) b = Step-IsBounded x (Run-IsBounded r b)

  pub spawn-IsBounded : IsBounded spawn
  spawn-IsBounded = record { outbound = omega arith; inbound = omega arith }

  -- An action that neither takes an inbound stream nor drops the last handle.
  abbrev pub IsElsewhere : Action Stream → Type 0
  IsElsewhere reads = ⊥
  IsElsewhere releases = ⊥
  IsElsewhere _ = Unit

  -- The task waits to hand over `x`, with `given` answered so far.
  pub record IsStuck (x : Stream) (given : List (ℕ × Fallible Stream)) (s : YamuxSession Stream)
      : Type 0 where
    pub task : s.task ≡ sending x
    pub full : length s.inbound ≡ 128
    pub held : s.held ≡ true
    pub answers : s.answers ≡ given

  hand_over-IsStuck :
      {x : Stream} {given : List (ℕ × Fallible Stream)} (y : Stream) (s : YamuxSession Stream)
      → IsStuck x given s
      → s.task ≡ sending y
      → IsStuck x given (hand_over y s)
  unfolding hand_over
  hand_over-IsStuck {x} {given} y s k e =
      let is_full : ltb (length s.inbound) capacity ≡ false = ground (arith, k.full) in
      rw (k.held, is_full)
        (record { task = sym e ∙ k.task; full = k.full; held = refl; answers = k.answers })

  -- Only the end of `inbound_tx.send` moves the task.
  elsewhere :
      {x : Stream} {given : List (ℕ × Fallible Stream)} {s : YamuxSession Stream}
      → IsStuck x given s
      → ¬ (s.task ≡ selecting) × ¬ (s.task ≡ ended) × ((n : ℕ) → ¬ (s.task ≡ opening n))
  elsewhere k = (λ e. cc, λ e. cc, λ n e. cc)

  Step-IsStuck :
      {s t : YamuxSession Stream} {a : Action Stream} {x : Stream}
      {given : List (ℕ × Fallible Stream)}
      → Step s a t
      → IsElsewhere a
      → IsStuck x given s
      → IsStuck x given t
  unfolding close
  Step-IsStuck (asked {s} {t} n h e) o k = elim (open_stream-cases n s t e) [
    | inl (gone, same) ↦ absurd ((elsewhere k).1 gone)
    | inr (_, q, same) ↦
        subst (IsStuck _ _) (sym same)
          (record { task = k.task; full = k.full; held = k.held; answers = k.answers })
  ]
  Step-IsStuck (read h e) o k = absurd o
  Step-IsStuck (closed s h) o k = record {
    task = k.task;
    full = k.full;
    held = k.held;
    answers = k.answers;
  }
  Step-IsStuck (released s) o k = absurd o
  Step-IsStuck (request s n rest e q) o k = absurd ((elsewhere k).0 e)
  Step-IsStuck (no_request s e q h) o k = absurd ((elsewhere k).0 e)
  Step-IsStuck (opened s n result e) o k = absurd ((elsewhere k).2 n e)
  Step-IsStuck (polled s next e) o k = absurd ((elsewhere k).0 e)
  Step-IsStuck (sent s x e) o k = hand_over-IsStuck x s k e
  Step-IsStuck (changed s e h) o k = absurd ((elsewhere k).0 e)

  -- While the task waits to hand over a stream and the channel is full, no call of `open_stream` is
  -- answered and the task does not end, whatever is done but to take a stream by `next_inbound` or to
  -- drop the last handle: `close` has no effect either.
  pub Run-IsStuck :
      {s t : YamuxSession Stream} {done : List (Action Stream)} {x : Stream}
      {given : List (ℕ × Fallible Stream)}
      → Run s done t
      → All IsElsewhere done
      → IsStuck x given s
      → IsStuck x given t
  Run-IsStuck (start s) o k = k
  Run-IsStuck (later r x) o k = Step-IsStuck x o.0 (Run-IsStuck r o.1 k)
