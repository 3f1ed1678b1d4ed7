-- ===== src/Libongrok/Yamux/Tests.antt =====
-- The theorems on `YamuxSession` at concrete runs, whose streams are numbers.
use ongrok_relay.Prelude.{ℕ, zero, suc, some, List, [], ◌∷◌, ◌++◌, ◌≡◌, refl, ok}
use ongrok_relay.Libongrok.Yamux.{
  ended, opening, sending, YamuxSession, Action, asks, polls, reads, closes, works, asked, read,
  closed, request, opened, polled, Run, start, later, spawn, finish, hand_over, take_request,
  answer, take_inbound, close, open_stream, next_inbound,
}
use ongrok_relay.Libongrok.Yamux.Ledger.{Run-open_stream, tickets, serving, calls}
use ongrok_relay.Libongrok.Yamux.Inbound.{Run-next_inbound, streams, in_hand, arrivals}
use ongrok_relay.Libongrok.Yamux.Blocking.{IsStuck, Run-IsStuck}

-- Two streams arrive and one is taken; two calls are made and the first is answered.
abbrev asked_one : YamuxSession ℕ
asked_one = record spawn { outbound = 1 ∷ [] }

abbrev asked_two : YamuxSession ℕ
asked_two = record spawn { outbound = 1 ∷ 2 ∷ [] }

abbrev opening_one : YamuxSession ℕ
opening_one = record spawn { task = opening 1; outbound = 2 ∷ [] }

abbrev answered_one : YamuxSession ℕ
answered_one = record spawn { outbound = 2 ∷ []; answers = (1, ok 7) ∷ [] }

abbrev arrived_one : YamuxSession ℕ
arrived_one = record answered_one { inbound = 40 ∷ [] }

abbrev arrived_two : YamuxSession ℕ
arrived_two = record answered_one { inbound = 40 ∷ 41 ∷ [] }

abbrev taken_one : YamuxSession ℕ
taken_one = record answered_one { inbound = 41 ∷ []; received = some 40 ∷ [] }

abbrev one_run : List (Action ℕ)
one_run = reads ∷ polls (some (ok 41)) ∷ polls (some (ok 40)) ∷ works ∷ works ∷ asks 2 ∷ asks 1 ∷ []

one_run-Run : Run spawn one_run taken_one
unfolding open_stream next_inbound answer take_inbound take_request hand_over finish
one_run-Run =
    later
      (later
        (later
          (later
            (later
              (later (later (start spawn) (asked {t = asked_one} 1 refl refl))
                (asked {t = asked_two} 2 refl refl))
              (request asked_two 1 (2 ∷ []) refl refl))
            (opened opening_one 1 (ok 7) refl))
          (polled answered_one (some (ok 40)) refl))
        (polled arrived_one (some (ok 41)) refl))
      (read {s = arrived_two} {t = taken_one} refl refl)

Run-open_stream_example :
    (tickets taken_one.answers ++ serving taken_one.task ++ taken_one.outbound ≡ calls one_run)
    × (taken_one.task ≡ ended → tickets taken_one.answers ≡ calls one_run)
Run-open_stream_example = Run-open_stream one_run-Run

Run-next_inbound_example :
    streams taken_one.received ++ taken_one.inbound ++ in_hand taken_one.task ≡ arrivals one_run
Run-next_inbound_example = Run-next_inbound one_run-Run refl

abbrev repeat : ℕ → ℕ → List ℕ
repeat zero x = []
repeat (suc n) x = x ∷ repeat n x

-- The task holds stream 99 while 128 streams wait; a call of `open_stream` and `close` follow.
abbrev stuck : YamuxSession ℕ
stuck = record spawn { task = sending 99; inbound = repeat 128 40 }

abbrev stuck_asked : YamuxSession ℕ
stuck_asked = record stuck { outbound = 3 ∷ [] }

stuck-IsStuck : IsStuck 99 [] stuck
stuck-IsStuck = record { task = refl; full = refl; held = refl; answers = refl }

stuck-Run : Run stuck (closes ∷ asks 3 ∷ []) (close stuck_asked)
unfolding open_stream close
stuck-Run =
    later (later (start stuck) (asked {t = stuck_asked} 3 refl refl)) (closed stuck_asked refl)

Run-IsStuck_example : IsStuck 99 [] (close stuck_asked)
Run-IsStuck_example = Run-IsStuck stuck-Run (tt, (tt, tt)) stuck-IsStuck
