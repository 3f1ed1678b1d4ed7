-- ===== src/Client/Link.antt =====
-- The control stream of a client, of crates/ongrok-relay-client/src/main.rs: `read_control_frame` and
-- `write_control_frame` with the time they take. `budget` is how many more frames the relay takes
-- before a write fails.
use ongrok_relay.Prelude.{
  Wait, timely, Option, none, some, ℕ, zero, suc, ◌+◌, List, [], ◌∷◌, Text, text, leb, keep, map,
  ok, err, Error, Fallible, fail, M, ◌>>◌, lift, modify,
}
use ongrok_relay.BTree.{BTreeMap, insert}
use ongrok_relay.Libongrok.Types.{Frame}

-- What one `read_control_frame` gives.
abbrev pub Arrival : Type 0
Arrival = Wait Frame

-- The frames written, each with its time, the last one first; the milliseconds since the attempt
-- began; the addresses of the services that this client has published.
pub record Link : Type 0 where
  pub sent : List (ℕ × Frame)
  pub elapsed : ℕ
  pub budget : ℕ
  pub local_services : BTreeMap Text

abbrev pub fresh : ℕ → ℕ → Link
fresh elapsed budget = record { sent = []; elapsed = elapsed; budget = budget; local_services = [] }

abbrev pub next_arrival : List Arrival → Arrival
next_arrival [] = record { after = 0; result = err (text "failed to read control frame length") }
next_arrival (a ∷ _) = a

abbrev pub later_arrivals : List Arrival → List Arrival
later_arrivals [] = []
later_arrivals (_ ∷ rest) = rest

abbrev pub sleep : ℕ → M Link (Unit {0})
sleep time = modify (λ l. record l { elapsed = l.elapsed + time })

abbrev pub wait : {A : Type 0} → Wait A → M Link A
wait w = do sleep w.after; lift w.result

-- `timeout`, whose error is given the context `e`.
abbrev pub wait_within : {A : Type 0} → ℕ → Wait A → Error → M Link A
wait_within {A} limit w e = waited (timely limit w)
  where
    waited : Option (Fallible A) → M Link A
    waited (some result) = sleep w.after >> lift result
    waited none = sleep limit >> fail e

abbrev pub receive : Arrival → M Link Frame
receive a = wait a

abbrev send_within : ℕ → Frame → M Link (Unit {0})
send_within zero frame l = (err (text "failed to write control frame"), l)
send_within (suc n) frame l = (ok tt, record l { sent = (l.elapsed, frame) ∷ l.sent; budget = n })

unfoldable pub send : Frame → M Link (Unit {0})
send frame l = send_within l.budget frame l

abbrev pub add_service : ℕ → Text → M Link (Unit {0})
add_service service_id address =
    modify (λ l. record l { local_services = insert service_id address l.local_services })

abbrev pub frames : Link → List Frame
frames l = map (λ e. e.1) l.sent

-- What was done until `limit`, when the attempt is dropped.
abbrev pub cut : ℕ → Link → Link
cut limit l = record l { sent = keep (λ e. leb e.0 limit) l.sent }
