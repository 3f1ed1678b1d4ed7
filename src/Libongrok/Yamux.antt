-- ===== src/Libongrok/Yamux.antt =====
-- `YamuxSession` of crates/libongrok/src/lib.rs: the task that owns a Yamux connection, and the handle
-- through which streams are opened and taken. The connection itself is the crate yamux's: what its
-- polls give comes with the steps. A caller of `open_stream` is a number, and `answers` and `received`
-- are what the callers of `open_stream` and `next_inbound` were given, the last one last.
pub mod Cases
pub mod Ledger
pub mod Inbound
pub mod Blocking
pub mod Tests
use ongrok_relay.Prelude.{
  ℕ, Option, none, some, List, [], ◌∷◌, ◌++◌, map, Bool, true, false, not, ◌||◌, ◌≡◌, ok, err,
  Error, Fallible, text, length, ltb, if◌then◌else◌,
}

-- Where the task is: in `select!`, in `poll_new_outbound` for a caller, in `inbound_tx.send`, or gone.
pub data Task (Stream : Type 0) : Type 0 where
  selecting ended : Task Stream
  opening : ℕ → Task Stream
  sending : Stream → Task Stream

-- `held` tells whether a handle is left: with the last one the channels' other ends are dropped.
pub record YamuxSession (Stream : Type 0) : Type 0 where
  pub task : Task Stream
  pub outbound : List ℕ
  pub inbound : List Stream
  pub shutdown : Bool
  pub held : Bool
  pub answers : List (ℕ × Fallible Stream)
  pub received : List (Option Stream)

-- What each of the two channels holds at most.
abbrev pub capacity : ℕ
capacity = 128

abbrev pub is_closed : Error
is_closed = text "Yamux session is closed"

module _ {Stream : Type 0} where
  abbrev pub is_running : Task Stream → Bool
  is_running ended = false
  is_running _ = true

  abbrev pub spawn : YamuxSession Stream
  spawn = record {
    task = selecting;
    outbound = [];
    inbound = [];
    shutdown = false;
    held = true;
    answers = [];
    received = [];
  }

  -- The callers of `ns` find the channel of their answer dropped.
  abbrev pub abandoned : List ℕ → List (ℕ × Fallible Stream)
  abandoned [] = []
  abandoned (n ∷ ns) = (n, err is_closed) ∷ abandoned ns

  -- The task ends: the callers whose requests it had not taken find their channel dropped.
  unfoldable pub finish : YamuxSession Stream → YamuxSession Stream
  finish s = record s { task = ended; outbound = []; answers = s.answers ++ abandoned s.outbound }

  -- `inbound_tx.send`, which waits while the channel is full and fails without a receiver.
  unfoldable pub hand_over : Stream → YamuxSession Stream → YamuxSession Stream
  unfolding finish
  hand_over x s =
      if not s.held
      then finish s
      else if ltb (length s.inbound) capacity
      then record s { task = selecting; inbound = s.inbound ++ (x ∷ []) }
      else record s { task = sending x }

  -- The branches of `select!`: what `outbound_rx.recv` gives, and then the answer to the caller.
  unfoldable pub take_request : List ℕ → YamuxSession Stream → YamuxSession Stream
  unfolding finish
  take_request [] s = finish s
  take_request (n ∷ rest) s = record s { task = opening n; outbound = rest }

  unfoldable pub answer : ℕ → Fallible Stream → YamuxSession Stream → YamuxSession Stream
  answer n result s = record s { task = selecting; answers = s.answers ++ ((n, result) ∷ []) }

  -- What `poll_next_inbound` gives.
  unfoldable pub take_inbound : Option (Fallible Stream) → YamuxSession Stream → YamuxSession Stream
  unfolding finish hand_over
  take_inbound (some (ok x)) s = hand_over x s
  take_inbound (some (err e)) s = finish s
  take_inbound none s = finish s

  -- `open_stream` up to its wait for an answer, where it does not wait for room.
  unfoldable pub open_stream : ℕ → YamuxSession Stream → Option (YamuxSession Stream)
  open_stream n s =
      if not (is_running s.task)
      then some (record s { answers = s.answers ++ ((n, err is_closed) ∷ []) })
      else if ltb (length s.outbound) capacity
      then some (record s { outbound = s.outbound ++ (n ∷ []) })
      else none

  abbrev pub receive : List Stream → YamuxSession Stream → Option (YamuxSession Stream)
  receive (x ∷ rest) s = some (record s { inbound = rest; received = s.received ++ (some x ∷ []) })
  receive [] s =
      if is_running s.task then none else some (record s { received = s.received ++ (none ∷ []) })

  -- `next_inbound`, where it does not wait.
  unfoldable pub next_inbound : YamuxSession Stream → Option (YamuxSession Stream)
  next_inbound s = receive s.inbound s

  -- `close`, which a task that is gone does not hear.
  unfoldable pub close : YamuxSession Stream → YamuxSession Stream
  close s = record s { shutdown = s.shutdown || is_running s.task }

  -- The last handle is dropped, and with it what the inbound channel still holds.
  unfoldable pub release : YamuxSession Stream → YamuxSession Stream
  release s = record s { held = false; inbound = [] }

pub data Action (Stream : Type 0) : Type 0 where
  asks : ℕ → Action Stream
  polls : Option (Fallible Stream) → Action Stream
  reads closes releases works : Action Stream

-- The steps of the task and of those who hold a handle, in any order: what may happen, and not that it
-- does, as `poll_new_outbound` may stay pending.
pub data Step {Stream : Type 0}
    : YamuxSession Stream → Action Stream → YamuxSession Stream → Type 0 where
  asked :
      {s t : YamuxSession Stream} (n : ℕ)
      → s.held ≡ true
      → open_stream n s ≡ some t
      → Step s (asks n) t
  read : {s t : YamuxSession Stream} → s.held ≡ true → next_inbound s ≡ some t → Step s reads t
  closed : (s : YamuxSession Stream) → s.held ≡ true → Step s closes (close s)
  released : (s : YamuxSession Stream) → Step s releases (release s)
  request :
      (s : YamuxSession Stream) (n : ℕ) (rest : List ℕ)
      → s.task ≡ selecting
      → s.outbound ≡ n ∷ rest
      → Step s works (take_request (n ∷ rest) s)
  no_request :
      (s : YamuxSession Stream)
      → s.task ≡ selecting
      → s.outbound ≡ []
      → s.held ≡ false
      → Step s works (take_request [] s)
  opened :
      (s : YamuxSession Stream) (n : ℕ) (result : Fallible Stream)
      → s.task ≡ opening n
      → Step s works (answer n result s)
  polled :
      (s : YamuxSession Stream) (next : Option (Fallible Stream))
      → s.task ≡ selecting
      → Step s (polls next) (take_inbound next s)
  sent : (s : YamuxSession Stream) (x : Stream) → s.task ≡ sending x → Step s works (hand_over x s)
  changed :
      (s : YamuxSession Stream)
      → s.task ≡ selecting
      → (s.shutdown || not s.held) ≡ true
      → Step s works (finish s)

-- What was done, the last one first.
pub data Run {Stream : Type 0}
    : YamuxSession Stream → List (Action Stream) → YamuxSession Stream → Type 0 where
  start : (s : YamuxSession Stream) → Run s [] s
  later :
      {s t u : YamuxSession Stream} {a : Action Stream} {done : List (Action Stream)}
      → Run s done t
      → Step t a u
      → Run s (a ∷ done) u
