-- ===== src/Server/Store.antt =====
-- store.rs of crates/ongrok-relay-server/src: the tables of the control plane in redb. The engine and
-- postcard are parameters: which actions of the engine succeed, and how a record is written. A write
-- transaction that does not commit leaves the tables as they were.
pub mod History
pub mod Rows
pub mod Replay
pub mod Tokens
pub mod Retention
pub mod Tests
use ongrok_relay.Prelude.{
  ℕ, zero, suc, ◌+◌, ◌/◌, ◌%◌, ◌≡◌, Bool, true, false, not, List, [], ◌∷◌, ◌++◌, Option, none, some,
  Text, text, text_eq, starts_with, take, ltb, ◌==◌, ◌||◌, ◌&&◌, if◌then◌else◌, Result, ok, err,
  Error, Fallible, bind, context,
}
use ongrok_relay.Prelude.Int.{ℤ, pos, negsuc, saturating_sub, ltz}
use ongrok_relay.BTree.{BTreeMap, insert}
use ongrok_relay.Libongrok.Types.{ServiceDefinition, NodeRecord, NodeMetric, ControlEvent}
use ongrok_relay.Server.State.{TokenState, StoreOps}

-- `postcard::to_allocvec` and `postcard::from_bytes` at one type: what is written is read back.
pub record Format (A : Type 0) : Type 0 where
  pub to_allocvec : A → Fallible Text
  pub from_bytes : Text → Fallible A
  pub round_trip : (a : A) (b : Text) → to_allocvec a ≡ ok b → from_bytes b ≡ ok a

-- A table: its rows, ascending in their keys as bytes.
abbrev pub Table : Type 0
Table = List (Text × Text)

pub record Tables : Type 0 where
  pub services : Table
  pub nodes : Table
  pub metrics : Table
  pub tokens : Table
  pub events : Table

pub data Action : Type 0 where
  begin_read begin_write open_table get_row write_row remove_row iterate commit : Action

-- The engine, the formats and the text of a UUID, which differs for different ones.
pub record Redb : Type 0 where
  pub succeeds : Action → Tables → Bool
  pub service_format : Format ServiceDefinition
  pub node_format : Format NodeRecord
  pub metric_format : Format NodeMetric
  pub token_format : Format TokenState
  pub event_format : Format ControlEvent
  pub uuid_text : ℕ → Text
  pub uuid_injective : (i j : ℕ) → uuid_text i ≡ uuid_text j → i ≡ j

-- The order of `&str`.
unfoldable pub text_lt : Text → Text → Bool
text_lt s [] = false
text_lt [] (b ∷ t) = true
text_lt (a ∷ s) (b ∷ t) = ltb a b || (a == b && text_lt s t)

unfoldable pub row : Text → Table → Option Text
row key [] = none
row key ((k, value) ∷ rows) = if text_eq k key then some value else row key rows

unfoldable pub set_row : Text → Text → Table → Table
set_row key value [] = (key, value) ∷ []
set_row key value ((k, old) ∷ rows) =
    if text_eq k key
    then (key, value) ∷ rows
    else if text_lt key k
    then (key, value) ∷ (k, old) ∷ rows
    else (k, old) ∷ set_row key value rows

unfoldable pub drop_row : Text → Table → Table
drop_row key [] = []
drop_row key ((k, value) ∷ rows) =
    if text_eq k key then drop_row key rows else (k, value) ∷ drop_row key rows

unfoldable pub drop_rows : List Text → Table → Table
drop_rows [] rows = rows
drop_rows (key ∷ keys) rows = drop_rows keys (drop_row key rows)

-- `{:020}`, of a number below 10 ^ 20.
unfoldable pub fixed_digits : ℕ → ℕ → Text
fixed_digits zero n = []
fixed_digits (suc count) n = fixed_digits count (n / 10) ++ (b'0' + n % 10) ∷ []

abbrev pub padded : ℤ → Text
padded (pos n) = fixed_digits 20 n
padded (negsuc n) = b'-' ∷ fixed_digits 19 (suc n)

abbrev pub token_state_key : Text
token_state_key = text "state"

abbrev pub metric_retention_ms : ℕ
metric_retention_ms = 259200000

-- `.max(0)`.
abbrev pub at_least_zero : ℤ → ℤ
at_least_zero (pos n) = pos n
at_least_zero (negsuc n) = pos 0

abbrev pub is_old : ℤ → Fallible NodeMetric → Bool
is_old cutoff (ok stored) = ltz stored.recorded_at_unix_ms cutoff
is_old cutoff (err e) = false

-- The keys of the metrics that are decoded and older than the cutoff.
unfoldable pub expired : (Text → Fallible NodeMetric) → ℤ → Table → List Text
expired decode cutoff [] = []
expired decode cutoff ((key, value) ∷ rows) =
    if is_old cutoff (decode value)
    then key ∷ expired decode cutoff rows
    else expired decode cutoff rows

-- `sort_by_key` on the reversed time, which is stable.
unfoldable pub place : ControlEvent → List ControlEvent → List ControlEvent
place event [] = event ∷ []
place event (next ∷ later) =
    if ltz event.occurred_at_unix_ms next.occurred_at_unix_ms
    then next ∷ place event later
    else event ∷ next ∷ later

unfoldable pub newest_first : List ControlEvent → List ControlEvent
newest_first [] = []
newest_first (event ∷ events) = place event (newest_first events)

unfoldable pub decode_all : {A : Type 0} → (Text → Fallible A) → Error → Table → Fallible (List A)
decode_all decode message [] = ok []
decode_all decode message ((key, value) ∷ rows) =
    bind (context (decode value) message)
      (λ a. bind (decode_all decode message rows) (λ later. ok (a ∷ later)))

-- The records in a map by their identifiers.
unfoldable pub load_rows :
    {A : Type 0}
    → (Text → Fallible A)
    → (A → ℕ)
    → Error
    → Table
    → BTreeMap A
    → Fallible (BTreeMap A)
load_rows decode id message [] loaded = ok loaded
load_rows decode id message ((key, value) ∷ rows) loaded =
    bind (context (decode value) message)
      (λ a. load_rows decode id message rows (insert (id a) a loaded))

abbrev pub of_prefix : Text → Table → Table
of_prefix prefix [] = []
of_prefix prefix ((key, value) ∷ rows) =
    if starts_with key prefix then (key, value) ∷ of_prefix prefix rows else of_prefix prefix rows

module _ (E : Redb) where
  abbrev attempt_action : Action → Tables → Error → Fallible (Unit {0})
  attempt_action action db message = if E.succeeds action db then ok tt else err message

  -- A write transaction: `change` gives the tables that it commits.
  abbrev pub transact :
      Tables → (begun opened committed : Error) → Fallible Tables → Fallible Tables
  transact db begun opened committed change =
      bind (attempt_action Action.begin_write db begun) (λ _.
        bind (attempt_action Action.open_table db opened) (λ _.
          bind change (λ db'. bind (attempt_action Action.commit db' committed) (λ _. ok db'))))

  abbrev pub acted : Action → Tables → Error → Tables → Fallible Tables
  acted action db message db' = bind (attempt_action action db message) (λ _. ok db')

  abbrev pub reading : {A : Type 0} → Tables → (begun opened : Error) → Fallible A → Fallible A
  reading db begun opened result =
      bind (attempt_action Action.begin_read db begun)
        (λ _. bind (attempt_action Action.open_table db opened) (λ _. result))

  abbrev pub iterated : {A : Type 0} → Tables → Error → Fallible A → Fallible A
  iterated db message result = bind (attempt_action Action.iterate db message) (λ _. result)

  -- `Database::create` is a parameter, by the tables that the file has.
  unfoldable pub open_store : Text → Fallible Tables → Fallible Tables
  open_store path created = bind (context created (text "failed to open database " ++ path)) (λ db.
      bind (attempt_action Action.begin_write db (text "failed to begin database transaction"))
        (λ _. bind (open_tables db) (λ _.
          bind (attempt_action Action.commit db (text "failed to initialize database"))
            (λ _. ok db))))
    where
      open_tables : Tables → Fallible (Unit {0})
      open_tables db =
          bind (attempt_action Action.open_table db (text "failed to open services table")) (λ _.
            bind (attempt_action Action.open_table db (text "failed to open nodes table")) (λ _.
              bind (attempt_action Action.open_table db (text "failed to open metrics table")) (λ _.
                bind (attempt_action Action.open_table db (text "failed to open tokens table"))
                  (λ _. attempt_action Action.open_table db (text "failed to open events table")))))

  unfoldable pub put_tokens : Tables → TokenState → Fallible Tables
  put_tokens db tokens =
      bind (context (E.token_format.to_allocvec tokens) (text "failed to encode token state"))
        (λ encoded.
          transact db (text "failed to begin token write transaction")
            (text "failed to open token table") (text "failed to commit token state")
            (acted Action.write_row db (text "failed to persist token state")
              (record db { tokens = set_row token_state_key encoded db.tokens })))

  abbrev stored_tokens :
      Tables → (admin_hash user_hash : Text) → Option Text → Fallible (TokenState × Tables)
  stored_tokens db admin_hash user_hash (some value) =
      bind (context (E.token_format.from_bytes value) (text "failed to decode token state"))
        (λ tokens. ok (tokens, db))
  stored_tokens db admin_hash user_hash none =
      let tokens : TokenState = record {
        admin_hash = some admin_hash;
        user_hash = some user_hash;
      } in
      bind (put_tokens db tokens) (λ db'. ok (tokens, db'))

  unfoldable pub load_or_initialize_tokens :
      Tables → (admin_hash user_hash : Text) → Fallible (TokenState × Tables)
  load_or_initialize_tokens db admin_hash user_hash =
      reading db (text "failed to begin token read transaction") (text "failed to open token table")
        (bind (attempt_action Action.get_row db (text "failed to read token state"))
          (λ _. stored_tokens db admin_hash user_hash (row token_state_key db.tokens)))

  unfoldable pub load_services : Tables → Fallible (BTreeMap ServiceDefinition)
  load_services db =
      reading db (text "failed to begin database read") (text "failed to open services table") (
        iterated db (text "failed to iterate services") (
          load_rows E.service_format.from_bytes (λ s. s.service_id)
            (text "failed to decode service record") db.services []))

  unfoldable pub put : Tables → ServiceDefinition → Fallible Tables
  put db service =
      bind (context (E.service_format.to_allocvec service) (text "failed to encode service record"))
        (λ encoded.
          transact db (text "failed to begin database write") (text "failed to open services table")
            (text "failed to commit service")
            (acted Action.write_row db (text "failed to persist service") (record db {
              services = set_row (E.uuid_text service.service_id) encoded db.services;
            })))

  unfoldable pub delete : Tables → ℕ → Fallible Tables
  delete db service_id =
      transact db (text "failed to begin database write") (text "failed to open services table")
        (text "failed to commit service removal")
        (acted Action.remove_row db (text "failed to remove service")
          (record db { services = drop_row (E.uuid_text service_id) db.services }))
