-- ===== src/Server/Store/Replay.antt =====
-- The store of services in store.rs of crates/ongrok-relay-server/src against a map in memory.
use ongrok_relay.Prelude.{
  if-holds, bind-eq-ok, ℕ, ◌≡◌, refl, sym, ◌∙◌, ap, subst, List, [], ◌∷◌, Option, none, some, Text,
  text, text_eq, ok, Fallible, bind, arith, if◌then◌else◌, Result-cases, inl, inr, ◌==◌,
}
use mathlib.Core.Path.{fun_ext}
use ongrok_relay.BTree.{BTreeMap, lookup}
use ongrok_relay.Libongrok.Types.{ServiceDefinition}
use ongrok_relay.Server.Store.{
  Tables, Table, Redb, row, set_row, drop_row, put, delete, load_services,
}
use ongrok_relay.Server.Store.Rows.{
  IsBefore, IsStored, recorded, set_row-IsStored, row-set_row, row-drop_row, lookup-load_rows,
  uuid-text_eq,
}

IsBefore-drop_row : (k key : Text) (rows : Table) → IsBefore k rows → IsBefore k (drop_row key rows)
unfolding drop_row
IsBefore-drop_row k key [] b = tt
IsBefore-drop_row k key ((j, old) ∷ rows) b = ground (arith, IsBefore-drop_row k key rows b.1)

-- A write to the table of services.
pub data Change : Type 0 where
  stored : ServiceDefinition → Change
  removed : ℕ → Change

-- What a write does to a map.
abbrev pub replay : List Change → (ℕ → Option ServiceDefinition) → ℕ → Option ServiceDefinition
replay [] m k = m k
replay (stored service ∷ rest) m k =
    replay rest (λ j. if service.service_id == j then some service else m j) k
replay (removed service_id ∷ rest) m k = replay rest (λ j. if service_id == j then none else m j) k

module _ (E : Redb) where
  abbrev pub Services : Tables → Type 0
  Services db = IsStored E.service_format.from_bytes (λ s. s.service_id) E.uuid_text db.services

  abbrev changed : Change → Tables → Fallible Tables
  changed (stored service) db = put E db service
  changed (removed service_id) db = delete E db service_id

  -- Writes one after the other, until one fails.
  abbrev pub change_all : List Change → Tables → Fallible Tables
  change_all [] db = ok db
  change_all (c ∷ rest) db = bind (changed c db) (change_all rest)

  abbrev pub IsServiceTable : Table → Type 0
  IsServiceTable rows = IsStored E.service_format.from_bytes (λ s. s.service_id) E.uuid_text rows

  drop_row-IsServiceTable :
      (key : Text) (rows : Table) → IsServiceTable rows → IsServiceTable (drop_row key rows)
  unfolding drop_row
  drop_row-IsServiceTable key [] s = tt
  drop_row-IsServiceTable key ((k, old) ∷ rows) (first, before, later) =
      if-holds IsServiceTable (text_eq k key) (drop_row-IsServiceTable key rows later)
        (first, IsBefore-drop_row k key rows before, drop_row-IsServiceTable key rows later)

  -- The service under an identifier, as its row is read.
  abbrev pub view : Tables → ℕ → Option ServiceDefinition
  view db k =
      recorded E.service_format.from_bytes (λ s. s.service_id) E.uuid_text
        (row (E.uuid_text k) db.services) none

  pub record Becomes (db' : Tables) (m : ℕ → Option ServiceDefinition) : Type 0 where
    pub table : Services db'
    pub seen : (k : ℕ) → view db' k ≡ m k

  pub put-Becomes :
      (service : ServiceDefinition) (db db' : Tables)
      → Services db
      → put E db service ≡ ok db'
      → Becomes db' (λ k. if service.service_id == k then some service else view db k)
  unfolding put
  put-Becomes service db db' table done =
      elim (Result-cases (E.service_format.to_allocvec service)) [
        | inr (x, failed) ↦ absurd (ground arith)
        | inl (encoded, encodes) ↦
            let key = E.uuid_text service.service_id in
            let decodes = E.service_format.round_trip service encoded encodes in
            let kept : db'.services ≡ set_row key encoded db.services = ground arith in
            record {
              table = rw kept (
                  set_row-IsStored E.service_format.from_bytes (λ s. s.service_id) E.uuid_text key
                    encoded service db.services decodes refl table);
              seen = λ k. ground (
                arith,
                kept,
                decodes,
                row-set_row key (E.uuid_text k) encoded db.services,
                uuid-text_eq E service.service_id k,
              );
            }
      ]

  pub delete-Becomes :
      (service_id : ℕ) (db db' : Tables)
      → Services db
      → delete E db service_id ≡ ok db'
      → Becomes db' (λ k. if service_id == k then none else view db k)
  unfolding delete
  delete-Becomes service_id db db' table done =
      let key = E.uuid_text service_id in
      let kept : db'.services ≡ drop_row key db.services = ground arith in
      record {
        table = rw kept (drop_row-IsServiceTable key db.services table);
        seen = λ k. ground (
          arith,
          kept,
          row-drop_row key (E.uuid_text k) db.services,
          uuid-text_eq E service_id k,
        );
      }

  change-Becomes :
      (c : Change) (db db' : Tables)
      → Services db
      → changed c db ≡ ok db'
      → Becomes db' (replay (c ∷ []) (view db))
  change-Becomes (stored service) db db' table done = put-Becomes service db db' table done
  change-Becomes (removed service_id) db db' table done =
      delete-Becomes service_id db db' table done

  replay-cons :
      (c : Change) (rest : List Change) (m : ℕ → Option ServiceDefinition)
      → replay (c ∷ rest) m ≡ replay rest (replay (c ∷ []) m)
  replay-cons (stored service) rest m = refl
  replay-cons (removed service_id) rest m = refl

  change_all-Becomes :
      (changes : List Change) (db db' : Tables)
      → Services db
      → change_all changes db ≡ ok db'
      → Becomes db' (replay changes (view db))
  change_all-Becomes [] db db' table done =
      let same : db ≡ db' = cc done in
      subst (λ x. Becomes x (view db)) same (record { table = table; seen = λ k. refl })
  change_all-Becomes (c ∷ rest) db db' table done =
      let (next, first, others) = bind-eq-ok (changed c db) (change_all rest) done in
      let step = change-Becomes c db next table first in
      let end = change_all-Becomes rest next db' step.table others in
      record {
        table = end.table;
        seen = λ k.
            end.seen k
            ∙ ap (λ m. replay rest m k) (fun_ext step.seen)
            ∙ ap (λ m. m k) (sym (replay-cons c rest (view db)));
      }

  pub load_services-view :
      (db : Tables) (m : BTreeMap ServiceDefinition) (k : ℕ)
      → Services db
      → load_services E db ≡ ok m
      → lookup k m ≡ view db k
  unfolding load_services lookup
  load_services-view db m k table loaded =
      lookup-load_rows E.service_format.from_bytes (λ s. s.service_id) E.uuid_text E.uuid_injective
        (text "failed to decode service record") db.services [] m k table (ground arith)

  -- Services that are stored and removed, each without an error, are loaded as a map in memory has them
  -- after the same changes, whatever the order. It holds from rows that are ascending, each under the text of its service's identifier.
  pub load_services-replay :
      (changes : List Change) (db db' : Tables) (m m' : BTreeMap ServiceDefinition) (k : ℕ)
      → Services db
      → load_services E db ≡ ok m
      → change_all changes db ≡ ok db'
      → load_services E db' ≡ ok m'
      → lookup k m' ≡ replay changes (λ j. lookup j m) k
  load_services-replay changes db db' m m' k table before done after =
      let end = change_all-Becomes changes db db' table done in
      load_services-view db' m' k end.table after
      ∙ end.seen k
      ∙ ap (λ f. replay changes f k) (fun_ext (λ j. sym (load_services-view db m j table before)))
