-- ===== src/Server/Store/Rows.antt =====
-- The services that a restarted server loads, from store.rs of crates/ongrok-relay-server/src.
use ongrok_relay.Prelude.{
  ℕ, ◌≡◌, refl, sym, ◌∙◌, ap, subst, true, false, [], ◌∷◌, Option, none, some, Text, text, text_eq,
  text_eq→eq, eq→text_eq, ok, err, Error, Fallible, arith, if◌then◌else◌, Result-cases, Bool-cases,
  inl, inr, ◌==◌,
}
use ongrok_relay.BTree.{BTreeMap, lookup, insert}
use ongrok_relay.BTree.Lookup.{lookup-insert}
use ongrok_relay.Libongrok.Types.{ServiceDefinition}
use ongrok_relay.Server.Store.{
  Tables, Table, Redb, row, set_row, drop_row, text_lt, load_rows, put, load_services,
}

text_eq_meet : (s t u : Text) → text_eq s u ≡ true → text_eq t u ≡ true → text_eq s t ≡ true
text_eq_meet s t u a b = eq→text_eq s t (text_eq→eq s u a ∙ sym (text_eq→eq t u b))

pub row-set_row :
    (key other value : Text) (rows : Table)
    → row other (set_row key value rows)
      ≡ (if text_eq key other then some value else row other rows)
unfolding row set_row
row-set_row key other value [] = refl
row-set_row key other value ((k, old) ∷ rows) = elim (Bool-cases (text_eq k key)) [
  | inl same ↦ let e = text_eq→eq k key same in ground (arith, row-set_row key other value rows)
  | inr differs ↦ ground (arith, row-set_row key other value rows, text_eq_meet k key other)
]

pub row-drop_row :
    (key other : Text) (rows : Table)
    → row other (drop_row key rows) ≡ (if text_eq key other then none else row other rows)
unfolding row drop_row
row-drop_row key other [] = ground arith
row-drop_row key other ((k, old) ∷ rows) = elim (Bool-cases (text_eq k key)) [
  | inl same ↦ let e = text_eq→eq k key same in ground (arith, row-drop_row key other rows)
  | inr differs ↦ ground (arith, row-drop_row key other rows, text_eq_meet k key other)
]

text_lt_irrefl : (s : Text) → text_lt s s ≡ false
unfolding text_lt
text_lt_irrefl [] = refl
text_lt_irrefl (c ∷ s) = ground (arith, text_lt_irrefl s)

text_lt_trans : (s t u : Text) → text_lt s t ≡ true → text_lt t u ≡ true → text_lt s u ≡ true
unfolding text_lt
text_lt_trans s t [] h k = ground arith
text_lt_trans s [] (c ∷ u) h k = absurd (ground arith)
text_lt_trans [] (b ∷ t) (c ∷ u) h k = refl
text_lt_trans (a ∷ s) (b ∷ t) (c ∷ u) h k = ground (arith, text_lt_trans s t u)

text_lt_total : (s t : Text) → text_eq s t ≡ false → text_lt t s ≡ false → text_lt s t ≡ true
unfolding text_lt text_eq
text_lt_total [] [] h k = ground arith
text_lt_total [] (b ∷ t) h k = refl
text_lt_total (a ∷ s) [] h k = ground arith
text_lt_total (a ∷ s) (b ∷ t) h k = ground (arith, text_lt_total s t)

-- A key before those of the rows.
abbrev pub IsBefore : Text → Table → Type 0
IsBefore key [] = Unit
IsBefore key ((k, value) ∷ rows) = (text_lt key k ≡ true) × IsBefore key rows

IsBefore-row : (key : Text) (rows : Table) → IsBefore key rows → row key rows ≡ none
unfolding row
IsBefore-row key [] h = refl
IsBefore-row key ((k, value) ∷ rows) h = elim (Bool-cases (text_eq k key)) [
  | inl same ↦ let e = text_eq→eq k key same in absurd (ground (arith, text_lt_irrefl key))
  | inr differs ↦ ground (arith, IsBefore-row key rows h.1)
]

IsBefore-trans :
    (key k : Text) (rows : Table) → text_lt key k ≡ true → IsBefore k rows → IsBefore key rows
IsBefore-trans key k [] h b = tt
IsBefore-trans key k ((j, value) ∷ rows) h b =
    (text_lt_trans key k j h b.0, IsBefore-trans key k rows h b.1)

IsBefore-set_row :
    (k key value : Text) (rows : Table)
    → text_lt k key ≡ true
    → IsBefore k rows
    → IsBefore k (set_row key value rows)
unfolding set_row
IsBefore-set_row k key value [] h b = (h, tt)
IsBefore-set_row k key value ((j, old) ∷ rows) h b =
    ground (arith, IsBefore-set_row k key value rows h b.1)

module _ {A : Type 0} (decode : Text → Fallible A) (id : A → ℕ) (uuid_text : ℕ → Text) where
  -- Rows that can be loaded: each is under the text of its record's identifier, in ascending order.
  abbrev pub IsStored : Table → Type 0
  IsStored [] = Unit
  IsStored ((key, value) ∷ rows) =
      ((a : A) × (decode value ≡ ok a) × (uuid_text (id a) ≡ key))
      × IsBefore key rows
      × IsStored rows

  -- The record of a row, if there is one.
  abbrev pub recorded : Option Text → Option A → Option A
  recorded none otherwise = otherwise
  recorded (some value) otherwise = read (decode value)
    where
      read : Fallible A → Option A
      read (ok a) = some a
      read (err e) = none

  module _ (injective : (i j : ℕ) → uuid_text i ≡ uuid_text j → i ≡ j) where
    pub lookup-load_rows :
        (message : Error) (rows : Table) (loaded m : BTreeMap A) (k : ℕ)
        → IsStored rows
        → load_rows decode id message rows loaded ≡ ok m
        → lookup k m ≡ recorded (row (uuid_text k) rows) (lookup k loaded)
    unfolding load_rows row
    lookup-load_rows message [] loaded m k stored e = ground arith
    lookup-load_rows message ((key, value) ∷ rows) loaded m k ((a, decoded, keyed), before, stored)
          e =
        let unique = IsBefore-row key rows before in
        let later : load_rows decode id message rows (insert (id a) a loaded) ≡ ok m =
          ground arith in
        let rest = lookup-load_rows message rows (insert (id a) a loaded) m k stored later in
        let inserted = lookup-insert (id a) k a loaded in
        elim (Bool-cases (text_eq key (uuid_text k))) [
          | inl same ↦
              let e' = text_eq→eq key (uuid_text k) same in
              let i = injective (id a) k (keyed ∙ e') in ground arith
          | inr differs ↦
              let apart : (id a == k) ≡ false = elim (Bool-cases (id a == k)) [
                | inr differ ↦ differ
                | inl alike ↦
                    let i : id a ≡ k = ground arith in
                    let j = eq→text_eq key (uuid_text k) (sym keyed ∙ ap uuid_text i) in
                    absurd (ground arith)
              ] in
              ground arith
        ]

  pub set_row-IsStored :
      (key value : Text) (a : A) (rows : Table)
      → decode value ≡ ok a
      → uuid_text (id a) ≡ key
      → IsStored rows
      → IsStored (set_row key value rows)
  unfolding set_row row
  set_row-IsStored key value a [] decoded keyed stored = ((a, decoded, keyed), tt, tt)
  set_row-IsStored key value a ((k, old) ∷ rows) decoded keyed (first, before, stored) =
      elim (Bool-cases (text_eq k key)) [
        | inl same ↦
            let e = text_eq→eq k key same in
            rw (same, set_row) ((a, decoded, keyed), subst (λ x. IsBefore x rows) e before, stored)
        | inr differs ↦ elim (Bool-cases (text_lt key k)) [
          | inl lower ↦
              rw (differs, lower, set_row)
                (
                  (a, decoded, keyed),
                  (lower, IsBefore-trans key k rows lower before),
                  (first, before, stored),
                )
          | inr higher ↦
              rw (differs, higher, set_row)
                (
                  first,
                  IsBefore-set_row k key value rows (text_lt_total k key differs higher) before,
                  set_row-IsStored key value a rows decoded keyed stored,
                )
        ]
      ]

module _ (E : Redb) where
  pub uuid-text_eq : (i j : ℕ) → text_eq (E.uuid_text i) (E.uuid_text j) ≡ (i == j)
  uuid-text_eq i j = elim (Bool-cases (i == j)) [
    | inl same ↦
        let e : i ≡ j = ground arith in
        ground (arith, eq→text_eq (E.uuid_text i) (E.uuid_text j) (ap E.uuid_text e))
    | inr differ ↦ elim (Bool-cases (text_eq (E.uuid_text i) (E.uuid_text j))) [
      | inl equal ↦
          let e = E.uuid_injective i j (text_eq→eq (E.uuid_text i) (E.uuid_text j) equal) in
          absurd (ground arith)
      | inr unequal ↦ ground arith
    ]
  ]

  -- A service that was stored is there when the services are loaded again, under its identifier; the
  -- others are loaded as before. It holds where the rows are ascending and each is under the text of its
  -- service's identifier, and both loads succeed.
  pub load_services-put :
      (db db' : Tables) (service : ServiceDefinition) (m m' : BTreeMap ServiceDefinition) (k : ℕ)
      → IsStored E.service_format.from_bytes (λ s. s.service_id) E.uuid_text db.services
      → put E db service ≡ ok db'
      → load_services E db ≡ ok m
      → load_services E db' ≡ ok m'
      → lookup k m' ≡ (if service.service_id == k then some service else lookup k m)
  unfolding put load_services
  load_services-put db db' service m m' k stored done before after =
      elim (Result-cases (E.service_format.to_allocvec service)) [
        | inr (x, failed) ↦ absurd (ground arith)
        | inl (encoded, encodes) ↦
            let key = E.uuid_text service.service_id in
            let decode = E.service_format.from_bytes in
            let id = λ (s : ServiceDefinition). s.service_id in
            let message = text "failed to decode service record" in
            let decodes = E.service_format.round_trip service encoded encodes in
            let kept : db'.services ≡ set_row key encoded db.services = ground arith in
            let stored' : IsStored decode id E.uuid_text db'.services = rw kept (
              set_row-IsStored decode id E.uuid_text key encoded service db.services decodes refl
                stored) in
            let old : load_rows decode id message db.services [] ≡ ok m = ground arith in
            let new : load_rows decode id message db'.services [] ≡ ok m' = ground arith in
            let at_old =
              lookup-load_rows decode id E.uuid_text E.uuid_injective message db.services [] m k
                stored old in
            let at_new =
              lookup-load_rows decode id E.uuid_text E.uuid_injective message db'.services [] m' k
                stored' new in
            let changed = row-set_row key (E.uuid_text k) encoded db.services in
            let ids = uuid-text_eq service.service_id k in ground arith
      ]
