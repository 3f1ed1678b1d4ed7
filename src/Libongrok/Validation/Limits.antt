-- ===== src/Libongrok/Validation/Limits.antt =====
-- The inputs that `Metadata::validate` and `validate_service_name` accept, said without their code.
use ongrok_relay.Prelude.{
  ℕ, ◌+◌, ◌≤◌, ◌≡◌, refl, ◌↔◌, ◌≢◌, ◌⊎◌, true, false, List, [], ◌∷◌, Text, length, All, all_iff,
  and-eq-true, ok, bind-eq-ok, Result-cases, arith, Bool-cases, inl, inr, Option, some, none, min,
  ◌∙◌,
}
use ongrok_relay.Libongrok.Types.{Metadata}
use ongrok_relay.Libongrok.Validation.{
  is_key_byte, is_name_byte, is_valid_key, validate_entry, validate_entries, validate,
  validate_service_name, usize_max, head?, get_last?, is_byte_at,
}

abbrev pub IsLower : ℕ → Type 0
IsLower b = (b'a' ≤ b) × (b ≤ b'z')

abbrev pub IsDigit : ℕ → Type 0
IsDigit b = (b'0' ≤ b) × (b ≤ b'9')

abbrev pub IsKeyByte : ℕ → Type 0
IsKeyByte b = IsLower b ⊎ IsDigit b ⊎ (b ≡ b'-') ⊎ (b ≡ b'_') ⊎ (b ≡ b'.')

abbrev pub IsNameByte : ℕ → Type 0
IsNameByte b = IsLower b ⊎ IsDigit b ⊎ (b ≡ b'-')

is_key_byte_iff : (b : ℕ) → (is_key_byte b ≡ true) ↔ IsKeyByte b
is_key_byte_iff b = (λ h. ground arith, λ h. ground arith)

is_name_byte_iff : (b : ℕ) → (is_name_byte b ≡ true) ↔ IsNameByte b
is_name_byte_iff b = (λ h. ground arith, λ h. ground arith)

abbrev pub IsKey : Text → Type 0
IsKey key = (1 ≤ length key) × (length key ≤ 64) × All IsKeyByte key

abbrev pub IsEntry : Text × Text → Type 0
IsEntry e = IsKey e.0 × (length e.1 ≤ 256)

abbrev pub total_bytes : List (Text × Text) → ℕ
total_bytes [] = 0
total_bytes (e ∷ es) = length e.0 + length e.1 + total_bytes es

pub record IsWithinLimits (m : Metadata) : Type 0 where
  pub count : length m.entries ≤ 32
  pub entries_valid : All IsEntry m.entries
  pub total : total_bytes m.entries ≤ 4096

is_valid_key_iff : (key : Text) → (is_valid_key key ≡ true) ↔ IsKey key
unfolding is_valid_key
is_valid_key_iff [] = (λ h. cc, λ h. absurd (omega arith))
is_valid_key_iff (c ∷ s) =
    let (to, from) = all_iff is_key_byte IsKeyByte (c ∷ s) is_key_byte_iff in
    (λ h. (omega arith, ground arith, to (and-eq-true _ _ h).1), λ h. ground (arith, from h.2))

validate_entry-eq-ok :
    (total : ℕ) (key value : Text) (t : ℕ)
    → validate_entry total key value ≡ ok t
    → IsEntry (key, value) × (t ≡ min (total + length key + length value) usize_max)
unfolding validate_entry
validate_entry-eq-ok total key value t h = elim (Bool-cases (is_valid_key key)) [
  | inl valid ↦ (((is_valid_key_iff key).0 valid, ground arith), ground arith)
  | inr bad ↦ absurd (ground arith)
]

validate_entry_of :
    (total : ℕ) (key value : Text)
    → IsEntry (key, value)
    → validate_entry total key value ≡ ok (min (total + length key + length value) usize_max)
unfolding validate_entry
validate_entry_of total key value h = ground (arith, (is_valid_key_iff key).1 h.0)

-- The loop accepts exactly the entries within the limits, and adds up their bytes.
validate_entries-eq-ok :
    (es : List (Text × Text)) (total t : ℕ)
    → validate_entries total es ≡ ok t
    → total ≤ usize_max
    → All IsEntry es × (t ≡ min (total + total_bytes es) usize_max)
unfolding validate_entries
validate_entries-eq-ok [] total t h b = (tt, ground arith)
validate_entries-eq-ok ((key, value) ∷ es) total t h b =
    let (t', first, rest) = bind-eq-ok (validate_entry total key value) _ h in
    let (entry, same) = validate_entry-eq-ok total key value t' first in
    let (entries, sum) = validate_entries-eq-ok es t' t rest (omega arith) in
    ((entry, entries), omega arith)

validate_entries_of :
    (es : List (Text × Text)) (total : ℕ)
    → All IsEntry es
    → total ≤ usize_max
    → validate_entries total es ≡ ok (min (total + total_bytes es) usize_max)
unfolding validate_entries
validate_entries_of [] total h b = ground arith
validate_entries_of ((key, value) ∷ es) total h b =
    rw (validate_entry_of total key value h.0)
      (validate_entries_of es _ h.1 (omega arith) ∙ ground arith)

validate_sound : (m : Metadata) → validate m ≡ ok tt → IsWithinLimits m
unfolding validate
validate_sound m h = elim (Result-cases (validate_entries 0 m.entries)) [
  | inl (t, e) ↦
      let (entries, sum) = validate_entries-eq-ok m.entries 0 t e (omega arith) in
      record { count = ground arith; entries_valid = entries; total = ground arith }
  | inr (x, e) ↦ absurd (ground arith)
]

validate_complete : (m : Metadata) → IsWithinLimits m → validate m ≡ ok tt
unfolding validate
validate_complete m w =
    ground (arith, validate_entries_of m.entries 0 w.entries_valid (omega arith))

-- `Metadata::validate` accepts exactly the metadata with at most 32 entries and 4096 bytes in all,
-- whose keys have 1 to 64 bytes of `a-z 0-9 - _ .` and whose values have at most 256.
pub validate_iff : (m : Metadata) → (validate m ≡ ok tt) ↔ IsWithinLimits m
validate_iff m = (validate_sound m, λ w. validate_complete m w)

-- The names that `validate_service_name` accepts: a DNS label in lower case.
pub record IsServiceName (name : Text) : Type 0 where
  pub some_bytes : 1 ≤ length name
  pub at_most_63 : length name ≤ 63
  pub bytes : All IsNameByte name
  pub first_byte : head? name ≢ some b'-'
  pub last_byte : get_last? name ≢ some b'-'

is_byte_at_iff : (b : ℕ) (o : Option ℕ) → (is_byte_at b o ≡ false) ↔ (o ≢ some b)
is_byte_at_iff b none = (λ _ e. cc, λ _. refl)
is_byte_at_iff b (some c) = ((λ h e. ground arith), λ h. ground arith)

-- `validate_service_name` accepts exactly the names of 1 to 63 bytes of `a-z 0-9 -` that neither begin
-- nor end with a dash.
pub validate_service_name_iff :
    (name : Text) → (validate_service_name name ≡ ok tt) ↔ IsServiceName name
unfolding validate_service_name
validate_service_name_iff [] = (λ h. cc, λ w. absurd (omega (arith, w.some_bytes)))
validate_service_name_iff (c ∷ s) =
    let (to, from) = all_iff is_name_byte IsNameByte (c ∷ s) is_name_byte_iff in
    let (first_to, first_from) = is_byte_at_iff b'-' (head? (c ∷ s)) in
    let (last_to, last_from) = is_byte_at_iff b'-' (get_last? (c ∷ s)) in
    (
      λ h. record {
        some_bytes = omega arith;
        at_most_63 = ground arith;
        bytes = to (ground arith);
        first_byte = first_to (ground arith);
        last_byte = last_to (ground arith);
      },
      λ w. ground (arith, from w.bytes, first_from w.first_byte, last_from w.last_byte),
    )
