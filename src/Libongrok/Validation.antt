-- ===== src/Libongrok/Validation.antt =====
-- `Metadata::validate` and `validate_service_name` of crates/libongrok/src/lib.rs.
pub mod Limits
use ongrok_relay.Prelude.{
  ℕ, ◌+◌, ◌≤◌, ◌≡◌, refl, ◌↔◌, Bool, true, false, ◌&&◌, ◌||◌, not, List, [], ◌∷◌, ◌++◌, Text, text,
  length, all, leb, ltb, ◌==◌, if◌then◌else◌, is_digit, is_lower, min, Result, ok, err, bind, All,
  arith, Bool-cases, inl, inr, some, Option, none, starts_with, Error,
}
use ongrok_relay.Libongrok.Types.{Metadata}

pub data ValidationError : Type 0 where
  too_many_metadata_entries : ValidationError
  invalid_metadata_key : Text → ValidationError
  metadata_value_too_long : Text → ValidationError
  metadata_too_large : ValidationError
  invalid_service_name : ValidationError

unfoldable pub validation_message : ValidationError → Error
validation_message too_many_metadata_entries = text "too many metadata entries"
validation_message (invalid_metadata_key key) = text "invalid metadata key: " ++ key
validation_message (metadata_value_too_long key) = text "metadata value too long for key: " ++ key
validation_message metadata_too_large = text "metadata exceeds total size limit"
validation_message invalid_service_name = text "service name is invalid"

abbrev pub max_entries : ℕ
max_entries = 32

abbrev pub max_key_len : ℕ
max_key_len = 64

abbrev pub max_value_len : ℕ
max_value_len = 256

abbrev pub max_total_bytes : ℕ
max_total_bytes = 4096

abbrev pub usize_max : ℕ
usize_max = 18446744073709551615

abbrev pub saturating_add : ℕ → ℕ → ℕ
saturating_add a b = min (a + b) usize_max

abbrev pub is_key_byte : ℕ → Bool
is_key_byte b = is_lower b || is_digit b || b == b'-' || b == b'_' || b == b'.'

abbrev is_empty : Text → Bool
is_empty [] = true
is_empty (c ∷ s) = false

unfoldable pub is_valid_key : Text → Bool
is_valid_key key = not (is_empty key) && leb (length key) max_key_len && all is_key_byte key

-- One round of the loop over the entries, and the running total that it leaves.
unfoldable pub validate_entry : ℕ → Text → Text → Result ValidationError ℕ
validate_entry total key value =
    if not (is_valid_key key)
    then err (invalid_metadata_key key)
    else if ltb max_value_len (length value)
    then err (metadata_value_too_long key)
    else ok (saturating_add (saturating_add total (length key)) (length value))

unfoldable pub validate_entries : ℕ → List (Text × Text) → Result ValidationError ℕ
validate_entries total [] = ok total
validate_entries total ((key, value) ∷ rest) =
    bind (validate_entry total key value) (λ t. validate_entries t rest)

unfoldable pub validate : Metadata → Result ValidationError (Unit {0})
unfolding validate_entries validate_entry is_valid_key
validate m =
    if ltb max_entries (length m.entries)
    then err too_many_metadata_entries
    else bind (validate_entries 0 m.entries)
        (λ total. if ltb max_total_bytes total then err metadata_too_large else ok tt)

abbrev pub is_name_byte : ℕ → Bool
is_name_byte b = is_lower b || is_digit b || b == b'-'

abbrev pub get_last? : Text → Option ℕ
get_last? [] = none
get_last? (c ∷ []) = some c
get_last? (c ∷ d ∷ s) = get_last? (d ∷ s)

abbrev pub is_byte_at : ℕ → Option ℕ → Bool
is_byte_at b none = false
is_byte_at b (some c) = c == b

abbrev pub head? : Text → Option ℕ
head? [] = none
head? (c ∷ s) = some c

-- `starts_with('-')` and `ends_with('-')` look at the first and the last byte.
unfoldable pub is_valid_name : Text → Bool
is_valid_name name =
    not (is_empty name)
    && leb (length name) 63
    && all is_name_byte name
    && not (is_byte_at b'-' (head? name))
    && not (is_byte_at b'-' (get_last? name))

unfoldable pub validate_service_name : Text → Result ValidationError (Unit {0})
unfolding is_valid_name
validate_service_name name = if is_valid_name name then ok tt else err invalid_service_name
