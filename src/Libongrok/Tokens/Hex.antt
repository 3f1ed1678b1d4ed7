-- ===== src/Libongrok/Tokens/Hex.antt =====
-- The hexadecimal text of a token in crates/libongrok/src/lib.rs, and how it is read back.
use ongrok_relay.Prelude.{
  ℕ, zero, suc, ◌+◌, ◌-◌, ◌*◌, ◌/◌, ◌%◌, ◌<◌, ◌≡◌, refl, sym, ap, ◌∙◌, Bool, true, false, [], ◌∷◌,
  Text, text, All, arith, ltb, ◌==◌, if◌then◌else◌, drop,
}
use mathlib.Core.Path.{ap₂}
use ongrok_relay.Libongrok.Types.{TokenKind, admin, user}
use ongrok_relay.Libongrok.Tokens.{get_or, hex_digit, hex_encode, generate_token}

abbrev pub hex_value : ℕ → ℕ
hex_value c = if ltb c b'a' then c - b'0' else c - b'a' + 10

abbrev pub hex_decode : Text → Text
hex_decode [] = []
hex_decode (a ∷ []) = []
hex_decode (a ∷ b ∷ s) = (hex_value a * 16 + hex_value b) ∷ hex_decode s

-- Whether each digit below a number is read back.
digits_round_trip : ℕ → Bool
digits_round_trip zero = true
digits_round_trip (suc digit) =
    if hex_value (hex_digit digit) == digit then digits_round_trip digit else false

hex_value-hex_digit :
    (count digit : ℕ)
    → digits_round_trip count ≡ true
    → digit < count
    → hex_value (hex_digit digit) ≡ digit
unfolding digits_round_trip
hex_value-hex_digit zero digit tested below = absurd (omega arith)
hex_value-hex_digit (suc count) digit tested below = ground (arith, hex_value-hex_digit count digit)

sixteen_digits : digits_round_trip 16 ≡ true
unfolding digits_round_trip hex_digit
sixteen_digits = refl

byte_of_digits :
    (b : ℕ) → b < 256 → hex_value (hex_digit (b / 16)) * 16 + hex_value (hex_digit (b % 16)) ≡ b
byte_of_digits b below =
    rw
      (
        hex_value-hex_digit 16 (b / 16) sixteen_digits (omega arith),
        hex_value-hex_digit 16 (b % 16) sixteen_digits (omega arith),
      )
      (omega arith)

abbrev pub IsByte : ℕ → Type 0
IsByte b = b < 256

hex_decode-hex_encode : (raw : Text) → All IsByte raw → hex_decode (hex_encode raw) ≡ raw
unfolding hex_encode
hex_decode-hex_encode [] h = refl
hex_decode-hex_encode (b ∷ raw) h =
    ap₂ (λ (x : ℕ) (xs : Text). x ∷ xs) (byte_of_digits b h.0) (hex_decode-hex_encode raw h.1)

hex_encode-injective :
    (raw raw' : Text)
    → All IsByte raw
    → All IsByte raw'
    → hex_encode raw ≡ hex_encode raw'
    → raw ≡ raw'
hex_encode-injective raw raw' h h' e =
    sym (hex_decode-hex_encode raw h) ∙ ap hex_decode e ∙ hex_decode-hex_encode raw' h'

-- Two tokens that are the same text are of one kind and hold the same random bytes.
pub generate_token-injective :
    (blake3 : Text → Text) (k l : TokenKind) (raw raw' : Text)
    → All IsByte raw
    → All IsByte raw'
    → (generate_token blake3 k raw).0 ≡ (generate_token blake3 l raw').0
    → (k ≡ l) × (raw ≡ raw')
unfolding generate_token text
generate_token-injective blake3 admin admin raw raw' h h' e =
    (refl, hex_encode-injective raw raw' h h' (ap (drop 13) e))
generate_token-injective blake3 user user raw raw' h h' e =
    (refl, hex_encode-injective raw raw' h h' (ap (drop 12) e))
generate_token-injective blake3 admin user raw raw' h h' e =
    absurd (omega (arith, ap (λ t. get_or t 7 0) e))
generate_token-injective blake3 user admin raw raw' h h' e =
    absurd (omega (arith, ap (λ t. get_or t 7 0) e))
