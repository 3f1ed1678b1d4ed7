-- ===== src/Libongrok/Tokens.antt =====
-- `generate_token`, `hash_token` and `hex_encode` of crates/libongrok/src/lib.rs. The 32 random
-- bytes of a token are an argument, and blake3 is a parameter.
pub mod Hex
use ongrok_relay.Prelude.{ℕ, zero, suc, ◌/◌, ◌%◌, List, [], ◌∷◌, ◌++◌, Text, text}
use ongrok_relay.Libongrok.Types.{TokenKind, admin, user}

abbrev pub get_or : Text → ℕ → ℕ → ℕ
get_or [] i d = d
get_or (x ∷ xs) zero d = x
get_or (x ∷ xs) (suc i) d = get_or xs i d

-- The table `HEX`, at an index below 16.
unfoldable pub hex_digit : ℕ → ℕ
unfolding text
hex_digit i = get_or (text "0123456789abcdef") i 0

-- `b >> 4` and `b & 0xf`.
unfoldable pub hex_encode : Text → Text
unfolding hex_digit
hex_encode [] = []
hex_encode (b ∷ bytes) = hex_digit (b / 16) ∷ hex_digit (b % 16) ∷ hex_encode bytes

unfoldable pub prefix : TokenKind → Text
unfolding text
prefix admin = text "admin"
prefix user = text "user"

module _ (blake3 : Text → Text) where
  unfoldable pub hash_token : Text → Text
  hash_token token = blake3 token

  unfoldable pub generate_token : TokenKind → Text → Text × Text
  unfolding hash_token prefix
  generate_token kind raw =
      let token = text "ongrok_" ++ (prefix kind ++ (b'_' ∷ hex_encode raw)) in
      (token, hash_token token)
