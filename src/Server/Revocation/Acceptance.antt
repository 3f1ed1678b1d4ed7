-- ===== src/Server/Revocation/Acceptance.antt =====
-- Which tokens the server accepts after one was replaced.
use ongrok_relay.Prelude.{
  ◌≡◌, refl, sym, subst, inl, inr, true, [], ◌∷◌, ◌++◌, Option, none, some, Text, text, text_eq→eq,
  text_eq_self, strip_prefix, ok, arith, is_some,
}
use ongrok_relay.BTree.Order.{IsSorted}
use ongrok_relay.Libongrok.Types.{TokenKind, admin, user}
use ongrok_relay.Libongrok.Tokens.{hash_token, generate_token}
use ongrok_relay.Server.State.{Platform, World, TokenState, authenticate_hash, set_token}
use ongrok_relay.Server.Revocation.{authenticate, authenticate_token, replace_token}
use ongrok_relay.Server.Revocation.Effects.{replace_token-cases}

set_token-authenticate :
    (tokens : TokenState) (kind : TokenKind) (hash : Option Text) (h : Text)
    → authenticate_hash (set_token tokens kind hash) h ≡ some kind
    → hash ≡ some h
unfolding authenticate_hash set_token
set_token-authenticate tokens admin none h e = ground arith
set_token-authenticate tokens admin (some x) h e = ground (arith, text_eq→eq x h)
set_token-authenticate tokens user none h e = ground arith
set_token-authenticate tokens user (some x) h e = ground (arith, text_eq→eq x h)

set_token-accepts :
    (tokens : TokenState) (kind : TokenKind) (h : Text)
    → is_some (authenticate_hash (set_token tokens kind (some h)) h) ≡ true
unfolding authenticate_hash set_token
set_token-accepts tokens admin h = ground (arith, text_eq_self h)
set_token-accepts tokens user h = ground (arith, text_eq_self h)

pub strip_prefix-append : (p s : Text) → strip_prefix p (p ++ s) ≡ some s
unfolding strip_prefix
strip_prefix-append [] s = refl
strip_prefix-append (c ∷ p) s = ground (arith, strip_prefix-append p s)

module _ {P : Platform} where
  -- With sorted sessions, once the store took the replacement, a token that the server accepts as one of the kind is the
  -- new token of the kind: after a revocation there is none, and after a rotation the old ones are
  -- dead.
  pub replace_token-authenticate :
      (kind : TokenKind) (hash : Option Text) (token : Text) (db : P.store.Db) (w : World P)
      → IsSorted w.app.sessions
      → P.store.put_tokens w.app.store (set_token w.app.tokens kind hash) ≡ ok db
      → authenticate_token token (replace_token kind hash w).1 ≡ some kind
      → hash ≡ some (hash_token P.blake3 token)
  unfolding authenticate_token
  replace_token-authenticate kind hash token db w sorted stored accepted =
      elim (replace_token-cases kind hash w sorted) [
        | inl (e, failed, same) ↦ absurd (ground arith)
        | inr (db', stored', after) ↦ set_token-authenticate w.app.tokens kind hash _ (
            subst (λ t. authenticate_hash t (hash_token P.blake3 token) ≡ some kind) after.tokens
              accepted)
      ]

  authenticate-bearer :
      (token : Text) (w : World P)
      → authenticate (some (text "Bearer " ++ token)) w ≡ authenticate_token token w
  unfolding authenticate
  authenticate-bearer token w = rw (strip_prefix-append (text "Bearer ") token, authenticate) refl

  -- With sorted sessions, once the store took the replacement, the server accepts the generated token
  -- as a bearer token.
  pub replace_token-accepts :
      (kind : TokenKind) (raw : Text) (db : P.store.Db) (w : World P)
      → IsSorted w.app.sessions
      → P.store.put_tokens w.app.store
          (set_token w.app.tokens kind (some (generate_token P.blake3 kind raw).1))
        ≡ ok db
      → is_some (
          authenticate
            (some (text "Bearer " ++ (generate_token P.blake3 kind raw).0))
            (replace_token kind (some (generate_token P.blake3 kind raw).1) w).1)
        ≡ true
  unfolding authenticate_token generate_token
  replace_token-accepts kind raw db w sorted stored =
      let (token, hash) = generate_token P.blake3 kind raw in
      elim (replace_token-cases kind (some hash) w sorted) [
        | inl (e, failed, same) ↦ absurd (ground arith)
        | inr (db', stored', after) ↦
            rw (authenticate-bearer token (replace_token kind (some hash) w).1) (
              subst (λ t. is_some (authenticate_hash t hash) ≡ true) (sym after.tokens)
                (set_token-accepts w.app.tokens kind hash))
      ]
