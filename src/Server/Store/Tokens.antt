-- ===== src/Server/Store/Tokens.antt =====
-- The tokens that a restarted server loads, from store.rs of crates/ongrok-relay-server/src.
use ongrok_relay.Prelude.{
  ◌≡◌, true, [], ◌∷◌, some, Text, text_eq_self, ok, arith, Result-cases, inl, inr,
}
use ongrok_relay.Server.State.{TokenState}
use ongrok_relay.Server.Store.{
  Tables, Table, Action, Redb, row, set_row, token_state_key, put_tokens, load_or_initialize_tokens,
}

row-set_row : (key value : Text) (rows : Table) → row key (set_row key value rows) ≡ some value
unfolding row set_row
row-set_row key value [] = ground (arith, text_eq_self key)
row-set_row key value ((k, old) ∷ rows) =
    ground (arith, text_eq_self key, row-set_row key value rows)

module _ (E : Redb) where
  -- Tokens that were stored are the ones that the server loads when it starts again, if it can read
  -- the store: the initial ones are not used.
  pub load_or_initialize_tokens-put_tokens :
      (db db' : Tables) (tokens : TokenState) (admin_hash user_hash : Text)
      → put_tokens E db tokens ≡ ok db'
      → E.succeeds Action.begin_read db' ≡ true
      → E.succeeds Action.open_table db' ≡ true
      → E.succeeds Action.get_row db' ≡ true
      → load_or_initialize_tokens E db' admin_hash user_hash ≡ ok (tokens, db')
  unfolding put_tokens load_or_initialize_tokens
  load_or_initialize_tokens-put_tokens db db' tokens admin_hash user_hash stored begun opened got =
      elim (Result-cases (E.token_format.to_allocvec tokens)) [
        | inr (x, failed) ↦ absurd (ground arith)
        | inl (encoded, encodes) ↦
            let reads = E.token_format.round_trip tokens encoded encodes in
            let kept : db'.tokens ≡ set_row token_state_key encoded db.tokens = ground arith in
            let found : row token_state_key db'.tokens ≡ some encoded =
              rw kept (row-set_row token_state_key encoded db.tokens) in
            ground (arith, reads, found)
      ]
