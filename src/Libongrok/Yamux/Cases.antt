-- ===== src/Libongrok/Yamux/Cases.antt =====
-- The branches of `open_stream` and `next_inbound`.
use ongrok_relay.Prelude.{
  ℕ, none, some, List, [], ◌∷◌, ◌++◌, true, false, ◌≡◌, refl, err, length, arith, inl, inr, ◌⊎◌,
  Bool-cases, ltb,
}
use ongrok_relay.Libongrok.Yamux.{
  Task, selecting, ended, opening, sending, YamuxSession, open_stream, next_inbound, receive,
  capacity, is_running, is_closed,
}

module _ {Stream : Type 0} where
  is_running-eq-false : (task : Task Stream) → is_running task ≡ false → task ≡ ended
  is_running-eq-false selecting h = cc
  is_running-eq-false ended h = refl
  is_running-eq-false (opening n) h = cc
  is_running-eq-false (sending x) h = cc

  pub is_running-ne-ended : {task : Task Stream} → task ≡ ended → ¬ (is_running task ≡ true)
  is_running-ne-ended e h = absurd cc

  pub open_stream-cases :
      (n : ℕ) (s t : YamuxSession Stream)
      → open_stream n s ≡ some t
      → ((s.task ≡ ended) × (t ≡ record s { answers = s.answers ++ ((n, err is_closed) ∷ []) }))
        ⊎ ((is_running s.task ≡ true)
            × (ltb (length s.outbound) capacity ≡ true)
            × (t ≡ record s { outbound = s.outbound ++ (n ∷ []) }))
  unfolding open_stream
  open_stream-cases n s t e = elim (Bool-cases (is_running s.task)) [
    | inl h ↦ inr (elim (Bool-cases (ltb (length s.outbound) capacity)) [
      | inl q ↦ (h, q, ground arith)
      | inr q ↦ absurd (ground arith)
    ])
    | inr h ↦ inl (is_running-eq-false s.task h, ground arith)
  ]

  pub next_inbound-cases :
      (s t : YamuxSession Stream)
      → next_inbound s ≡ some t
      → ((x : Stream) × (rest : List Stream) × (s.inbound ≡ x ∷ rest)
          × (t ≡ record s { inbound = rest; received = s.received ++ (some x ∷ []) }))
        ⊎ ((s.task ≡ ended)
            × (s.inbound ≡ [])
            × (t ≡ record s { received = s.received ++ (none ∷ []) }))
  unfolding next_inbound
  next_inbound-cases s t e = by_inbound s.inbound refl e
    where
      by_inbound :
          (xs : List Stream)
          → s.inbound ≡ xs
          → receive xs s ≡ some t
          → ((x : Stream) × (rest : List Stream) × (s.inbound ≡ x ∷ rest)
              × (t ≡ record s { inbound = rest; received = s.received ++ (some x ∷ []) }))
            ⊎ ((s.task ≡ ended)
                × (s.inbound ≡ [])
                × (t ≡ record s { received = s.received ++ (none ∷ []) }))
      by_inbound (x ∷ rest) q r = inl (x, rest, q, ground arith)
      by_inbound [] q r = inr (elim (Bool-cases (is_running s.task)) [
        | inl h ↦ absurd (ground arith)
        | inr h ↦ (is_running-eq-false s.task h, q, ground arith)
      ])
