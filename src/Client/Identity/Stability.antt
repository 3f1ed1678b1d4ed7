-- ===== src/Client/Identity/Stability.antt =====
-- What repeated starts of a client make of its identity.
use ongrok_relay.Prelude.{
  ◌⊎◌, ◌⊎◌, ℕ, zero, suc, ◌+◌, ◌≡◌, refl, sym, ◌∙◌, ap, subst, true, false, [], ◌∷◌, Option, none,
  some, Text, length, ok, M, ◌>>◌, pure, arith, after-eq-ok, after, Result-cases, inl, inr,
  Bool-cases,
}
use ongrok_relay.Client.Identity.{
  NodeState, Json, FilePath, Disk, draw_bytes, random_private_key, write_state, is_zero_key,
  load_or_create_state, create, migrate, load, load_from,
}

record Drawn (n : ℕ) (d : Disk) : Type 0 where
  pub bytes : Text
  pub size : length bytes ≡ n
  pub made : draw_bytes n d ≡ (ok bytes, record d { drawn = d.drawn + n })

draws : (n : ℕ) (d : Disk) → Drawn n d
draws zero d = record {
  bytes = [];
  size = refl;
  made = ap (λ k. (ok [], record d { drawn = k })) (omega arith);
}
draws (suc n) d =
    let later = draws n (record d { drawn = d.drawn + 1 }) in
    record {
      bytes = d.random d.drawn ∷ later.bytes;
      size = omega (arith, later.size);
      made =
          rw later.made
            (ap (λ k. (ok (d.random d.drawn ∷ later.bytes), record d { drawn = k })) (omega arith));
    }

module _ (J : Json) (path : FilePath) where
  record Written (s : NodeState) (d d' : Disk) : Type 0 where
    pub json : Text
    pub printed : J.to_vec_pretty s ≡ ok json
    pub kept : d'.file ≡ some json
    pub readable : d'.is_readable ≡ d.is_readable

  record Kept (make : Text → NodeState) (s : NodeState) (d d' : Disk) : Type 0 where
    pub key : Text
    pub size : length s.private_key ≡ 32
    pub state : make key ≡ s
    pub written : Written s d d'

  write_state-eq-ok :
      (s : NodeState) (d d' : Disk) → write_state J path s d ≡ (ok tt, d') → Written s d d'
  unfolding write_state
  write_state-eq-ok s d d' h = elim (Result-cases (J.to_vec_pretty s)) [
    | inl (json, e) ↦ record {
      json = json;
      printed = e;
      kept = ground arith;
      readable = ground arith;
    }
    | inr (x, e) ↦ absurd (ground arith)
  ]

  -- A state that was written with a key of 32 bytes, not all zero, is what a later start loads.
  reload :
      (s : NodeState) (d d' : Disk)
      → Written s d d'
      → length s.private_key ≡ 32
      → is_zero_key s ≡ false
      → d.is_readable ≡ true
      → load_or_create_state J path d' ≡ (ok s, d')
  unfolding load_or_create_state
  reload s d d' w size live readable =
      let parsed = J.round_trip s w.json size w.printed in
      rw (w.kept, w.readable, readable, parsed, live)

  -- The steps after a key was drawn: the state with that key is written and returned.
  abbrev keep_key : (Text → NodeState) → Text → M Disk NodeState
  keep_key make key = write_state J path (make key) >> pure (make key)

  returned :
      (make : Text → NodeState) (key : Text) (s : NodeState) (d d1 d2 d' : Disk)
      → length (make key).private_key ≡ 32
      → d1.is_readable ≡ d.is_readable
      → Written (make key) d1 d2
      → pure (make key) d2 ≡ (ok s, d')
      → Kept make s d d'
  returned make key s d d1 d2 d' size open_still w last =
      let same : make key ≡ s = cc last in
      let moved : d2 ≡ d' = cc last in
      record {
        key = key;
        size = ap (λ (x : NodeState). length x.private_key) (sym same) ∙ size;
        state = same;
        written = record {
          json = w.json;
          printed = ap J.to_vec_pretty (sym same) ∙ w.printed;
          kept = ap (λ (x : Disk). x.file) (sym moved) ∙ w.kept;
          readable = ap (λ (x : Disk). x.is_readable) (sym moved) ∙ w.readable ∙ open_still;
        };
      }

  keep_key-Kept :
      (make : Text → NodeState) (s : NodeState) (d d' : Disk)
      → ((key : Text) → (make key).private_key ≡ key)
      → after (random_private_key d) (keep_key make) ≡ (ok s, d')
      → Kept make s d d'
  unfolding random_private_key
  keep_key-Kept make s d d' keyed h =
      let drawn = draws 32 d in
      let (key, d1, drew, wrote) = after-eq-ok (random_private_key d) (keep_key make) h in
      let (u, d2, written, last) =
        after-eq-ok (write_state J path (make key) d1) (λ _. pure (make key)) wrote in
      let same : drawn.bytes ≡ key = cc (drawn.made, drew) in
      let moved : record d { drawn = d.drawn + 32 } ≡ d1 = cc (drawn.made, drew) in
      returned make key s d d1 d2 d' (ap length (keyed key ∙ sym same) ∙ drawn.size)
        (ap (λ (x : Disk). x.is_readable) (sym moved)) (write_state-eq-ok (make key) d1 d2 written)
        last

  create-Kept :
      (s : NodeState) (d d' : Disk)
      → create J path d ≡ (ok s, d')
      → Kept (λ key. record { node_id = d.uuid; private_key = key }) s d d'
  create-Kept s d d' h = keep_key-Kept _ s d d' (λ key. refl) (ground arith)

  migrate-Kept :
      (s old : NodeState) (d d' : Disk)
      → migrate J path old true d ≡ (ok s, d')
      → Kept (λ key. record old { private_key = key }) s d d'
  migrate-Kept s old d d' h = keep_key-Kept _ s d d' (λ key. refl) h

  load-cases :
      (s old : NodeState) (json : Text) (d d' : Disk)
      → J.from_slice json ≡ ok old
      → load J path json d ≡ (ok s, d')
      → ((is_zero_key old ≡ true) × Kept (λ key. record old { private_key = key }) s d d')
        ⊎ ((s ≡ old) × (d' ≡ d))
  load-cases s old json d d' parsed h =
      let resumed : migrate J path old (is_zero_key old) d ≡ (ok s, d') = ground arith in
      elim (Bool-cases (is_zero_key old)) [
        | inl zeros ↦ inl (
          zeros,
          migrate-Kept s old d d' (subst (λ b. migrate J path old b d ≡ (ok s, d')) zeros resumed),
        )
        | inr sound ↦
            let same = subst (λ b. migrate J path old b d ≡ (ok s, d')) sound resumed in
            inr (cc same, cc same)
      ]

  Kept-again :
      (make : Text → NodeState) (s : NodeState) (d d' : Disk)
      → Kept make s d d'
      → is_zero_key s ≡ false
      → d.is_readable ≡ true
      → load_or_create_state J path d' ≡ (ok s, d')
  Kept-again make s d d' kept live readable = reload s d d' kept.written kept.size live readable

  again_from :
      (file : Option Text) (s : NodeState) (d d' : Disk)
      → d.file ≡ file
      → load_from J path file d ≡ (ok s, d')
      → is_zero_key s ≡ false
      → d.is_readable ≡ true
      → load_or_create_state J path d' ≡ (ok s, d')
  unfolding load_or_create_state
  again_from none s d d' absent h live readable =
      Kept-again _ s d d' (create-Kept s d d' h) live readable
  again_from (some json) s d d' present h live readable = elim (Result-cases (J.from_slice json)) [
    | inr (e, bad) ↦ absurd (ground arith)
    | inl (old, parsed) ↦ elim (load-cases s old json d d' parsed h) [
      | inl (zeros, kept) ↦ Kept-again _ s d d' kept live readable
      | inr (same, still) ↦
          rw still (subst (λ f. load_from J path f d ≡ (ok s, d)) (sym present) (rw still at h))
    ]
  ]

  -- Where the file system lets the client read, a start that succeeded is followed by starts with the
  -- same identity: the next one succeeds too, with the same node and key, and changes nothing, unless
  -- all 32 bytes of the key are zero.
  pub load_or_create_state-again :
      (s : NodeState) (d d' : Disk)
      → load_or_create_state J path d ≡ (ok s, d')
      → is_zero_key s ≡ false
      → d.is_readable ≡ true
      → load_or_create_state J path d' ≡ (ok s, d')
  unfolding load_or_create_state
  load_or_create_state-again s d d' h live readable = again_from d.file s d d' refl h live readable

  -- A start that finds an identity keeps its node, and its key too unless all bytes of that are zero.
  pub load_or_create_state-node_id :
      (s old : NodeState) (json : Text) (d d' : Disk)
      → d.file ≡ some json
      → J.from_slice json ≡ ok old
      → load_or_create_state J path d ≡ (ok s, d')
      → (s.node_id ≡ old.node_id) × ((is_zero_key old ≡ true) ⊎ (s ≡ old))
  unfolding load_or_create_state
  load_or_create_state-node_id s old json d d' present parsed h =
      elim (load-cases s old json d d' parsed
        (subst (λ f. load_from J path f d ≡ (ok s, d')) present h)) [
          | inl (zeros, kept) ↦ (ap (λ (x : NodeState). x.node_id) (sym kept.state), inl zeros)
          | inr (same, still) ↦ (ap (λ (x : NodeState). x.node_id) same, inr same)
        ]
