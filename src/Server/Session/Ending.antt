-- ===== src/Server/Session/Ending.antt =====
-- How a session ends: what is left of it in the server, over each transport.
use ongrok_relay.Prelude.{
  ℕ, ◌≡◌, refl, Bool, true, false, List, Option, none, some, ok, err, Fallible, arith, ap, subst,
  sym, after, lift, Bool-cases, inl, inr,
}
use ongrok_relay.BTree.{lookup, remove, update}
use ongrok_relay.BTree.Lookup.{lookup-remove_self, lookup-update}
use ongrok_relay.Libongrok.Types.{Frame, NodeRecord, NodeStatus}
use ongrok_relay.Server.State.{Platform, World, ActiveSession, record_event}
use ongrok_relay.Server.Revocation.{offline}
use ongrok_relay.Server.Session.{Peer, Client, on_world, is_current, serve, drop_session, leave}
use ongrok_relay.Server.Session.Handlers.{run_yamux}

is_current-none : (id : ℕ) (o : Option ActiveSession) → o ≡ none → is_current id o ≡ false
is_current-none id o e = ground arith

module _ {P : Platform} where
  -- Whether the session of a client is the one that the server holds of its node.
  abbrev pub is_active : Client → World P → Bool
  is_active c w = is_current c.session_id (lookup c.node_id w.app.sessions)

  drop_session-sessions :
      (node_id : ℕ) (w : World P)
      → (drop_session node_id w).1.app.sessions ≡ remove node_id w.app.sessions
  unfolding drop_session record_event
  drop_session-sessions node_id w = ground arith

  drop_session-nodes :
      (node_id : ℕ) (w : World P)
      → (drop_session node_id w).1.app.nodes ≡ update node_id offline w.app.nodes
  unfolding drop_session record_event
  drop_session-nodes node_id w = ground arith

  leave-ends : (c : Client) (w : World P) → is_active c (leave c w).1 ≡ false
  unfolding leave
  leave-ends c w = elim (Bool-cases (is_active c w)) [
    | inr gone ↦ ground arith
    | inl held ↦
        rw (held, leave)
          (is_current-none c.session_id _
            (rw (drop_session-sessions c.node_id w) (lookup-remove_self c.node_id w.app.sessions)))
  ]

  then-lift :
      {A B : Type 0} (r : Fallible A × Peer P) (x : Fallible B) → (after r (λ _. lift x)).1 ≡ r.1
  then-lift (ok a, p) x = refl
  then-lift (err e, p) x = refl

  run_yamux-leave :
      (c : Client) (reads : List (Fallible Frame)) (p : Peer P)
      → (run_yamux c reads p).1.world ≡ (leave c (serve c false reads p).1.world).1
  unfolding run_yamux
  run_yamux-leave c reads p =
      ap (λ (q : Peer P). q.world)
        (then-lift (on_world (leave c) (serve c false reads p).1) (serve c false reads p).0)

  -- Over TCP and TLS: whatever the client sends, and however the loop ends (a goodbye, a read that
  -- fails, a write that fails, a frame that is refused), the server no longer holds the session.
  pub run_yamux-ends :
      (c : Client) (reads : List (Fallible Frame)) (p : Peer P)
      → is_active c (run_yamux c reads p).1.world ≡ false
  run_yamux-ends c reads p =
      subst (λ (w : World P). is_active c w ≡ false) (sym (run_yamux-leave c reads p))
        (leave-ends c (serve c false reads p).1.world)

  leave-held :
      (c : Client) (w : World P) → is_active c w ≡ true → leave c w ≡ drop_session c.node_id w
  unfolding leave
  leave-held c w held = rw (held, leave) refl

  leave-offline :
      (c : Client) (n : NodeRecord) (w : World P)
      → is_active c w ≡ true
      → lookup c.node_id (leave c w).1.app.nodes ≡ some n
      → n.status ≡ NodeStatus.offline
  leave-offline c n w held found =
      let there : lookup c.node_id (drop_session c.node_id w).1.app.nodes ≡ some n =
        subst (λ (r : Fallible (Unit {0}) × World P). lookup c.node_id r.1.app.nodes ≡ some n)
          (leave-held c w held) found in
      ground (
        arith,
        drop_session-nodes c.node_id w,
        lookup-update c.node_id c.node_id offline w.app.nodes,
      )

  -- Over TCP and TLS: a session that no other one has replaced takes its node offline, however it
  -- ends.
  pub run_yamux-offline :
      (c : Client) (n : NodeRecord) (reads : List (Fallible Frame)) (p : Peer P)
      → is_active c (serve c false reads p).1.world ≡ true
      → lookup c.node_id (run_yamux c reads p).1.world.app.nodes ≡ some n
      → n.status ≡ NodeStatus.offline
  run_yamux-offline c n reads p held found =
      leave-offline c n (serve c false reads p).1.world held (
        subst (λ (w : World P). lookup c.node_id w.app.nodes ≡ some n) (run_yamux-leave c reads p)
          found)
