-- ===== src/Server/Session/Validity.antt =====
-- The registry through a session of crates/ongrok-relay-server/src/server.rs, frame by frame.
use ongrok_relay.Prelude.{
  ◌≡◌, refl, sym, subst, Bool, false, List, [], ◌∷◌, none, some, ok, err, Fallible, M, after, arith,
}
use ongrok_relay.Libongrok.Types.{Frame}
use ongrok_relay.Server.State.{Platform, World}
use ongrok_relay.Server.Registry.Invariant.{
  IsValid, register_service-IsValid, unregister_service-IsValid,
}
use ongrok_relay.Server.Registry.Bystanders.{
  IsBystander, SameRegistry-IsValid, join-IsBystander, leave-IsBystander,
  record_heartbeat-IsBystander,
}
use ongrok_relay.Server.Session.{
  Peer, Client, on_world, write, handle_frame, serve, leave, next_read, later_reads,
}
use ongrok_relay.Server.Session.Handlers.{
  Remote, greet, login, open_session, run_yamux, run_quic, handle_yamux_session,
  handle_quic_connection,
}
use ongrok_relay.Server.Session.Preservation.{handle_frame-preserves}

module _ {P : Platform} where
  abbrev pub Keeps : {A : Type 0} → M (Peer P) A → Type 0
  Keeps m = (p : Peer P) → IsValid p.world.app → IsValid (m p).1.world.app

  then-Keeps :
      {A B : Type 0} (r : Fallible A × Peer P) (f : A → M (Peer P) B)
      → IsValid r.1.world.app
      → ((a : A) → Keeps (f a))
      → IsValid (after r f).1.world.app
  then-Keeps (ok a, p) f v rest = rest a p v
  then-Keeps (err e, p) f v rest = v

  IsBystander-Keeps : {A : Type 0} (m : M (World P) A) → IsBystander m → Keeps (on_world m)
  IsBystander-Keeps m b p v = SameRegistry-IsValid p.world.app _ (b p.world) v

  same_world : (frame : Frame) (p : Peer P) → (write frame p).1.world ≡ p.world
  unfolding write
  same_world frame p = ground arith

  write-Keeps : (frame : Frame) → Keeps (write frame)
  write-Keeps frame p v = subst (λ (w : World P). IsValid w.app) (sym (same_world frame p)) v

  pub handle_frame-Keeps :
      (c : Client) (registered : Bool) (frame : Frame) → Keeps (handle_frame c registered frame)
  handle_frame-Keeps c =
      handle_frame-preserves (λ (w : World P). IsValid w.app) c
        (λ metadata key w. SameRegistry-IsValid w.app _ (join-IsBystander c metadata key w))
        (λ service node_id w. register_service-IsValid w service node_id)
        (λ service_id node_id w. unregister_service-IsValid w service_id node_id)
        (λ snapshot w.
          SameRegistry-IsValid w.app _ (record_heartbeat-IsBystander c.node_id snapshot w))

  serve-Keeps :
      (c : Client) (reads : List (Fallible Frame)) (registered : Bool)
      → Keeps (serve c registered reads)
  unfolding serve
  serve-Keeps c [] registered p v = v
  serve-Keeps c (err e ∷ rest) registered p v = v
  serve-Keeps c (ok frame ∷ rest) registered p v =
      let later = serve-Keeps c rest in
      then-Keeps (handle_frame c registered frame p) _ (handle_frame-Keeps c registered frame p v)
        (elim [ none ↦ λ q u. u | some registered' ↦ λ q u. later registered' q u ])

  -- The handshake writes frames, and touches nothing of the server.
  pub greet_world : (r : Fallible Frame) (p : Peer P) → (greet r p).1.world ≡ p.world
  unfolding greet write
  greet_world (err e) p = refl
  greet_world (ok (Frame.hello version)) p = ground arith
  greet_world (ok _) p = refl

  pub login_world : (r : Fallible Frame) (p : Peer P) → (login r p).1.world ≡ p.world
  unfolding login write
  login_world (err e) p = refl
  login_world (ok (Frame.auth token node_id)) p = ground arith
  login_world (ok _) p = refl

  world-Keeps : {A : Type 0} (m : M (Peer P) A) → ((p : Peer P) → (m p).1.world ≡ p.world) → Keeps m
  world-Keeps m same p v = subst (λ (w : World P). IsValid w.app) (sym (same p)) v

  open_session-Keeps : (reads : List (Fallible Frame)) → Keeps (open_session reads)
  unfolding open_session
  open_session-Keeps reads p v =
      then-Keeps (greet (next_read reads) p) _
        (world-Keeps (greet (next_read reads)) (greet_world (next_read reads)) p v)
        λ _ q u.
          then-Keeps (login (next_read (later_reads reads)) q) _
            (world-Keeps (login (next_read (later_reads reads)))
              (login_world (next_read (later_reads reads))) q u)
            λ (kind, node_id) x y.
              then-Keeps (write (Frame.auth_accepted kind) x) _
                (write-Keeps (Frame.auth_accepted kind) x y) (λ _ z t. t)

  run_yamux-Keeps : (c : Client) (reads : List (Fallible Frame)) → Keeps (run_yamux c reads)
  unfolding run_yamux
  run_yamux-Keeps c reads p v =
      let served = serve c false reads p in
      then-Keeps (on_world (leave c) served.1) _
        (IsBystander-Keeps (leave c) (leave-IsBystander c) served.1 (serve-Keeps c reads false p v))
        (λ _ z t. t)

  run_quic-Keeps : (c : Client) (reads : List (Fallible Frame)) → Keeps (run_quic c reads)
  unfolding run_quic
  run_quic-Keeps c reads p v =
      then-Keeps (serve c false reads p) _ (serve-Keeps c reads false p v)
        (λ _. IsBystander-Keeps (leave c) (leave-IsBystander c))

  -- Over TCP and TLS: the registry is valid after the session however it ends.
  pub handle_yamux_session-IsValid :
      (remote : Remote) (reads : List (Fallible Frame)) (p : Peer P)
      → IsValid p.world.app
      → IsValid (handle_yamux_session remote reads p).1.world.app
  unfolding handle_yamux_session
  handle_yamux_session-IsValid remote reads p v =
      then-Keeps (open_session reads p) _ (open_session-Keeps reads p v)
        (λ (kind, node_id, session_id). run_yamux-Keeps _ (later_reads (later_reads reads)))

  -- Over QUIC: the registry is valid after the session however it ends.
  pub handle_quic_connection-IsValid :
      (remote : Remote) (reads : List (Fallible Frame)) (p : Peer P)
      → IsValid p.world.app
      → IsValid (handle_quic_connection remote reads p).1.world.app
  unfolding handle_quic_connection
  handle_quic_connection-IsValid remote reads p v =
      then-Keeps (open_session reads p) _ (open_session-Keeps reads p v)
        (λ (kind, node_id, session_id). run_quic-Keeps _ (later_reads (later_reads reads)))
