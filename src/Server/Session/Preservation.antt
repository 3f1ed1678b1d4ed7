-- ===== src/Server/Session/Preservation.antt =====
-- What one frame of a session of crates/ongrok-relay-server/src/server.rs does to the server, by the
-- operations that it calls.
use ongrok_relay.Prelude.{
  ℕ, ◌≡◌, sym, subst, Bool, not, ◌||◌, Text, text, ok, err, Fallible, M, arith, Bool-cases, inl,
  inr, after, ◌==◌,
}
use ongrok_relay.Libongrok.Types.{Frame, ServiceDefinition, NodeMetadata, HeartbeatSnapshot}
use ongrok_relay.Server.State.{Platform, World}
use ongrok_relay.Server.Registry.{register_service, unregister_service}
use ongrok_relay.Server.Session.{
  Peer, Client, on_world, handle_frame, join, record_heartbeat, publish, try_register, reply, write,
}

module _ {P : Platform} (Q : World P → Type 0) (c : Client)
    (joining : (metadata : NodeMetadata) (key : Text) (w : World P)
      → Q w
      → Q (join c metadata key w).1)
    (registering : (service : ServiceDefinition) (node_id : ℕ) (w : World P)
      → Q w
      → Q (register_service service node_id w).1)
    (unregistering : (service_id node_id : ℕ) (w : World P)
      → Q w
      → Q (unregister_service service_id node_id w).1)
    (beating : (snapshot : HeartbeatSnapshot) (w : World P)
      → Q w
      → Q (record_heartbeat c.node_id snapshot w).1) where
  abbrev Keeps : {A : Type 0} → M (Peer P) A → Type 0
  Keeps m = (p : Peer P) → Q p.world → Q (m p).1.world

  then-Keeps :
      {A B : Type 0} (r : Fallible A × Peer P) (f : A → M (Peer P) B)
      → Q r.1.world
      → ((a : A) → Keeps (f a))
      → Q (after r f).1.world
  then-Keeps (ok a, p) f v rest = rest a p v
  then-Keeps (err e, p) f v rest = v

  same_world : (frame : Frame) (p : Peer P) → (write frame p).1.world ≡ p.world
  unfolding write
  same_world frame p = ground arith

  write-Keeps : (frame : Frame) → Keeps (write frame)
  write-Keeps frame p v = subst Q (sym (same_world frame p)) v

  try_register-Keeps :
      (registered : Bool) (service : ServiceDefinition) → Keeps (try_register c registered service)
  unfolding try_register
  try_register-Keeps registered service p v =
      elim (Bool-cases (not registered || not (service.node_id == c.node_id))) [
        | inl stranger ↦ rw (stranger, try_register) v
        | inr member ↦ rw (member, try_register) (registering service c.node_id p.world v)
      ]

  reply-Keeps : (r : Fallible ServiceDefinition) → Keeps (reply r)
  unfolding reply
  reply-Keeps (ok accepted) = write-Keeps (Frame.register_service_accepted accepted)
  reply-Keeps (err e) = write-Keeps (Frame.error e)

  publish-Keeps :
      (registered : Bool) (service : ServiceDefinition) → Keeps (publish c registered service)
  unfolding publish
  publish-Keeps registered service p v =
      let tried = try_register c registered service p in
      reply-Keeps tried.0 tried.1 (try_register-Keeps registered service p v)

  -- What these operations preserve, every frame preserves.
  pub handle_frame-preserves :
      (registered : Bool) (frame : Frame) (p : Peer P)
      → Q p.world
      → Q (handle_frame c registered frame p).1.world
  unfolding handle_frame
  handle_frame-preserves registered (Frame.register_node metadata key) p v =
      then-Keeps (on_world (join c metadata key) p) _ (joining metadata key p.world v) (λ _ q u. u)
  handle_frame-preserves registered (Frame.register_service service) p v =
      then-Keeps (publish c registered service p) _ (publish-Keeps registered service p v)
        (λ _ q u. u)
  handle_frame-preserves registered (Frame.unregister_service service_id) p v =
      then-Keeps (on_world (unregister_service service_id c.node_id) p) _
        (unregistering service_id c.node_id p.world v) (λ _ q u. u)
  handle_frame-preserves registered (Frame.heartbeat snapshot) p v =
      then-Keeps (on_world (record_heartbeat c.node_id snapshot) p) _ (beating snapshot p.world v)
        (λ _ q u. then-Keeps (write _ q) _ (write-Keeps _ q u) (λ _ x y. y))
  handle_frame-preserves registered Frame.goodbye p v = v
  handle_frame-preserves registered _ p v =
      then-Keeps (write (Frame.error (text "unsupported control frame")) p) _ (write-Keeps _ p v)
        (λ _ q u. u)
