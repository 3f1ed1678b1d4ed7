-- ===== src/Relaying/Session.antt =====
-- The control session as the two ends run it, each on the frames that the other one writes:
-- `run_session` of the client and `handle_yamux_session` of the server.
use ongrok_relay.Prelude.{
  drop, ℕ, suc, ◌-◌, ◌≤◌, ◌≡◌, refl, ap, ◌∙◌, subst, true, false, List, [], ◌∷◌, some, map, ok,
  Fallible, arith,
}
use ongrok_relay.Prelude.Int.{pos}
use ongrok_relay.BTree.{lookup}
use ongrok_relay.Libongrok.Types.{
  Frame, TokenKind, TransportKind, protocol_version, ServiceDefinition,
}
use ongrok_relay.Libongrok.Validation.{validate}
use ongrok_relay.Server.State.{Platform, World, ClientSession, is_impostor}
use mathlib.Core.List.{reverse}
use ongrok_relay.Server.Registry.{register_service}
use ongrok_relay.Server.Revocation.{authenticate_token}
use ongrok_relay.Server.Session.{Peer, Client, join}
use ongrok_relay.Server.Session.Handlers.{Remote, client, run_yamux, handle_yamux_session}
use ongrok_relay.Client.Link.{Arrival, Link, fresh, frames, send}
use ongrok_relay.Client.Session.{
  Host, Job, heartbeat_snapshot, node_public_key, local_node_metadata, run_session,
}
use ongrok_relay.Server.Session.Success.{Takes, open_session-ok, serve-publish-ok, run_yamux-ok}

abbrev pub at_once : Frame → Arrival
at_once frame = record { after = 0; result = ok frame }

module _ (H : Host) where
  -- What a client that publishes a service and stops after one heartbeat writes.
  abbrev requests : Job → ServiceDefinition → List Frame
  requests job service =
      Frame.hello protocol_version
      ∷ Frame.auth job.token job.state.node_id
      ∷ Frame.register_node (local_node_metadata H) (node_public_key H job.state)
      ∷ Frame.register_service service
      ∷ Frame.heartbeat (heartbeat_snapshot H 1)
      ∷ Frame.goodbye
      ∷ []

  abbrev replies : TokenKind → ServiceDefinition → ℕ → List Frame
  replies kind accepted now =
      Frame.hello protocol_version
      ∷ Frame.auth_accepted kind
      ∷ Frame.register_service_accepted accepted
      ∷ Frame.heartbeat_ack 1 (pos now)
      ∷ []

  run_session-replies :
      (job : Job) (kind : TokenKind) (service accepted : ServiceDefinition) (now budget : ℕ)
      → job.once ≡ true
      → job.service ≡ some service
      → ((r : Fallible (Unit {0}) × Link) × (run_session H job
              (map at_once (replies kind accepted now))
              (fresh 0 (suc (suc (suc (suc (suc (suc budget)))))))
            ≡ r)
          × (r.0 ≡ ok tt)
          × (reverse (frames r.1) ≡ requests job service))
  unfolding run_session send
  run_session-replies job kind service accepted now budget once plain =
      (_, refl, ground arith, ground arith)

no_entries : validate (record { entries = [] }) ≡ ok tt
unfolding validate
no_entries = refl

module _ {P : Platform} where
  abbrev pub start : World P → ℕ → Peer P
  start w budget = record { world = w; sent = []; budget = budget }

  -- The session of a client in the server, and the world when its handshake is over.
  abbrev pub session_of : Remote → Job → TokenKind → World P → Client
  session_of remote job kind w =
      client TransportKind.tcp_tls_yamux (ClientSession.yamux remote.connection) remote
        job.state.node_id (P.uuid w.drawn) kind

  abbrev pub greeted : World P → World P
  greeted w = record w { drawn = suc w.drawn }

  -- A run of both ends without error, in which each reads what the other one wrote.
  pub record Dialogue (H : Host) (job : Job) (remote : Remote) (w : World P)
      (client_budget server_budget : ℕ) : Type 0 where
    pub link : Link
    pub peer : Peer P
    pub client_ends :
        run_session H job (map at_once (reverse peer.sent)) (fresh 0 client_budget) ≡ (ok tt, link)
    pub server_ends :
        handle_yamux_session remote (map ok (reverse (frames link))) (start w server_budget)
        ≡ (ok tt, peer)

  handle_yamux_session-replies :
      (H : Host) (job : Job) (service accepted : ServiceDefinition) (remote : Remote)
      (kind : TokenKind) (w w' : World P) (n : ℕ)
      → Takes P
      → authenticate_token job.token w ≡ some kind
      → is_impostor (lookup job.state.node_id w.app.nodes) (node_public_key H job.state) ≡ false
      → service.node_id ≡ job.state.node_id
      → register_service service job.state.node_id
          (join
            (session_of remote job kind w)
            (local_node_metadata H)
            (node_public_key H job.state)
            (greeted w)).1
        ≡ (ok accepted, w')
      → ((r : Fallible (Unit {0}) × Peer P) × (handle_yamux_session remote
              (map ok (requests H job service))
              (start w (suc (suc (suc (suc n)))))
            ≡ r)
          × (r.0 ≡ ok tt)
          × (reverse r.1.sent ≡ replies H kind accepted w'.now))
  unfolding handle_yamux_session local_node_metadata heartbeat_snapshot
  handle_yamux_session-replies H job service accepted remote kind w w' n takes known honest own
        stored =
      let opened =
        open_session-ok takes job.token job.state.node_id (suc (suc n)) kind []
          (map ok (drop 2 (requests H job service))) w known in
      let c = session_of remote job kind w in
      let reads = map ok (drop 2 (requests H job service)) in
      let p : Peer P = record {
        world = greeted w;
        sent = Frame.auth_accepted kind ∷ Frame.hello protocol_version ∷ [];
        budget = suc (suc n);
      } in
      let (r, served, well, wrote) =
        serve-publish-ok takes c (local_node_metadata H) (node_public_key H job.state) service
          accepted (heartbeat_snapshot H 1) n p.sent (greeted w) w' no_entries honest own stored in
      let (ended, same) = run_yamux-ok takes c reads p (ap (λ x. x.0) served ∙ well) in
      let whole : handle_yamux_session remote (map ok (requests H job service))
            (start w (suc (suc (suc (suc n)))))
          ≡ run_yamux c reads p =
        rw opened refl in
      (_, refl, rw whole ended, rw whole (ap reverse (same ∙ ap (λ x. x.1.sent) served ∙ wrote)))

  -- Over TCP and TLS, with a store that takes what sessions write: where the token is one of the
  -- server's, the node's key is not another one than the server knows, and the server admits the
  -- service, a client that publishes the service for one heartbeat and the server end without error,
  -- each on the frames that the other one wrote, if no write fails.
  pub publish-Dialogue :
      (H : Host) (job : Job) (service accepted : ServiceDefinition) (remote : Remote)
      (kind : TokenKind) (w w' : World P) (m n : ℕ)
      → Takes P
      → job.once ≡ true
      → job.service ≡ some service
      → service.node_id ≡ job.state.node_id
      → authenticate_token job.token w ≡ some kind
      → is_impostor (lookup job.state.node_id w.app.nodes) (node_public_key H job.state) ≡ false
      → register_service service job.state.node_id
          (join
            (session_of remote job kind w)
            (local_node_metadata H)
            (node_public_key H job.state)
            (greeted w)).1
        ≡ (ok accepted, w')
      → 6 ≤ m
      → 4 ≤ n
      → Dialogue H job remote w m n
  publish-Dialogue H job service accepted remote kind w w' m n takes once published own known honest
        stored big wide =
      let (r, ran, well, asked) =
        run_session-replies H job kind service accepted w'.now (m - 6) once published in
      let (q, served, fine, wrote) =
        handle_yamux_session-replies H job service accepted remote kind w w' (n - 4) takes known
          honest own stored in
      let client_room : suc (suc (suc (suc (suc (suc (m - 6)))))) ≡ m = omega arith in
      let server_room : suc (suc (suc (suc (n - 4)))) ≡ n = omega arith in
      subst (λ k. Dialogue H job remote w k n) client_room
        (subst (Dialogue H job remote w (suc (suc (suc (suc (suc (suc (m - 6)))))))) server_room
          (record {
            link = r.1;
            peer = q.1;
            client_ends = rw wrote ran ∙ ap (λ x. (x, r.1)) well;
            server_ends = rw asked served ∙ ap (λ x. (x, q.1)) fine;
          }))
