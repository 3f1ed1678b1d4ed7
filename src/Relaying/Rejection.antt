-- ===== src/Relaying/Rejection.antt =====
-- A session that the server refuses for its token, at both ends.
use mathlib.Core.List.{reverse}
use ongrok_relay.Prelude.{
  contains, strip_prefix, ℕ, suc, ◌-◌, ◌≤◌, ◌≡◌, refl, subst, true, [], ◌∷◌, none, text, map, ok,
  err, Error, arith,
}
use ongrok_relay.Libongrok.Types.{Frame, protocol_version}
use ongrok_relay.Server.State.{Platform, World}
use ongrok_relay.Server.Revocation.{authenticate_token}
use ongrok_relay.Server.Session.{Peer, write}
use ongrok_relay.Server.Session.Handlers.{Remote, open_session, handle_yamux_session}
use ongrok_relay.Client.Link.{Link, fresh, frames, send}
use ongrok_relay.Client.Session.{Host, Job, run_session}
use ongrok_relay.Client.Retry.{is_authentication_error}
use ongrok_relay.Relaying.Session.{at_once, start}

rejection_message : is_authentication_error (text "server rejected token") ≡ true
unfolding is_authentication_error contains strip_prefix text
rejection_message = refl

module _ {P : Platform} where
  -- A run of both ends, each on what the other one wrote, which changes nothing in the server and ends
  -- the client for good.
  pub record Dismissal (H : Host) (job : Job) (remote : Remote) (w : World P)
      (client_budget server_budget : ℕ) : Type 0 where
    pub link : Link
    pub peer : Peer P
    pub message : Error
    pub refusal : Error
    pub client_ends :
        run_session H job (map at_once (reverse peer.sent)) (fresh 0 client_budget)
        ≡ (err message, link)
    pub server_ends :
        handle_yamux_session remote (map ok (reverse (frames link))) (start w server_budget)
        ≡ (err refusal, peer)
    pub final : is_authentication_error message ≡ true
    pub unchanged : peer.world ≡ w

  dismissal :
      (H : Host) (job : Job) (remote : Remote) (w : World P) (m n : ℕ)
      → authenticate_token job.token w ≡ none
      → Dismissal H job remote w (suc (suc m)) (suc (suc n))
  unfolding run_session send handle_yamux_session open_session write
  dismissal H job remote w m n unknown = record {
    link = record {
      sent = (0, Frame.auth job.token job.state.node_id) ∷ (0, Frame.hello protocol_version) ∷ [];
      elapsed = 0;
      budget = m;
      local_services = [];
    };
    peer = record {
      world = w;
      sent = Frame.auth_rejected ∷ Frame.hello protocol_version ∷ [];
      budget = n;
    };
    message = text "server rejected token";
    refusal = text "client authentication rejected";
    client_ends = ground arith;
    server_ends = ground arith;
    final = rejection_message;
    unchanged = refl;
  }

  -- Over TCP and TLS, where the token is none of the server's: both ends fail, each on the frames that
  -- the other one wrote, nothing in the server changes, and the client's error is one on which it does
  -- not try again. The first two writes of each end succeed.
  pub run_session-Dismissal :
      (H : Host) (job : Job) (remote : Remote) (w : World P) (m n : ℕ)
      → authenticate_token job.token w ≡ none
      → 2 ≤ m
      → 2 ≤ n
      → Dismissal H job remote w m n
  run_session-Dismissal H job remote w m n unknown big wide =
      let client_room : suc (suc (m - 2)) ≡ m = omega arith in
      let server_room : suc (suc (n - 2)) ≡ n = omega arith in
      subst (λ k. Dismissal H job remote w k n) client_room
        (subst (Dismissal H job remote w (suc (suc (m - 2)))) server_room
          (dismissal H job remote w (m - 2) (n - 2) unknown))
