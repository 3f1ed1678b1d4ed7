-- ===== src/Server/Forwarding.antt =====
-- `open_client_stream` of crates/ongrok-relay-server/src/server.rs and `forward_tcp_connection` of
-- crates/ongrok-relay-server/src/relay.rs: the stream to a client that a visitor gets. What the
-- connections and the visitor's socket do is a parameter.
use ongrok_relay.Prelude.{
  ℕ, text, ◌++◌, ◌==◌, if◌then◌else◌, ok, err, Fallible, context, or_fail, Wait, timely, in_time, M,
  ◌>>=◌, ◌>>◌, pure, lift, get,
}
use ongrok_relay.BTree.{lookup}
use ongrok_relay.Libongrok.Types.{Frame}
use ongrok_relay.Server.State.{Platform, ClientSession, new_id}
use ongrok_relay.Server.Session.{Peer, on_world, write}

-- `open_bi` and `open_stream`, the first frame that comes back on the new stream, and the two copies of
-- `try_join!`.
pub record Tunnels : Type 0 where
  pub open_stream : ClientSession → Wait (Unit {0})
  pub answer : ClientSession → Wait Frame
  pub copy : Fallible (ℕ × ℕ)

unfoldable pub opened : ClientSession → Wait (Unit {0}) → Fallible (Unit {0})
opened (ClientSession.quic n) w =
    in_time
      (timely 10000
        (record w { result = context w.result (text "failed to open QUIC client data stream") }))
      (text "timed out while opening QUIC client data stream")
opened (ClientSession.yamux n) w =
    in_time
      (timely 10000
        (record w { result = context w.result (text "failed to open Yamux client data stream") }))
      (text "timed out while opening Yamux client data stream")

unfoldable pub check_answer : ℕ → Frame → Fallible ℕ
check_answer tunnel_id (Frame.open_stream_ack ack) =
    if ack == tunnel_id
    then ok tunnel_id
    else err (text "client returned an invalid data stream acknowledgement")
check_answer tunnel_id (Frame.error message) =
    err (text "client rejected local target: " ++ message)
check_answer tunnel_id _ = err (text "client returned an invalid data stream acknowledgement")

module _ {P : Platform} where
  unfoldable pub open_client_stream : Tunnels → ℕ → M (Peer P) ℕ
  unfolding opened check_answer
  open_client_stream tunnels service_id = do
    p ← get
    service ←
        lift (
          or_fail (lookup service_id p.world.app.services) (text "service is no longer registered"))
    session ←
        lift
          (or_fail (lookup service.node_id p.world.app.sessions) (text "service node is offline"))
    tunnel_id ← on_world new_id
    lift (opened session.connection (tunnels.open_stream session.connection))
    write (Frame.open_stream tunnel_id service_id)
    frame ← lift (
        in_time (timely 10000 (tunnels.answer session.connection))
          (text "timed out waiting for local target"))
    lift (check_answer tunnel_id frame)

  unfoldable pub forward_tcp_connection : Tunnels → ℕ → M (Peer P) (Unit {0})
  unfolding open_client_stream
  forward_tcp_connection tunnels service_id = do
    tunnel_id ← open_client_stream tunnels service_id
    copied ← lift (context tunnels.copy (text "TCP relay copy failed"))
    pure tt
