-- ===== src/Client/Streams.antt =====
-- `handle_data_stream` of crates/ongrok-relay-client/src/main.rs: what a client does with a stream that
-- the relay opens for a visitor. The local network and the copying of bytes are a parameter.
use ongrok_relay.Prelude.{
  ℕ, List, ◌++◌, Option, none, some, Text, text, ok, err, Fallible, context, or_fail, Wait, timely,
  M, ◌>>=◌, ◌>>◌, pure, lift,
}
use ongrok_relay.BTree.{BTreeMap, lookup}
use ongrok_relay.Libongrok.Types.{Frame}
use ongrok_relay.Tasks.{
  Listener, Event, accepts, completes, refuses, closes, end_task, spawn, finish,
}
use ongrok_relay.Client.Link.{Arrival, Link, next_arrival, sleep, receive, send}

-- `TcpStream::connect`, and the two copies of `try_join!`.
pub record Local : Type 0 where
  pub connect : Text → Wait (Unit {0})
  pub copy : Wait (ℕ × ℕ)

abbrev pub connect_limit : ℕ
connect_limit = 10000

unfoldable pub check_open : Frame → Fallible (ℕ × ℕ)
check_open (Frame.open_stream tunnel_id service_id) = ok (tunnel_id, service_id)
check_open _ = err (text "expected OpenStream as first data stream frame")

abbrev relay : Local → ℕ → M Link (Unit {0})
relay local tunnel_id = do
  send (Frame.open_stream_ack tunnel_id)
  sleep local.copy.after
  copied ← lift (context local.copy.result (text "local TCP relay copy failed"))
  pure tt

abbrev answer : Local → ℕ → Text → Option (Fallible (Unit {0})) → M Link (Unit {0})
answer local tunnel_id address (some (ok connected)) =
    sleep (local.connect address).after >> relay local tunnel_id
answer local tunnel_id address (some (err error)) =
    sleep (local.connect address).after
    >> send (Frame.error (text "failed to connect to " ++ address ++ text ": " ++ error))
answer local tunnel_id address none =
    sleep connect_limit >> send (Frame.error (text "timed out connecting to " ++ address))

unfoldable pub handle_data_stream : BTreeMap Text → Local → List Arrival → M Link (Unit {0})
unfolding check_open
handle_data_stream local_services local arrivals = do
  frame ← receive (next_arrival arrivals)
  (tunnel_id, service_id) ← lift (check_open frame)
  address ←
      lift (or_fail (lookup service_id local_services) (text "server requested an unknown service"))
  answer local tunnel_id address (timely connect_limit (local.connect address))

-- The loops that accept the streams of visitors, `accept_bi` of quinn and `next_inbound`, one event at
-- a time.
unfoldable pub accept_data_streams : Event → Listener → Listener
accept_data_streams (accepts c) l = spawn c l
accept_data_streams (completes c) l = end_task c l
accept_data_streams (refuses e) l = finish (ok tt) l
accept_data_streams closes l = l

unfoldable pub accept_yamux_data_streams : Event → Listener → Listener
accept_yamux_data_streams (accepts c) l = spawn c l
accept_yamux_data_streams (completes c) l = end_task c l
accept_yamux_data_streams (refuses e) l = l
accept_yamux_data_streams closes l = finish (ok tt) l
