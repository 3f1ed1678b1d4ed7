-- ===== src/Server/System.antt =====
-- The server as a whole: the sessions and the requests of the control API of
-- crates/ongrok-relay-server/src/server.rs, in any order. A session is as many steps as it has frames, so
-- that the frames of different sessions interleave; each step runs to its end before the next one begins.
use ongrok_relay.Prelude.{ℕ, ◌≤◌, Bool}
use ongrok_relay.BTree.Order.{IsSorted}
use ongrok_relay.Libongrok.Types.{Frame}
use ongrok_relay.Server.State.{Platform, World}
use ongrok_relay.Server.Registry.Invariant.{IsValid}
use ongrok_relay.Server.Registry.Bystanders.{SameRegistry-IsValid, leave-IsBystander}
use ongrok_relay.Server.Session.{Peer, Client, handle_frame, leave}
use ongrok_relay.Server.Session.Validity.{handle_frame-Keeps}
use ongrok_relay.Server.Session.Order.{handle_frame-IsSorted, leave-IsSorted}
use ongrok_relay.Server.Api.Handler.Order.{api_handler-IsSorted}
use ongrok_relay.Server.Api.{Request, Formats}
use ongrok_relay.Server.Api.Handler.{api_handler}
use ongrok_relay.Server.Api.Handler.Validity.{api_handler-IsValid}

module _ {P : Platform} (F : Formats) where
  -- One thing that the server does: a session's frame, a session's end, a request, or the clock.
  pub data Step : World P → World P → Type 0 where
    frame :
        (c : Client) (registered : Bool) (f : Frame) (p : Peer P)
        → Step p.world (handle_frame c registered f p).1.world
    ending : (c : Client) (w : World P) → Step w (leave c w).1
    request : (r : Request) (w : World P) → Step w (api_handler F r w).1
    tick : (later : ℕ) (w : World P) → w.now ≤ later → Step w (record w { now = later })

  pub data Reach : World P → World P → Type 0 where
    start : (w : World P) → Reach w w
    step : {u v w : World P} → Reach u v → Step v w → Reach u w

  Step-IsValid : {v w : World P} → Step v w → IsValid v.app → IsValid w.app
  Step-IsValid (frame c registered f p) h = handle_frame-Keeps c registered f p h
  Step-IsValid (ending c w) h = SameRegistry-IsValid w.app _ (leave-IsBystander c w) h
  Step-IsValid (request r w) h = api_handler-IsValid F r w h
  Step-IsValid (tick later w m) h = h

  -- From a valid registry, however the frames of any number of sessions, their ends and the requests
  -- of the control API interleave: no two services have one name, no two TCP services have one port,
  -- every TCP service has a port of the range, and every other one a host below the domain.
  pub Reach-IsValid : {v w : World P} → Reach v w → IsValid v.app → IsValid w.app
  Reach-IsValid (start w) h = h
  Reach-IsValid (step r s) h = Step-IsValid s (Reach-IsValid r h)

  Step-IsSorted : {v w : World P} → Step v w → IsSorted v.app.sessions → IsSorted w.app.sessions
  Step-IsSorted (frame c registered f p) h = handle_frame-IsSorted c registered f p h
  Step-IsSorted (ending c w) h = leave-IsSorted c w h
  Step-IsSorted (request r w) h = api_handler-IsSorted F r w h
  Step-IsSorted (tick later w m) h = h

  pub Reach-IsSorted :
      {v w : World P} → Reach v w → IsSorted v.app.sessions → IsSorted w.app.sessions
  Reach-IsSorted (start w) h = h
  Reach-IsSorted (step r s) h = Step-IsSorted s (Reach-IsSorted r h)
