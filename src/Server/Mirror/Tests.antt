-- ===== src/Server/Mirror/Tests.antt =====
-- The stored services at a concrete run, with a format that writes every service.
pub mod Encoding
use ongrok_relay.Prelude.{
  ℕ, zero, suc, ◌≡◌, refl, subst, List, [], ◌∷◌, ◌++◌, ◌+◌, text, Option, none, some, Text, ok, err,
  Fallible, true, length, take, drop, take-append, drop-append, arith,
}
use ongrok_relay.Server.Config.{validate_run_options, has_whitespace, wildcard}
use ongrok_relay.Prelude.{text_eq}
use ongrok_relay.Server.Registry.{register_service, admit}
use ongrok_relay.Libongrok.Validation.{validate_service_name, validate}
use ongrok_relay.Server.Relay.{first_available_tcp_port, ensure_tcp_ingress}
use ongrok_relay.Server.Store.{put, set_row, load_or_initialize_tokens, row}
use ongrok_relay.Server.Session.{write}
use ongrok_relay.Server.State.{record_event}
use ongrok_relay.Server.Store.History.{load_nodes, put_event}
use ongrok_relay.BTree.{lookup}
use ongrok_relay.Libongrok.Types.{ServiceDefinition, Protocol, Metadata, Frame}
use ongrok_relay.Server.State.{World, AppState, Platform}
use ongrok_relay.Server.Session.{Peer, handle_frame}
use ongrok_relay.Server.Registry.Invariant.{IsValid}
use ongrok_relay.Server.Store.{Format, Redb, load_services, load_rows}
use ongrok_relay.Server.Store.Tests.{engine, tables}
use ongrok_relay.Server.System.{Step, Reach}
use ongrok_relay.Server.Mirror.Tables.{platform}
use ongrok_relay.Server.Mirror.Restart.{Reach-prepare}
use ongrok_relay.Server.Start.{TlsFiles, prepare}
use ongrok_relay.Server.Config.Tests.{options}
use ongrok_relay.Server.Config.{RunOptions}
use ongrok_relay.Server.Tests.{formats, member, ssh}
use ongrok_relay.Server.Mirror.Tests.Encoding.{encode, all_services}

abbrev pub durable_engine : Redb
durable_engine = record engine { service_format = all_services }

abbrev pub few_ports : RunOptions
few_ports = record options { tcp_port_end = 20001 }

abbrev pub no_uuid : ℕ → ℕ
no_uuid n = n + 100

abbrev pub relay_on_disk : Platform
relay_on_disk = platform durable_engine (λ t. t) (λ ports port. ok tt) no_uuid

abbrev pub fresh : World relay_on_disk
fresh = record {
  app = record {
    tokens = record { admin_hash = none; user_hash = none };
    services = [];
    nodes = [];
    sessions = [];
    tcp_ingress_tasks = [];
    public_host = few_ports.public_host;
    http_domain = few_ports.http_domain;
    tcp_port_start = few_ports.tcp_port_start;
    tcp_port_end = few_ports.tcp_port_end;
    store = record tables { services = []; tokens = (text "state", text "hash") ∷ [] };
  };
  now = 5000;
  drawn = 0;
  closed = [];
}

pub fresh-IsValid : IsValid fresh.app
unfolding lookup
fresh-IsValid = record {
  sorted = tt;
  entries = λ k b e. absurd cc;
  names = λ i j a b e. absurd cc;
  ports = λ i j a b e. absurd cc;
}

abbrev publishing : Peer relay_on_disk
publishing = record { world = fresh; sent = []; budget = 9 }

-- A TCP service is published, and then time passes.
abbrev published : World relay_on_disk
published = (handle_frame member true (Frame.register_service ssh) publishing).1.world

abbrev later : World relay_on_disk
later = record published { now = published.now + 1 }

published-later : Reach formats fresh later
published-later =
    Reach.step
      (Reach.step (Reach.start fresh)
        (Step.frame member true (Frame.register_service ssh) publishing))
      (Step.tick (published.now + 1) published (omega arith))

-- The files of a certificate and its key that can be used.
abbrev files : TlsFiles
files = record {
  cert_opened = ok tt;
  certificates = ok (text "certificate" ∷ []);
  key_opened = ok tt;
  key = ok (some (text "key"));
  versions = ok tt;
  single_cert = ok tt;
  quic = ok tt;
}

abbrev app_of : Fallible (AppState relay_on_disk) → AppState relay_on_disk
app_of (ok s) = s
app_of (err e) = fresh.app

abbrev restarted : AppState relay_on_disk
restarted = app_of (prepare few_ports files (ok later.app.store))

Reach-prepare_example :
    IsValid restarted × ((k : ℕ) → lookup k restarted.services ≡ lookup k later.app.services)
unfolding load_services load_rows prepare validate_run_options text has_whitespace text_eq wildcard
    lookup handle_frame register_service admit validate_service_name validate
    first_available_tcp_port put ensure_tcp_ingress write record_event set_row
    load_or_initialize_tokens row load_nodes put_event
Reach-prepare_example =
    Reach-prepare durable_engine (λ a db. refl) (λ s. (encode s, refl)) (λ t. t)
      (λ ports port. ok tt) no_uuid formats published-later fresh-IsValid tt refl few_ports files
      restarted refl
      (record { same_host = refl; same_domain = refl; same_start = refl; same_end = refl })
