-- ===== src/Client/Commands.antt =====
-- The commands of a client, of crates/ongrok-relay-client/src/main.rs: `main`, `doctor`,
-- `services_list` and `print_services_response`. What is printed is the result; clap, the parser of
-- URLs, TLS and the HTTP client are parameters.
use ongrok_relay.Prelude.{
  ℕ, Bool, false, ◌&&◌, ◌||◌, not, List, [], ◌++◌, Option, none, some, Text, text, text_eq, leb,
  if◌then◌else◌, is_ok, ok, err, Fallible, Wait, timely, in_time, bind, or_fail, context, map_err,
  M, ◌>>=◌, ◌>>◌, pure, fail, lift,
}
use ongrok_relay.Libongrok.Types.{Protocol, ServiceDefinition}
use ongrok_relay.Libongrok.Validation.{validate_service_name, validation_message}
use ongrok_relay.Client.Link.{Link, fresh}
use ongrok_relay.Client.Identity.{NodeState, Json, Disk, state_path, load_or_create_state}
use ongrok_relay.Client.Session.{Host, Job}
use ongrok_relay.Client.Dial.{CaFile, QuicRoute, TcpRoute, load_roots, probe_quic, probe_tcp_tls}
use ongrok_relay.Client.Retry.{RelayEndpoints, Weather, Progress, run_with_fallback}

pub data ProtocolArg : Type 0 where
  http https tcp : ProtocolArg

abbrev pub protocol_of : ProtocolArg → Protocol
protocol_of ProtocolArg.http = Protocol.http
protocol_of ProtocolArg.https = Protocol.https
protocol_of ProtocolArg.tcp = Protocol.tcp

-- The arguments of `service publish`, and the identifier that is drawn for the service.
pub record PublishArgs : Type 0 where
  pub name : Text
  pub local_address : Text
  pub protocol : ProtocolArg
  pub public_host : Option Text
  pub public_port : Option ℕ
  pub service_id : ℕ

unfoldable pub service_to_publish : PublishArgs → NodeState → ServiceDefinition
service_to_publish args state = record {
  service_id = args.service_id;
  service_name = args.name;
  node_id = state.node_id;
  protocol = protocol_of args.protocol;
  local_address = args.local_address;
  public_host = args.public_host;
  public_port = args.public_port;
  metadata = record { entries = [] };
}

-- A URL as `http::Uri` reads it.
pub record Uri : Type 0 where
  pub scheme : Option Text
  pub authority : Option Text
  pub host : Option Text
  pub port : Option ℕ

pub record HttpResponse : Type 0 where
  pub status : ℕ
  pub status_text : Text
  pub body : Fallible Text

-- The crates and the network of `services_list`. `request` builds a request from a URL and a header.
pub record Web : Type 0 where
  pub parse : Text → Fallible Uri
  pub request : (url authorization : Text) → Fallible (Unit {0})
  pub send : (url authorization : Text) → Fallible HttpResponse
  pub name : Text → Fallible (Unit {0})
  pub socket : Text → ℕ → Wait (Unit {0})
  pub tls : Text → Wait (Unit {0})
  pub handshake : Fallible (Unit {0})
  pub from_utf8_lossy : Text → Text

abbrev or_default : Option ℕ → ℕ
or_default none = 443
or_default (some port) = port

module _ (N : Web) where
  abbrev is_success : ℕ → Bool
  is_success status = leb 200 status && leb status 299

  -- What is printed.
  unfoldable pub print_services_response : HttpResponse → Fallible Text
  print_services_response response =
      bind (map_err (λ e. text "failed to read services response: " ++ e) response.body) (λ body.
        if is_success response.status
        then ok (N.from_utf8_lossy body)
        else err (
            text "server returned " ++ response.status_text ++ text ": " ++ N.from_utf8_lossy body))

  abbrev ask : (url token failed : Text) → Fallible Text
  ask url token failed = bind (context (N.parse url) (text "failed to build services URL")) (λ _.
      bind (N.request url (text "Bearer " ++ token))
        (λ _. bind (context (N.send url (text "Bearer " ++ token)) failed) print_services_response))

  unfoldable pub services_list_http : (authority token : Text) → Fallible Text
  services_list_http authority token =
      ask (text "http://" ++ authority ++ text "/v1/services") token
        (text "services request failed")

  unfoldable pub services_list_https : CaFile → Uri → (authority token : Text) → Fallible Text
  unfolding load_roots
  services_list_https ca base authority token = bind (load_roots ca) (λ _.
      bind (or_fail base.host (text "server URL host is empty")) (λ host.
        bind (context (N.name host) (text "server URL host is not a valid DNS name")) (λ _.
          bind
            (in_time (timely 10000 (N.socket host (or_default base.port)))
              (text "HTTPS control API connection timed out"))
            (λ _.
              bind
                (in_time (timely 15000 (N.tls host))
                  (text "HTTPS control API TLS handshake timed out"))
                (λ _.
                  bind (context N.handshake (text "HTTPS control API HTTP handshake failed")) (λ _.
                    ask (text "https://" ++ authority ++ text "/v1/services") token
                      (text "HTTPS services request failed")))))))

  unfoldable pub services_list : (server token : Text) → Option CaFile → Fallible Text
  unfolding services_list_http services_list_https
  services_list server token ca_cert =
      bind (context (N.parse server) (text "server must be an absolute HTTP URL")) (λ base.
        bind (or_fail base.scheme (text "server URL needs a scheme")) (λ scheme.
          bind (or_fail base.authority (text "server URL needs an authority")) (λ authority.
            if text_eq scheme (text "http")
            then services_list_http authority token
            else if not (text_eq scheme (text "https"))
            then err (text "server URL must use http:// or https://")
            else bind (or_fail ca_cert (text "--ca-cert is required for an https:// server"))
                (λ ca. services_list_https ca base authority token))))

module _ (J : Json) (project_dirs : Option (Option Text)) (state_dir : Option Text) where
  -- `init` and `status`.
  unfoldable pub show_state : M Disk NodeState
  unfolding state_path load_or_create_state
  show_state = do path ← lift (state_path project_dirs state_dir); load_or_create_state J path

  abbrev probed : Fallible (Unit {0}) × Link → Bool
  probed (result, link) = is_ok result

  abbrev tcp_probed : CaFile → Option TcpRoute → Bool
  tcp_probed ca none = false
  tcp_probed ca (some route) = probed (probe_tcp_tls ca route (fresh 0 0))

  unfoldable pub doctor : CaFile → QuicRoute → Option TcpRoute → M Disk (Unit {0})
  unfolding show_state load_roots probe_quic probe_tcp_tls
  doctor ca quic tcp_tls = do
    state ← show_state
    roots ← lift (load_roots ca)
    if probed (probe_quic ca quic (fresh 0 0)) || tcp_probed ca tcp_tls
        then pure tt
        else fail (text "no configured relay transport is reachable")

  -- `run`, by the state that it leaves and how far it gets.
  unfoldable pub run_command :
      Host → CaFile → RelayEndpoints → Text → Bool → List Weather → M Disk Progress
  unfolding show_state
  run_command H ca endpoints token once weathers = do
    state ← show_state
    let job : Job = record { state = state; token = token; service = none; once = once }
    pure (run_with_fallback H ca job endpoints weathers)

  unfoldable pub publish_command :
      Host → CaFile → RelayEndpoints → Text → PublishArgs → Bool → List Weather → M Disk Progress
  unfolding show_state service_to_publish
  publish_command H ca endpoints token args once weathers = do
    lift (map_err validation_message (validate_service_name args.name))
    state ← show_state
    let job : Job = record {
      state = state;
      token = token;
      service = some (service_to_publish args state);
      once = once;
    }
    pure (run_with_fallback H ca job endpoints weathers)
