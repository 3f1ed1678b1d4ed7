-- ===== src/Server/Config/Tests.antt =====
-- The theorems on the configuration at concrete inputs.
use ongrok_relay.Prelude.{[], ◌∷◌, none, some, Text, text, ok, Fallible}
use ongrok_relay.Server.Config.{RunOptions, ConfigFile, Environment}

abbrev pub options : RunOptions
options = record {
  tls_cert = text "cert.pem";
  tls_key = text "key.pem";
  api_listen = text "127.0.0.1:8080";
  quic_listen = text "0.0.0.0:443";
  tcp_tls_listen = text "0.0.0.0:443";
  http_listen = some (text "0.0.0.0:80");
  https_listen = none;
  http_domain = some (text "relay.example.test");
  public_host = text "example.test";
  tcp_port_start = 20000;
  tcp_port_end = 30000;
  admin_token = text "admin";
  user_token = text "user";
  db_path = text "ongrok.redb";
}

abbrev file : ConfigFile
file = record {
  tls_cert = some (text "cert.pem");
  tls_key = none;
  api_listen = none;
  quic_listen = none;
  tcp_tls_listen = none;
  http_listen = none;
  https_listen = none;
  http_domain = none;
  public_host = some (text "relay.example.test");
  tcp_port_start = some 20000;
  tcp_port_end = none;
  admin_token = none;
  user_token = none;
  db_path = none;
}

abbrev read_to_string : Text → Fallible Text
read_to_string path = ok []

abbrev from_str : Text → Fallible ConfigFile
from_str contents = ok file

abbrev variables : Environment
variables = (text "ONGROK_TLS_CERT", text "mine.pem") ∷ []
