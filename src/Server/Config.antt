-- ===== src/Server/Config.antt =====
-- config.rs of crates/ongrok-relay-server/src: the options of the server, their validation, and the
-- configuration file. An address is its text, as `Display` prints it; the file, TOML and clap are
-- parameters.
pub mod Options
pub mod Precedence
pub mod Tests
use ongrok_relay.Prelude.{
  ℕ, Bool, true, false, ◌&&◌, ◌||◌, not, List, [], ◌∷◌, ◌++◌, Option, none, some, Text, text,
  text_eq, strip_prefix, starts_with, decimal, length, ltb, leb, ◌==◌, if◌then◌else◌, is_some, ok,
  err, Error, Fallible, bind, context,
}
use ongrok_relay.Libongrok.Types.{TokenKind}

pub data TokenKindArg : Type 0 where
  admin user : TokenKindArg

abbrev pub token_kind : TokenKindArg → TokenKind
token_kind TokenKindArg.admin = TokenKind.admin
token_kind TokenKindArg.user = TokenKind.user

pub record RunOptions : Type 0 where
  pub tls_cert : Text
  pub tls_key : Text
  pub api_listen : Text
  pub quic_listen : Text
  pub tcp_tls_listen : Text
  pub http_listen : Option Text
  pub https_listen : Option Text
  pub http_domain : Option Text
  pub public_host : Text
  pub tcp_port_start : ℕ
  pub tcp_port_end : ℕ
  pub admin_token : Text
  pub user_token : Text
  pub db_path : Text

unfoldable pub wildcard : Text
wildcard = text "0.0.0.0:0"

abbrev pub or_wildcard : Option Text → Text
or_wildcard none = wildcard
or_wildcard (some address) = address

-- A white-space character of Unicode at the head of a text: in ASCII, U+0085, U+00A0, U+1680, U+2000
-- to U+200A, U+2028, U+2029, U+202F, U+205F and U+3000.
abbrev is_space_of_three : ℕ → Text → Bool
is_space_of_three a (b ∷ c ∷ _) =
    a == 225 && b == 154 && c == 128
    || a == 226 && b == 128 && leb 128 c && leb c 138
    || a == 226 && b == 128 && (c == 168 || c == 169 || c == 175)
    || a == 226 && b == 129 && c == 159
    || a == 227 && b == 128 && c == 128
is_space_of_three a _ = false

abbrev is_space : ℕ → Text → Bool
is_space a rest =
    leb 9 a && leb a 13
    || a == 32
    || a == 194 && (starts_with rest (133 ∷ []) || starts_with rest (160 ∷ []))
    || is_space_of_three a rest

unfoldable pub has_whitespace : Text → Bool
has_whitespace [] = false
has_whitespace (a ∷ rest) = is_space a rest || has_whitespace rest

abbrev pub is_bad_domain : Option Text → Bool
is_bad_domain none = false
is_bad_domain (some domain) = length domain == 0 || ltb 253 (length domain) || has_whitespace domain

-- The later listeners, against one.
unfoldable pub check_against : Text → Text → List (Text × Text) → Fallible (Unit {0})
check_against left_name left [] = ok tt
check_against left_name left ((right_name, right) ∷ rest) =
    if not (text_eq right wildcard) && text_eq left right
    then err (
        left_name
        ++ text " and "
        ++ right_name
        ++ text " listeners use the same TCP address "
        ++ left)
    else check_against left_name left rest

unfoldable pub check_listeners : List (Text × Text) → Fallible (Unit {0})
unfolding check_against
check_listeners [] = ok tt
check_listeners ((name, address) ∷ rest) =
    let later = check_listeners rest in
    if text_eq address wildcard then later else bind (check_against name address rest) (λ _. later)

abbrev pub tcp_listeners : RunOptions → List (Text × Text)
tcp_listeners options =
    (text "api", options.api_listen)
    ∷ (text "tcp-tls", options.tcp_tls_listen)
    ∷ (text "http", or_wildcard options.http_listen)
    ∷ (text "https", or_wildcard options.https_listen)
    ∷ []

abbrev pub bool_ne : Bool → Bool → Bool
bool_ne true b = not b
bool_ne false b = b

unfoldable pub validate_run_options : RunOptions → Fallible (Unit {0})
unfolding check_listeners
validate_run_options options =
    if ltb options.tcp_port_end options.tcp_port_start
    then err (text "tcp port start must not exceed tcp port end")
    else if bool_ne (is_some options.http_listen || is_some options.https_listen)
        (is_some options.http_domain)
    then err (text "--http-domain is required when --http-listen or --https-listen is configured")
    else if is_bad_domain options.http_domain
    then err (text "--http-domain must be a non-empty hostname without whitespace")
    else check_listeners (tcp_listeners options)

pub record ConfigFile : Type 0 where
  pub tls_cert : Option Text
  pub tls_key : Option Text
  pub api_listen : Option Text
  pub quic_listen : Option Text
  pub tcp_tls_listen : Option Text
  pub http_listen : Option Text
  pub https_listen : Option Text
  pub http_domain : Option Text
  pub public_host : Option Text
  pub tcp_port_start : Option ℕ
  pub tcp_port_end : Option ℕ
  pub admin_token : Option Text
  pub user_token : Option Text
  pub db_path : Option Text

abbrev pub Environment : Type 0
Environment = List (Text × Text)

unfoldable pub var : Text → Environment → Option Text
var name [] = none
var name ((first, value) ∷ rest) = if text_eq first name then some value else var name rest

abbrev argument_after : List Text → Option Text
argument_after [] = none
argument_after (path ∷ _) = some path

unfoldable pub path_of_args : List Text → Option Text
path_of_args [] = none
path_of_args (arg ∷ rest) =
    let later = path_of_args rest in
    if text_eq arg (text "--config")
    then argument_after rest
    else elim (strip_prefix (text "--config=") arg) [ some value ↦ some value | none ↦ later ]

abbrev pub or_else : Option Text → Option Text → Option Text
or_else (some value) other = some value
or_else none other = other

abbrev pub set_string : Text → Option Text → Environment → Environment
set_string name none env = env
set_string name (some value) env = if is_some (var name env) then env else (name, value) ∷ env

abbrev pub printed : Option ℕ → Option Text
printed none = none
printed (some n) = some (decimal n)

-- The variables that are set, in this order.
abbrev pub settings : ConfigFile → List (Text × Option Text)
settings config =
    (text "ONGROK_TLS_CERT", config.tls_cert)
    ∷ (text "ONGROK_TLS_KEY", config.tls_key)
    ∷ (text "ONGROK_API_LISTEN", config.api_listen)
    ∷ (text "ONGROK_QUIC_LISTEN", config.quic_listen)
    ∷ (text "ONGROK_TCP_TLS_LISTEN", config.tcp_tls_listen)
    ∷ (text "ONGROK_HTTP_LISTEN", config.http_listen)
    ∷ (text "ONGROK_HTTPS_LISTEN", config.https_listen)
    ∷ (text "ONGROK_HTTP_DOMAIN", config.http_domain)
    ∷ (text "ONGROK_PUBLIC_HOST", config.public_host)
    ∷ (text "ONGROK_TCP_PORT_START", printed config.tcp_port_start)
    ∷ (text "ONGROK_TCP_PORT_END", printed config.tcp_port_end)
    ∷ (text "ONGROK_ADMIN_TOKEN", config.admin_token)
    ∷ (text "ONGROK_USER_TOKEN", config.user_token)
    ∷ (text "ONGROK_DB_PATH", config.db_path)
    ∷ []

unfoldable pub set_all : List (Text × Option Text) → Environment → Environment
set_all [] env = env
set_all ((name, value) ∷ rest) env = set_all rest (set_string name value env)

abbrev pub apply_file :
    (Text → Fallible Text)
    → (Text → Fallible ConfigFile)
    → Option Text
    → Environment
    → Fallible Environment
apply_file read_to_string from_str none env = ok env
apply_file read_to_string from_str (some path) env =
    bind (context (read_to_string path) (text "failed to read config file " ++ path)) (λ contents.
      bind (context (from_str contents) (text "failed to parse TOML config " ++ path))
        (λ config. ok (set_all (settings config) env)))

-- The environment that is left. `args` are the arguments after the program's name.
unfoldable pub load_config_environment :
    (Text → Fallible Text)
    → (Text → Fallible ConfigFile)
    → List Text
    → Environment
    → Fallible Environment
unfolding path_of_args set_all
load_config_environment read_to_string from_str args env =
    apply_file read_to_string from_str
      (or_else (var (text "ONGROK_CONFIG") env) (path_of_args args)) env
