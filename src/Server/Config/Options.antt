-- ===== src/Server/Config/Options.antt =====
-- Which options `validate_run_options` accepts.
use ongrok_relay.Prelude.{
  ◌≤◌, ◌≡◌, ◌≢◌, ◌⊎◌, false, ◌||◌, List, [], ◌∷◌, Option, none, some, Text, length, is_some, All,
  map,
}
use ongrok_relay.Server.Config.{RunOptions, wildcard, has_whitespace, tcp_listeners}

-- Of two listeners before and after one another, the first is not bound or they differ.
abbrev pub Apart : List Text → Type 0
Apart [] = Unit
Apart (a ∷ rest) = ((a ≡ wildcard) ⊎ All (λ b. a ≢ b) rest) × Apart rest

abbrev pub IsDomain : Option Text → Type 0
IsDomain none = Unit
IsDomain (some domain) =
    (1 ≤ length domain) × (length domain ≤ 253) × (has_whitespace domain ≡ false)

-- The ports are a range, there is a domain exactly if there is an ingress of HTTP, it is short and
-- without white space, and no two TCP listeners share an address.
pub record IsSound (options : RunOptions) : Type 0 where
  pub ports : options.tcp_port_start ≤ options.tcp_port_end
  pub domain :
      is_some options.http_domain ≡ (is_some options.http_listen || is_some options.https_listen)
  pub hostname : IsDomain options.http_domain
  pub apart : Apart (map (λ e. e.1) (tcp_listeners options))

abbrev addresses : List (Text × Text) → List Text
addresses listeners = map (λ e. e.1) listeners
