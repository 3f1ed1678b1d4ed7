-- ===== src/Server/Config/Precedence.antt =====
-- The environment after the configuration file was applied.
use ongrok_relay.Prelude.{
  text, if◌then◌else◌, ◌≡◌, refl, ap, List, [], ◌∷◌, Option, none, some, Text, text_eq, text_eq→eq,
  ok, Fallible, Bool-cases, inl, inr, arith,
}
use ongrok_relay.Server.Config.{
  ConfigFile, Environment, var, set_string, settings, set_all, path_of_args, or_else,
  load_config_environment,
}

-- The first value that is set under a name.
abbrev pub setting : Text → List (Text × Option Text) → Option Text
setting name [] = none
setting name ((first, none) ∷ rest) = setting name rest
setting name ((first, some value) ∷ rest) =
    if text_eq first name then some value else setting name rest

or_else-none : (o : Option Text) → o ≡ or_else o none
or_else-none none = refl
or_else-none (some value) = refl

var-set_all :
    (name : Text) (entries : List (Text × Option Text)) (env : Environment)
    → var name (set_all entries env) ≡ or_else (var name env) (setting name entries)
unfolding set_all var
var-set_all name [] env = or_else-none (var name env)
var-set_all name ((first, none) ∷ rest) env = var-set_all name rest env
var-set_all name ((first, some value) ∷ rest) env =
    let later = var-set_all name rest (set_string first (some value) env) in
    elim (Bool-cases (text_eq first name)) [
      | inr other ↦ ground (arith, later)
      | inl same ↦
          let held : var first env ≡ var name env =
            ap (λ n. var n env) (text_eq→eq first name same) in
          ground (arith, later, held)
    ]

-- Where the file at the path of ONGROK_CONFIG, or of the arguments without it, can be read: a
-- variable that was set keeps its value, and any other has that of the file, if the file gives one.
pub load_config_environment-var :
    (read_to_string : Text → Fallible Text) (from_str : Text → Fallible ConfigFile)
    (args : List Text) (env : Environment) (path contents name : Text) (config : ConfigFile)
    → or_else (var (text "ONGROK_CONFIG") env) (path_of_args args) ≡ some path
    → read_to_string path ≡ ok contents
    → from_str contents ≡ ok config
    → (env' : Environment) × (load_config_environment read_to_string from_str args env ≡ ok env')
      × (var name env' ≡ or_else (var name env) (setting name (settings config)))
unfolding load_config_environment
load_config_environment-var read_to_string from_str args env path contents name config there read
      parsed =
    (set_all (settings config) env, ground arith, var-set_all name (settings config) env)
