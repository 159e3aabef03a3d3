-- ===== src/Cli.antt =====
-- The command line of the guided setup: libexec/wg_healthcheck_setup/cli.py. What `argparse` makes of the
-- arguments is the record `Arguments`; `words`, `upper`, `lower` and `strip` stand for Python's methods
-- `split`, `upper`, `lower` and `strip` of a string, on the characters beyond ASCII the Unicode tables of
-- the runtime.
pub mod Resolve
pub mod Countries
pub mod Resolved
pub mod Prompts
pub mod Answered
pub mod Typed
pub mod Decided
pub mod Summary
pub mod Execute
pub mod Exits
pub mod Refused
use air_vpn_wg_healthcheck.Prelude.{Bool, List, Option, [], if◌then◌else◌, none, some, ◌∷◌}
use air_vpn_wg_healthcheck.Text.{Text, codes, mem_text}
use air_vpn_wg_healthcheck.Model.{Action, Timer}
use air_vpn_wg_healthcheck.Result.{Result, err, ok, raise_if, ◌>>=◌, ◌>>◌}
use air_vpn_wg_healthcheck.Text.Split.{split_once}

-- `argparse.Namespace`, with the destinations of `build_parser`
pub record Arguments : Type 0 where
  pub iface : Text
  pub mode : Option Text
  pub action : Option Action
  pub timer : Option Timer
  pub device : Option Text
  pub countries : Option Text
  pub credential_file : Option Text
  pub non_interactive : Bool
  pub restore_pre_managed : Bool
  pub replace_credential : Bool
  pub remove_credential : Bool
  pub reset_api_state : Bool

-- `_SECRET_OPTIONS`
abbrev pub secret_options : List Text
secret_options =
    codes "--api-key"
    ∷ codes "--apikey"
    ∷ codes "--secret"
    ∷ codes "--token"
    ∷ codes "--credential-value"
    ∷ []

-- argument.split("=", 1)[0]
unfoldable pub option_name : Text → Text
option_name argument = elim (split_once b'=' argument) [
  | none ↦ argument
  | some (name, value) ↦ name
]

unfoldable pub deny_secret_options : List Text → Result (Unit {0})
deny_secret_options [] = ok tt
deny_secret_options (argument ∷ arguments) =
    let rest = deny_secret_options arguments in
    if mem_text (option_name argument) secret_options
    then err
        "secret values are not accepted in arguments; use a hidden TTY prompt or --credential-file"
    else rest

-- `_deny_secret_inputs`; `api_key_set` says whether the environment has AIRVPN_API_KEY.
unfoldable pub deny_secret_inputs : Bool → List Text → Result (Unit {0})
deny_secret_inputs api_key_set argv = do
  raise_if api_key_set
      "AIRVPN_API_KEY environment input is not accepted; use a hidden TTY prompt or --credential-file"
  deny_secret_options argv
