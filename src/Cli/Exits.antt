-- ===== src/Cli/Exits.antt =====
-- How `main` (libexec/wg_healthcheck_setup/cli.py) ends, and what a secret on the command line does.
use air_vpn_wg_healthcheck.Model.{Mode, SetupRequest, api_mode, static_mode}
use air_vpn_wg_healthcheck.Application.Request.{is_mode}
use air_vpn_wg_healthcheck.Cli.Execute.{
  CredentialSource, Surroundings, execute_request, execute_static, exit_code, main, run_setup,
}
use air_vpn_wg_healthcheck.Effect.{M, Message, World, literal, returned, try_except, ◌>>=◌}
use air_vpn_wg_healthcheck.Text.Split.{split_once}
use air_vpn_wg_healthcheck.Result.{err}
use air_vpn_wg_healthcheck.Prelude.{
  Bool, Bool-cases, List, Option, String, [], false, inl, inr, none, refl, some, true, ◌++◌, ◌∷◌,
  ◌≡◌, ◌≢◌, ◌⊎◌,
}
use air_vpn_wg_healthcheck.Text.{All-mem_text, Text, mem_text}
use air_vpn_wg_healthcheck.Cli.{
  Arguments, deny_secret_inputs, deny_secret_options, option_name, secret_options,
}

-- An argument that is a secret option, alone or with a value behind `=`.
pub record NamesSecret (argument : Text) : Type 0 where
  pub option : Text
  pub is_secret : mem_text option secret_options ≡ true
  pub form : (argument ≡ option) ⊎ ((secret : Text) × (argument ≡ option ++ b'=' ∷ secret))

-- The key is in the environment, or one of the arguments names a secret option.
pub data HasSecret (api_key_set : Bool) (argv : List Text) : Type 0 where
  in_environment : api_key_set ≡ true → HasSecret api_key_set argv
  in_argument :
      (before after : List Text) (argument : Text)
      → argv ≡ before ++ argument ∷ after
      → NamesSecret argument
      → HasSecret api_key_set argv

abbrev IsOption : Text → Type 0
IsOption s = (option_name s ≡ s) × ((secret : Text) → option_name (s ++ b'=' ∷ secret) ≡ s)

secret_IsOption : (s : Text) → mem_text s secret_options ≡ true → IsOption s
unfolding option_name split_once
secret_IsOption s h =
    All-mem_text IsOption s secret_options
      (
        (refl, λ v. refl),
        ((refl, λ v. refl), ((refl, λ v. refl), ((refl, λ v. refl), ((refl, λ v. refl), tt)))),
      )
      h

named_secret :
    (argument : Text) → NamesSecret argument → mem_text (option_name argument) secret_options ≡ true
named_secret argument n = elim n.form [
  | inl e ↦ rw (e, (secret_IsOption n.option n.is_secret).0) n.is_secret
  | inr (secret, e) ↦ rw (e, (secret_IsOption n.option n.is_secret).1 secret) n.is_secret
]

abbrev secret_refused : String
secret_refused =
    "secret values are not accepted in arguments; use a hidden TTY prompt or --credential-file"

deny_secret_options-err :
    (before after : List Text) (argument : Text)
    → mem_text (option_name argument) secret_options ≡ true
    → deny_secret_options (before ++ argument ∷ after) ≡ err secret_refused
unfolding deny_secret_options
deny_secret_options-err [] after argument h = rw h refl
deny_secret_options-err (a ∷ before) after argument h =
    elim (Bool-cases (mem_text (option_name a) secret_options)) [
      | inl e ↦ rw e refl
      | inr n ↦ rw n (deny_secret_options-err before after argument h)
    ]

deny_secret_inputs-err :
    (api_key_set : Bool) (argv : List Text)
    → HasSecret api_key_set argv
    → (message : String) × (deny_secret_inputs api_key_set argv ≡ err message)
unfolding deny_secret_inputs
deny_secret_inputs-err api_key_set argv (in_environment e) = (
  "AIRVPN_API_KEY environment input is not accepted; use a hidden TTY prompt or --credential-file",
  rw e refl,
)
deny_secret_inputs-err true argv (in_argument before after argument e n) = (
  "AIRVPN_API_KEY environment input is not accepted; use a hidden TTY prompt or --credential-file",
  refl,
)
deny_secret_inputs-err false argv (in_argument before after argument e n) =
    (secret_refused, rw e (deny_secret_options-err before after argument (named_secret argument n)))

-- Nothing but its result.
abbrev pub IsSilent : {A : Type 0} → M A → A → Type 0
IsSilent m a = (w : World) → m w ≡ (returned a, w)

module _ (around : Surroundings) (source : CredentialSource) (disable_core_dumps : M (Unit {0}))
    (parse : List Text → M Arguments) (print_error : Message → M (Unit {0})) where
  main_refuses :
      (api_key_set : Bool) (argv lines : List Text) (w : World)
      → IsSilent disable_core_dumps tt
      → ((message : Message) → IsSilent (print_error message) tt)
      → HasSecret api_key_set argv
      → main around source disable_core_dumps parse print_error api_key_set argv lines w
        ≡ (returned 64, w)
  unfolding main run_setup exit_code try_except ◌>>=◌
  main_refuses api_key_set argv lines w silent printed has =
      let (message, refused) = deny_secret_inputs-err api_key_set argv has in
      rw (silent w, refused, printed (literal message) w) refl

-- A secret on the command line or in the environment ends the program with exit status 64 before anything
-- else: whatever the parser, the terminal, the credential source and the helper processes would do, no
-- system call is made and the disk is as it was. Switching off core dumps and printing the message are taken
-- to succeed.
pub main-HasSecret :
    (around : Surroundings) (source : CredentialSource) (disable_core_dumps : M (Unit {0}))
    (parse : List Text → M Arguments) (print_error : Message → M (Unit {0})) (api_key_set : Bool)
    (argv lines : List Text) (w : World)
    → IsSilent disable_core_dumps tt
    → ((message : Message) → IsSilent (print_error message) tt)
    → HasSecret api_key_set argv
    → main around source disable_core_dumps parse print_error api_key_set argv lines w
      ≡ (returned 64, w)
main-HasSecret = main_refuses

-- Outside API mode, `execute_request` does the same whatever the source of credentials is: it opens none.
pub execute_request-source :
    (around : Surroundings) (source other : CredentialSource) (request : SetupRequest)
    (lines : List Text)
    → request.mode ≢ some api_mode
    → execute_request around source request lines ≡ execute_request around other request lines
unfolding execute_request execute_static
execute_request-source around source other request lines n = rw (not_api request.mode n) refl
  where
    not_api : (mode : Option Mode) → mode ≢ some api_mode → is_mode api_mode mode ≡ false
    not_api none n = refl
    not_api (some static_mode) n = refl
    not_api (some api_mode) n = absurd (n refl)
