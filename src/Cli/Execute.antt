-- ===== src/Cli/Execute.antt =====
-- `execute_request` and `main` (libexec/wg_healthcheck_setup/cli.py). The operations of private_io.py that
-- supply a credential are an interface, and the terminal is `ask` and `write` as in the questions. An
-- interrupt is KeyboardInterrupt here: the exit of `argparse` behind --help is not modelled, so that `parse`
-- returns the arguments or raises SetupError.
use air_vpn_wg_healthcheck.Clients.{fetch_public_countries}
use air_vpn_wg_healthcheck.Os.{geteuid_call, silent_call}
use air_vpn_wg_healthcheck.Credential.{api_requires_proposed_credential, is_some}
use air_vpn_wg_healthcheck.Model.Selection.{normalize_country_selection}
use air_vpn_wg_healthcheck.Prelude.{
  Bool, List, Option, false, if◌then◌else◌, none, not, some, true, ℕ, ◌&&◌, ◌==◌, ◌||◌,
}
use air_vpn_wg_healthcheck.Text.{Text, codes}
use air_vpn_wg_healthcheck.Effect.{
  Exception, M, Message, end_of_input, interrupt, literal, os_error, pure, raise, raise_if, setup,
  setup_error, system_call, try_except, try_finally, when, ◌>>=◌, ◌>>◌,
}
use air_vpn_wg_healthcheck.Model.{SetupRequest, api_mode}
use air_vpn_wg_healthcheck.System.{Run, Target, lift}
use air_vpn_wg_healthcheck.Cli.{Arguments, deny_secret_inputs}
use air_vpn_wg_healthcheck.Cli.Prompts.{complete_interactive_request, input_line}
use air_vpn_wg_healthcheck.Cli.Summary.{render_country_menu, render_summary}
use air_vpn_wg_healthcheck.Cli.Resolve.{resolve_request}
use air_vpn_wg_healthcheck.Application.Request.{
  apply_setup_request, is_apply, is_mode, preview_api_request, preview_maintenance,
}

-- What `execute_request` uses of private_io.py.
pub record CredentialSource : Type 0 where
  pub open_file : Text → M ℕ
  pub read_hidden : M ℕ

-- What it uses of Python's own functions and of the processes around it.
pub record Surroundings : Type 0 where
  pub run : Run
  pub now : M ℕ
  pub ask : Text → M (Unit {0})
  pub write : Text → M (Unit {0})
  pub is_printable : ℕ → Bool
  pub upper : Text → Text
  pub lower : Text → Text
  pub strip : Text → Text
  pub words : Text → List Text

-- `LiveApplyPaths.for_interface`, as far as it is no file
abbrev pub live_target : SetupRequest → Target
live_target request = record { iface = request.iface; trusted_uid = 0 }

module _ (around : Surroundings) (source : CredentialSource) where
  -- the branch of `execute_request` for every other mode than API
  unfoldable pub execute_static : SetupRequest → M SetupRequest
  execute_static request = do
    around.write (render_summary request)
    around.write (codes "Static setup plan validated; no API credential was opened.\n")
    if is_apply request.action
        then apply_setup_request around.run request (live_target request) around.now none
          >> around.write (codes "Static setup applied and freshly verified.\n")
        else when (request.restore_pre_managed || request.reset_api_state) (
            preview_maintenance around.run request (live_target request)
            >> around.write (codes "Maintenance dry run succeeded; no state was changed.\n"))
    pure request

  unfoldable pub selection_text : SetupRequest → List Text → M Text
  selection_text request lines = elim request.countries_text [
    | some text ↦ pure text
    | none ↦ do
      (text, rest) ←
          input_line around.ask around.write around.strip around.lower
            (codes "Countries (numbers/codes in order, or ALL): ") lines
      pure text
  ]

  -- credential_context, entered
  unfoldable pub open_credential : Bool → Option Text → M (Option ℕ)
  open_credential false file = pure none
  open_credential true none = do fd ← source.read_hidden; pure (some fd)
  open_credential true (some path) = do fd ← source.open_file path; pure (some fd)

  -- credential_context, left: `nullcontext` has nothing to close
  unfoldable pub close_credential : Option ℕ → M (Unit {0})
  close_credential none = pure tt
  close_credential (some fd) = system_call silent_call

  unfoldable pub check_proposal : SetupRequest → Bool → M (Unit {0})
  check_proposal request needs_proposal = do
    raise_if (needs_proposal && request.non_interactive && not (is_some request.credential_file))
        (setup "initial API setup and credential replacement require --credential-file")
    raise_if (not needs_proposal && is_some request.credential_file)
        (setup "an installed credential is reused; add --replace-credential to replace it")

  unfoldable pub with_credential : SetupRequest → Option ℕ → M (Unit {0})
  with_credential request supplied =
      if is_apply request.action
      then apply_setup_request around.run request (live_target request) around.now supplied
      else preview_api_request around.run request (live_target request) supplied

  unfoldable pub report_api : SetupRequest → M (Unit {0})
  report_api request =
      if is_apply request.action
      then around.write (codes "API setup applied and freshly verified.\n")
      else (do
        around.write (codes "Authenticated dry-run validation succeeded (manifest redacted).\n")
        when request.reset_api_state
            (around.write (codes "API-state reset dry run succeeded; no state was removed.\n")))

  -- the part of `execute_request` behind the choice of the countries
  unfoldable pub execute_selected : SetupRequest → M SetupRequest
  execute_selected request = do
    around.write (render_summary request)
    needs_proposal ← api_requires_proposed_credential request (live_target request)
    check_proposal request needs_proposal
    supplied ← open_credential needs_proposal request.credential_file
    try_finally (with_credential request supplied) (close_credential supplied)
    report_api request
    pure request

  unfoldable pub execute_api : SetupRequest → List Text → M SetupRequest
  execute_api request lines = do
    countries ← fetch_public_countries around.run around.is_printable
    when (not request.non_interactive) (around.write (render_country_menu countries))
    text ← selection_text request lines
    selection ← lift (normalize_country_selection around.upper (around.words text) countries)
    execute_selected (record request { country_selection = some selection })

  -- `execute_request`
  unfoldable pub execute_request : SetupRequest → List Text → M SetupRequest
  execute_request request lines =
      if is_mode api_mode request.mode then execute_api request lines else execute_static request

  module _ (disable_core_dumps : M (Unit {0})) (parse : List Text → M Arguments)
      (print_error : Message → M (Unit {0})) where
    -- the body of the `try` of `main`
    unfoldable pub run_setup : Bool → List Text → List Text → M ℕ
    run_setup api_key_set argv lines = do
      disable_core_dumps
      lift (deny_secret_inputs api_key_set argv)
      lift (deny_secret_inputs api_key_set argv)
      args ← parse argv
      euid ← system_call geteuid_call
      raise_if (not (euid == 0)) (setup "setup must run as root")
      (completed, rest) ←
          complete_interactive_request around.ask around.write around.strip around.lower args lines
      request ← lift (resolve_request around.upper around.words completed)
      execute_request request rest
      pure 0

    -- its handlers
    unfoldable pub exit_code : Exception → M ℕ
    exit_code (setup_error message) = print_error message >> pure 64
    exit_code end_of_input = print_error (literal "setup was cancelled") >> pure 130
    exit_code interrupt = print_error (literal "setup was cancelled") >> pure 130
    exit_code (os_error e) = raise (os_error e)

    -- `main`
    unfoldable pub main : Bool → List Text → List Text → M ℕ
    main api_key_set argv lines = try_except (run_setup api_key_set argv lines) exit_code
