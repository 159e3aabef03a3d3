-- ===== src/Credential/Choice.antt =====
-- Which credential a request uses: `effective_credential` and `precheck_api_credential` of
-- libexec/wg_healthcheck_setup/credential_state.py, and `validate_with_lease` of apply_system.py.
use air_vpn_wg_healthcheck.Effect.{
  M, pure, raise_if, raise_setup, setup, system_call, try_finally, wrap_os_error, ◌>>=◌, ◌>>◌,
}
use air_vpn_wg_healthcheck.Prelude.{
  Bool, Option, String, [], false, if◌then◌else◌, none, not, some, true, ℕ, ◌&&◌, ◌∷◌,
}
use air_vpn_wg_healthcheck.Text.{Text, codes, text_eq}
use air_vpn_wg_healthcheck.Text.Decimal.{str_int, value}
use air_vpn_wg_healthcheck.Disk.{credential}
use air_vpn_wg_healthcheck.Os.{Stat, fstat_call, pread_call, silent_call}
use air_vpn_wg_healthcheck.Store.{same_metadata}
use air_vpn_wg_healthcheck.Model.{SetupRequest}
use air_vpn_wg_healthcheck.Settings.{settings_record}
use air_vpn_wg_healthcheck.System.{Run, Target, check_validation, lift, runtime_call}
use air_vpn_wg_healthcheck.Credential.{
  installed_profile_source, is_present, is_some, private_temporary, validate_credential_bytes,
  with_installed_credential,
}

-- `credential_bytes`
unfoldable pub credential_bytes : ℕ → M Text
credential_bytes fd = do
  (before, value, after) ← wrap_os_error "a credential descriptor could not be compared safely" (do
    before ← system_call (fstat_call fd)
    value ← system_call (pread_call fd 66)
    after ← system_call (fstat_call fd)
    pure {A = Stat × Text × Stat} (before, value, after))
  raise_if (not (same_metadata before after))
      (setup "a credential descriptor changed while it was compared")
  validate_credential_bytes value
  system_call silent_call
  pure value

-- `hmac.compare_digest(credential_bytes(supplied), credential_bytes(installed))`
unfoldable pub require_same_credential : ℕ → String → ℕ → M (Unit {0})
require_same_credential supplied message installed = do
  proposed ← credential_bytes supplied
  kept ← credential_bytes installed
  raise_if (not (text_eq proposed kept)) (setup message)

abbrev pub reuse_message : String
reuse_message = "an installed credential is reused unless --replace-credential is explicit"

abbrev pub recovered_message : String
recovered_message =
    "the proposed key differs from the recovered installed key; use --replace-credential explicitly"

abbrev pub retained_message : String
retained_message =
    "the proposed key differs from the retained key; use --replace-credential explicitly"

abbrev pub entering_message : String
entering_message = "entering API mode from static requires a proposed credential descriptor"

abbrev pub nothing_to_replace : String
nothing_to_replace = "--replace-credential requires an installed API credential"

-- What `effective_credential` yields: the descriptor, whether the key changes, whether there was one.
abbrev pub Body : Type 0 → Type 0
Body A = ℕ → Bool → Bool → M A

-- In API mode with an installed key.
unfoldable pub with_reused_credential :
    {A : Type 0} → SetupRequest → Option ℕ → Target → Bool → Body A → M A
with_reused_credential request none paths allow_matching body =
    if request.replace_credential
    then raise_setup "credential replacement requires a proposed descriptor"
    else with_installed_credential paths (λ installed. body installed false true)
with_reused_credential request (some supplied) paths allow_matching body =
    if request.replace_credential
    then body supplied true true
    else if not allow_matching
    then raise_setup reuse_message
    else with_installed_credential paths (λ installed.
      require_same_credential supplied recovered_message installed >> body installed false true)

-- Entering API mode.
unfoldable pub with_proposed_credential :
    {A : Type 0} → SetupRequest → Option ℕ → Target → Bool → Body A → M A
with_proposed_credential request none paths had_key body = raise_setup entering_message
with_proposed_credential request (some supplied) paths had_key body =
    if had_key
    then (if request.replace_credential
        then body supplied true true
        else with_installed_credential paths (require_same_credential supplied retained_message)
          >> body supplied false true)
    else if request.replace_credential
    then raise_setup nothing_to_replace
    else body supplied true false

-- `effective_credential`
unfoldable pub with_effective_credential :
    {A : Type 0} → SetupRequest → Option ℕ → Target → Text → Bool → Body A → M A
with_effective_credential request supplied paths prior_source allow_matching body = do
  had_key ← is_present credential paths
  if text_eq prior_source (codes "api") && had_key
      then with_reused_credential request supplied paths allow_matching body
      else with_proposed_credential request supplied paths had_key body

-- the first branch of `precheck_api_credential`
unfoldable pub precheck_reused : SetupRequest → Option ℕ → Target → Bool → M (Unit {0})
precheck_reused request none paths allow_matching =
    raise_if request.replace_credential
      (setup "credential replacement requires a proposed descriptor")
precheck_reused request (some supplied) paths allow_matching =
    if request.replace_credential
    then pure tt
    else if not allow_matching
    then raise_setup reuse_message
    else with_installed_credential paths (require_same_credential supplied recovered_message)

-- `precheck_api_credential`
unfoldable pub precheck_api_credential : SetupRequest → Option ℕ → Target → Bool → M (Unit {0})
precheck_api_credential request supplied paths allow_matching = do
  present ← is_present credential paths
  prior_source ← installed_profile_source paths
  if text_eq prior_source (codes "api") && present
      then precheck_reused request supplied paths allow_matching
      else do
        raise_if (not (is_some supplied)) (setup entering_message)
        raise_if (request.replace_credential && not present) (setup nothing_to_replace)

-- the body of `validate_with_lease` under the settings handle
unfoldable pub validate_under : Run → Target → Text → ℕ → ℕ → ℕ → M (Unit {0})
validate_under run paths operation lease_fd credential_fd settings_fd = do
  completed ←
      runtime_call run operation paths lease_fd
        (codes "--dry-run"
          ∷ codes "--credential-fd"
          ∷ str_int credential_fd
          ∷ codes "--settings-fd"
          ∷ str_int settings_fd
          ∷ [])
        (credential_fd ∷ settings_fd ∷ [])
  check_validation run operation completed

-- `validate_with_lease` of apply_system.py
unfoldable pub validate_with_lease : Run → Target → Text → ℕ → ℕ → Text → Text → M (Unit {0})
validate_with_lease run paths operation lease_fd credential_fd device countries = do
  system_call silent_call
  settings_text ← lift (settings_record device countries)
  settings_fd ← private_temporary settings_text
  try_finally (validate_under run paths operation lease_fd credential_fd settings_fd)
      (system_call silent_call)
  system_call silent_call
