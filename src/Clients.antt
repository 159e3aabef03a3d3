-- ===== src/Clients.antt =====
-- The helper processes that the command line runs: `fetch_public_countries` and `run_runtime_validation` of
-- libexec/wg_healthcheck_setup/clients.py.
use air_vpn_wg_healthcheck.Text.Decimal.{str_int}
use air_vpn_wg_healthcheck.Model.Diagnostic.{runtime_validation_failure_message}
use air_vpn_wg_healthcheck.Model.Manifest.{parse_runtime_manifest}
use air_vpn_wg_healthcheck.Model.Inventory.{parse_country_inventory}
use air_vpn_wg_healthcheck.Prelude.{Bool, List, [], not, ℕ, ◌==◌, ◌||◌, ◌∷◌}
use air_vpn_wg_healthcheck.Text.{Text, codes, mem_text, text_eq}
use air_vpn_wg_healthcheck.Effect.{M, computed, raise_if, setup, setup_error, ◌>>=◌, ◌>>◌}
use air_vpn_wg_healthcheck.Model.{Country, RuntimeManifest, is_interface}
use air_vpn_wg_healthcheck.System.{Completed, Run, lift, run_fixed, runtime}

abbrev pub airvpn_api_helper : Text
airvpn_api_helper = codes "/usr/local/libexec/wg-healthcheck/airvpn-api"

module _ (run : Run) where
  -- `fetch_public_countries`; `is_printable` is `str.isprintable` of one character.
  unfoldable pub fetch_public_countries : (ℕ → Bool) → M (List Country)
  fetch_public_countries is_printable = do
    completed ← run_fixed run (airvpn_api_helper ∷ codes "list-countries" ∷ []) []
    raise_if (not (completed.returncode == 0) || not (text_eq completed.stderr []))
        (setup "credential-free country discovery failed")
    lift (parse_country_inventory is_printable completed.stdout)

  unfoldable pub validation_manifest : Text → Completed → M RuntimeManifest
  validation_manifest operation completed = do
    raise_if (not (completed.returncode == 0))
        (setup_error (computed (runtime_validation_failure_message completed.stdout)))
    raise_if (not (text_eq completed.stderr []))
        (setup "runtime returned an invalid redacted manifest")
    lift (parse_runtime_manifest completed.stdout operation)

  -- `run_runtime_validation`
  unfoldable pub run_runtime_validation : Text → Text → ℕ → ℕ → M RuntimeManifest
  run_runtime_validation iface operation credential_fd settings_fd = do
    raise_if
        (not (mem_text operation (codes "provision" ∷ codes "adopt" ∷ []))
          || not (is_interface iface))
        (setup "runtime validation request is invalid")
    raise_if (credential_fd == settings_fd)
        (setup "credential and proposed settings descriptors must be distinct")
    completed ←
        run_fixed run
          (runtime
            ∷ operation
            ∷ iface
            ∷ codes "--dry-run"
            ∷ codes "--credential-fd"
            ∷ str_int credential_fd
            ∷ codes "--settings-fd"
            ∷ str_int settings_fd
            ∷ [])
          (credential_fd ∷ settings_fd ∷ [])
    validation_manifest operation completed
