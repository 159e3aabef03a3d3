-- ===== src/Application/Request.antt =====
-- The entry points of libexec/wg_healthcheck_setup/application.py: `apply_setup_request`,
-- `preview_maintenance`, `preview_api_state_reset` and `preview_api_request`.
use air_vpn_wg_healthcheck.Credential.Choice.{
  precheck_api_credential, validate_with_lease, with_effective_credential,
}
use air_vpn_wg_healthcheck.Effect.{M, raise_if, raise_setup, setup, when, ◌>>=◌, ◌>>◌}
use air_vpn_wg_healthcheck.Prelude.{
  Bool, Option, [], false, if◌then◌else◌, not, some, true, ℕ, ◌&&◌, ◌||◌, ◌∷◌,
}
use air_vpn_wg_healthcheck.Text.{Text, codes}
use air_vpn_wg_healthcheck.Disk.{global_lock, interface_lock, journal, profile}
use air_vpn_wg_healthcheck.Config.{country_values}
use air_vpn_wg_healthcheck.Model.{
  Action, Mode, SetupRequest, api_mode, apply_action, dry_run, static_mode,
}
use air_vpn_wg_healthcheck.System.{Run, Target, lift, stop_units, validate_apply_paths}
use air_vpn_wg_healthcheck.Lease.{probe_runtime_lock, with_setup_lease}
use air_vpn_wg_healthcheck.Credential.{installed_profile_source, is_present, is_some, path_exists}
use air_vpn_wg_healthcheck.Application.{
  assert_runtime_artifacts_clear, assert_setup_artifacts_clear, runtime_step,
}
use air_vpn_wg_healthcheck.Application.Recovery.{recover_setup_transaction}
use air_vpn_wg_healthcheck.Application.Apply.{apply_api, apply_static, device_of}

abbrev pub is_apply : Option Action → Bool
is_apply (some apply_action) = true
is_apply _ = false

abbrev pub is_dry_run : Option Action → Bool
is_dry_run (some dry_run) = true
is_dry_run _ = false

abbrev pub is_mode : Mode → Option Mode → Bool
is_mode static_mode (some static_mode) = true
is_mode api_mode (some api_mode) = true
is_mode _ _ = false

module _ (run : Run) (request : SetupRequest) (paths : Target) where
  -- `_preview_maintenance_under_lease`
  unfoldable pub preview_maintenance_under_lease : ℕ → M (Unit {0})
  preview_maintenance_under_lease lease_fd = do
    when request.restore_pre_managed (
        runtime_step run paths lease_fd (codes "restore-static") (codes "--dry-run" ∷ [])
          "runtime refused the static-restoration dry run")
    when request.reset_api_state (
        runtime_step run paths lease_fd (codes "reset-api-state") (codes "--dry-run" ∷ [])
          "runtime refused the API-state reset dry run")

  unfoldable pub preview_under_lease : ℕ → M (Unit {0})
  preview_under_lease lease_fd = do
    probe_runtime_lock interface_lock paths
    probe_runtime_lock global_lock paths
    assert_runtime_artifacts_clear
    assert_setup_artifacts_clear
    preview_maintenance_under_lease lease_fd

  -- `preview_maintenance`
  unfoldable pub preview_maintenance : M (Unit {0})
  preview_maintenance = do
    raise_if
        (not (is_dry_run request.action)
          || not (request.restore_pre_managed || request.reset_api_state))
        (setup "maintenance preview requires an explicit dry-run action")
    validate_apply_paths paths request.iface
    with_setup_lease paths preview_under_lease

  -- `preview_api_state_reset`
  unfoldable pub preview_api_state_reset : M (Unit {0})
  preview_api_state_reset = do
    raise_if (not request.reset_api_state)
        (setup "API-state preview requires an explicit reset dry run")
    preview_maintenance

  unfoldable pub preview_api_under_lease : Option ℕ → Text → Text → Text → Text → ℕ → M (Unit {0})
  preview_api_under_lease supplied operation prior_source device countries lease_fd = do
    assert_runtime_artifacts_clear
    assert_setup_artifacts_clear
    with_effective_credential request supplied paths prior_source false
        (λ effective key_changed had_key.
          validate_with_lease run paths operation lease_fd effective device countries)
    preview_maintenance_under_lease lease_fd

  -- `preview_api_request`
  unfoldable pub preview_api_request : Option ℕ → M (Unit {0})
  preview_api_request supplied = do
    raise_if (not (is_mode api_mode request.mode) || not (is_dry_run request.action))
        (setup "API preview requires explicit API dry-run mode")
    device ← device_of request.device
    (countries, config_countries) ← lift (country_values request)
    validate_apply_paths paths request.iface
    has_profile ← is_present profile paths
    prior_source ← installed_profile_source paths
    with_setup_lease paths (
        preview_api_under_lease supplied (if has_profile then codes "adopt" else codes "provision")
          prior_source device countries)

  module _ (now : M ℕ) where
    -- the body of `apply_setup_request` under the lease
    unfoldable pub apply_under_lease : Mode → Option ℕ → Bool → ℕ → M (Unit {0})
    apply_under_lease mode supplied recovering lease_fd = do
      stop_units run paths
      probe_runtime_lock interface_lock paths
      probe_runtime_lock global_lock paths
      recover_setup_transaction run now paths lease_fd
      assert_runtime_artifacts_clear
      assert_setup_artifacts_clear
      elim mode [
        | api_mode ↦
            precheck_api_credential request supplied paths recovering
            >> apply_api run now request paths lease_fd supplied recovering
        | static_mode ↦ apply_static run now request paths lease_fd
      ]

    unfoldable pub apply_mode : Mode → Option ℕ → M (Unit {0})
    apply_mode mode supplied = do
      raise_if (is_mode static_mode (some mode) && is_some supplied)
          (setup "static setup must not receive or open a credential")
      validate_apply_paths paths request.iface
      recovering ← path_exists journal
      when (is_mode api_mode (some mode) && not recovering)
          (precheck_api_credential request supplied paths false)
      with_setup_lease paths (apply_under_lease mode supplied recovering)

    unfoldable pub apply_if : Bool → Option Mode → Option ℕ → M (Unit {0})
    apply_if true (some mode) supplied = apply_mode mode supplied
    apply_if _ _ supplied = raise_setup "transactional application requires an explicit apply mode"

    -- `apply_setup_request`
    unfoldable pub apply_setup_request : Option ℕ → M (Unit {0})
    apply_setup_request supplied = apply_if (is_apply request.action) request.mode supplied
