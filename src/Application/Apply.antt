-- ===== src/Application/Apply.antt =====
-- Applying a request: `_apply_api`, `_apply_static`, `_finalize_verified` and `_run_post_commit_actions`
-- of libexec/wg_healthcheck_setup/application.py. The `try` of an application is cut where the variable
-- `journal` changes, so that each part has its handler with the journal of that part.
use air_vpn_wg_healthcheck.Credential.Choice.{Body, validate_with_lease, with_effective_credential}
use air_vpn_wg_healthcheck.Effect.{
  Exception, M, end_of_input, os_error, pure, raise, raise_if, raise_setup, setup, setup_error,
  try_except, when, ◌>>=◌, ◌>>◌,
}
use air_vpn_wg_healthcheck.Prelude.{
  Bool, Option, String, [], false, if◌then◌else◌, none, not, some, true, ℕ, ◌&&◌, ◌∷◌,
}
use air_vpn_wg_healthcheck.Text.{Text, codes, text_eq}
use air_vpn_wg_healthcheck.Disk.{
  at, config_previous, credential, credential_previous, health_config, journal, pre_managed,
  profile,
}
use air_vpn_wg_healthcheck.Store.{secure_read}
use air_vpn_wg_healthcheck.Store.Create.{
  atomic_write, copy_descriptor_atomic, durable_unlink, snapshot_file,
}
use air_vpn_wg_healthcheck.Config.{config_value, country_values, max_config_bytes, render_config}
use air_vpn_wg_healthcheck.Journal.{SetupJournal}
use air_vpn_wg_healthcheck.Model.{SetupRequest, enables, is_device}
use air_vpn_wg_healthcheck.System.{
  HealthProofStart, Run, Target, enable_timer_after_commit, lift, verify_health,
}
use air_vpn_wg_healthcheck.Credential.{
  is_present, is_source, path_exists, profile_source_key, source_or_static,
  with_installed_credential,
}
use air_vpn_wg_healthcheck.Application.{
  assert_setup_artifacts_clear, begin_journaled_health_proof, cleanup_transaction, persist_journal,
  rollback_api, rollback_static, runtime_step,
}
use air_vpn_wg_healthcheck.Application.Recovery.{commit_verified}

abbrev setup_error_as : String → Exception → M (Unit {0})
setup_error_as message (setup_error m) = raise_setup message
setup_error_as message e = raise e

-- `_finalize_verified`
unfoldable pub finalize_verified : Target → SetupJournal → M (Unit {0})
finalize_verified paths j =
    try_except (commit_verified paths j)
      (setup_error_as "setup is verified and committed, but transaction finalization is incomplete")

-- What an exception becomes once the rollback is complete.
abbrev after_rollback : {A : Type 0} → String → Exception → M A
after_rollback message (os_error e) = raise_setup message
after_rollback message end_of_input = raise_setup message
after_rollback message e = raise e

abbrev timer_and_reset : SetupRequest → M (Unit {0})
timer_and_reset request =
    raise_if (enables request.timer && request.reset_api_state)
      (setup "API-state reset cannot enable the timer")

unfoldable pub payload_of : Option Text → M Text
payload_of none = raise_setup "a required private file is missing"
payload_of (some payload) = pure payload

unfoldable pub read_config : Target → M Text
read_config paths =
    secure_read (at health_config) paths.trusted_uid max_config_bytes true >>= payload_of

abbrev pub device_of : Option Text → M Text
device_of none = raise_setup "API setup requires a valid device"
device_of (some device) =
    if is_device device then pure device else raise_setup "API setup requires a valid device"

module _ (run : Run) (now : M ℕ) (request : SetupRequest) (paths : Target) (lease_fd : ℕ) where
  unfoldable pub remove_credential_after : M (Unit {0})
  remove_credential_after = try_except (durable_unlink credential paths.trusted_uid false) (
      setup_error_as (
        if request.reset_api_state
        then "setup is verified and committed, but credential removal after the API-state reset is incomplete"
        else "setup is verified and committed, but credential removal is incomplete"))

  -- `_run_post_commit_actions`
  unfoldable pub run_post_commit_actions : Bool → M (Unit {0})
  run_post_commit_actions is_static = do
    when request.reset_api_state (
        runtime_step run paths lease_fd (codes "reset-api-state") (codes "--apply" ∷ [])
          "setup is verified and committed, but the requested API-state reset failed")
    when (is_static && request.remove_credential) remove_credential_after
    when (enables request.timer) (enable_timer_after_commit run paths)

  -- the handler of `_apply_api`
  unfoldable pub undo_api : SetupJournal → M (Unit {0})
  undo_api j = do
    present ← path_exists journal
    if present then rollback_api run paths lease_fd j else assert_setup_artifacts_clear

  unfoldable pub failed_api : {A : Type 0} → SetupJournal → Exception → M A
  failed_api j error = do
    try_except (undo_api j) (
        setup_error_as
          "setup failed and automatic rollback is incomplete; the timer remains disabled")
    after_rollback "setup was interrupted and rolled back" error

  abbrev guarded_api : {A : Type 0} → SetupJournal → M A → M A
  guarded_api j m = try_except m (failed_api j)

  abbrev pub with_phase : SetupJournal → Text → SetupJournal
  with_phase j name = record j { phase = name }

  -- From the first journal to the rewritten configuration.
  unfoldable pub prepare_api : SetupJournal → Text → Text → Text → Text → M (Unit {0})
  prepare_api j config_payload prior_source device config_countries = do
    persist_journal paths j
    snapshot_file health_config config_previous paths.trusted_uid max_config_bytes
    when (j.key_changed && j.had_key)
        (snapshot_file credential credential_previous paths.trusted_uid 65)
    rendered ← lift (
        render_config config_payload (
          (codes "AIRVPN_PROFILE_SOURCE", prior_source)
          ∷ (codes "AIRVPN_DEVICE", device)
          ∷ (codes "AIRVPN_COUNTRIES", config_countries)
          ∷ []))
    atomic_write health_config rendered paths.trusted_uid

  -- the installed key, validated again
  unfoldable pub install_key : SetupJournal → ℕ → M (Unit {0})
  install_key j credential_fd = do
    persist_journal paths j
    when j.key_changed (copy_descriptor_atomic credential_fd credential paths.trusted_uid 65)

  unfoldable pub validate_installed : SetupJournal → Text → Text → Text → M (Unit {0})
  validate_installed j operation device countries = do
    persist_journal paths j
    with_installed_credential paths
        (λ installed. validate_with_lease run paths operation lease_fd installed device countries)

  unfoldable pub activate_runtime : Text → Text → M (Unit {0})
  activate_runtime prior_source operation = when (text_eq prior_source (codes "static")) (
      runtime_step run paths lease_fd operation (codes "--apply" ∷ [])
        "runtime could not activate the validated API setup")

  unfoldable pub begin_proof : SetupJournal → M (SetupJournal × HealthProofStart)
  begin_proof j = do persist_journal paths j; begin_journaled_health_proof now paths j

  -- the phase behind the installation of a new key
  abbrev installed_phase : SetupJournal → SetupJournal
  installed_phase j = if j.key_changed then with_phase j (codes "credential") else j

  -- The `try` of `_apply_api`: it returns the journal of the verified setup.
  unfoldable pub transact_api :
      SetupJournal → Text → Text → Text → Text → Text → Text → ℕ → M SetupJournal
  transact_api j operation config_payload prior_source device countries config_countries
        credential_fd =
      do
        guarded_api j (prepare_api j config_payload prior_source device config_countries)
        let configured = with_phase j (codes "config")
        guarded_api configured (install_key configured credential_fd)
        let keyed = installed_phase configured
        guarded_api keyed (
            when j.key_changed (validate_installed keyed operation device countries)
            >> activate_runtime prior_source operation)
        let activated = with_phase j (codes "activated")
        (verifying, proof) ← guarded_api activated (begin_proof activated)
        guarded_api verifying (verify_health run now paths lease_fd proof)
        pure verifying

  -- the body under `_effective_credential`
  unfoldable pub apply_api_under :
      Text → Text → Text → Text → Text → Text → Text → Bool → Body SetupJournal
  apply_api_under operation transaction_operation config_payload prior_source device countries
        config_countries had_pre_managed credential_fd key_changed had_key =
      do
        validate_with_lease run paths operation lease_fd credential_fd device countries
        transact_api
            (record {
              operation = transaction_operation;
              phase = codes "prepared";
              had_key = had_key;
              had_pre_managed = had_pre_managed;
              key_changed = key_changed;
              verify_started = 0;
              status_before_dev = 0;
              status_before_ino = 0;
            })
            operation config_payload prior_source device countries config_countries credential_fd

  -- `_apply_api`
  unfoldable pub apply_api : Option ℕ → Bool → M (Unit {0})
  apply_api supplied allow_matching = do
    device ← device_of request.device
    timer_and_reset request
    (countries, config_countries) ← lift (country_values request)
    has_profile ← is_present profile paths
    let operation = if has_profile then codes "adopt" else codes "provision"
    config_payload ← read_config paths
    value ← lift (config_value config_payload profile_source_key)
    let prior_source = source_or_static value
    raise_if (not (is_source prior_source)) (setup "the installed profile source is invalid")
    let from_api = text_eq prior_source (codes "api")
    raise_if (from_api && not has_profile) (setup "API mode requires an existing managed profile")
    had_pre_managed ← is_present pre_managed paths
    verified_journal ←
        with_effective_credential request supplied paths prior_source allow_matching (
          apply_api_under operation (if from_api then codes "api-update" else operation)
            config_payload prior_source device countries config_countries had_pre_managed)
    finalize_verified paths verified_journal
    run_post_commit_actions false

  -- the handler of `_apply_static` while nothing is committed
  unfoldable pub undo_static : SetupJournal → M (Unit {0})
  undo_static j = do
    present ← path_exists journal
    if present then rollback_static paths j else assert_setup_artifacts_clear

  -- the handler of `_apply_static`
  unfoldable pub failed_static : {A : Type 0} → Bool → SetupJournal → Exception → M A
  failed_static true j error = do
    try_except (cleanup_transaction paths)
        (setup_error_as "the static profile is committed, but setup finalization is incomplete")
    raise_setup "the restored static profile is committed, but the additional health proof failed"
  failed_static false j error = do
    try_except (undo_static j) (
        setup_error_as "static setup failed and rollback is incomplete; the timer remains disabled")
    after_rollback "static setup was interrupted and rolled back" error

  abbrev guarded_static : {A : Type 0} → Bool → SetupJournal → M A → M A
  guarded_static restore_committed j m = try_except m (failed_static restore_committed j)

  unfoldable pub prepare_static : SetupJournal → M (Unit {0})
  prepare_static j = do
    persist_journal paths j
    snapshot_file health_config config_previous paths.trusted_uid max_config_bytes

  unfoldable pub restore_static : SetupJournal → M (Unit {0})
  restore_static j = do
    persist_journal paths j
    runtime_step run paths lease_fd (codes "restore-static") (codes "--apply" ∷ [])
        "runtime could not restore the pre-managed profile"

  unfoldable pub write_static_config : Text → M (Unit {0})
  write_static_config config_payload = do
    rendered ←
        lift (render_config config_payload ((codes "AIRVPN_PROFILE_SOURCE", codes "static") ∷ []))
    atomic_write health_config rendered paths.trusted_uid

  -- The `try` of `_apply_static`.
  unfoldable pub transact_static : SetupJournal → Text → M SetupJournal
  transact_static j config_payload = do
    guarded_static false j (prepare_static j)
    (if request.restore_pre_managed
        then guarded_static false (with_phase j (codes "activating"))
            (restore_static (with_phase j (codes "activating")))
        else guarded_static false j (write_static_config config_payload))
    let activated = with_phase j (codes "activated")
    (verifying, proof) ←
        guarded_static request.restore_pre_managed activated (begin_proof activated)
    guarded_static request.restore_pre_managed verifying
        (verify_health run now paths lease_fd proof)
    pure verifying

  -- `_apply_static`
  unfoldable pub apply_static : M (Unit {0})
  apply_static = do
    timer_and_reset request
    config_payload ← read_config paths
    had_key ← is_present credential paths
    had_pre_managed ← is_present pre_managed paths
    verified_journal ←
        transact_static
          (record {
            operation =
                if request.restore_pre_managed then codes "static-restore" else codes "static";
            phase = codes "prepared";
            had_key = had_key;
            had_pre_managed = had_pre_managed;
            key_changed = false;
            verify_started = 0;
            status_before_dev = 0;
            status_before_ino = 0;
          })
          config_payload
    finalize_verified paths verified_journal
    run_post_commit_actions true
