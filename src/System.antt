-- ===== src/System.antt =====
-- The system boundary of the setup: libexec/wg_healthcheck_setup/apply_system.py, with
-- `_run_fixed` of clients.py. What runs a child process
-- (`run`) and what reads the clock (`now`) are the callables that the source passes in.
use air_vpn_wg_healthcheck.Model.Diagnostic.{runtime_validation_failure_message}
use air_vpn_wg_healthcheck.Prelude.{
  Bool, List, Option, [], any, drop, false, if◌then◌else◌, leb, length, ltb, none, not, some, true,
  ℕ, ◌&&◌, ◌++◌, ◌+◌, ◌==◌, ◌||◌, ◌∷◌,
}
use air_vpn_wg_healthcheck.Result.{Result, err, ok}
use air_vpn_wg_healthcheck.Text.{Text, codes, ends_with, mem_text, starts_with, text_eq}
use air_vpn_wg_healthcheck.Text.Decimal.{int_text, is_canonical, str_int}
use air_vpn_wg_healthcheck.Disk.{at, health_dir, state_dir, status, wireguard_dir}
use air_vpn_wg_healthcheck.Effect.{
  Exception, M, computed, pure, raise, raise_if, raise_setup, setup, setup_error, try_except, when,
  wrap_os_error, ◌>>=◌, ◌>>◌,
}
use air_vpn_wg_healthcheck.Store.{secure_read, validate_directory}
use air_vpn_wg_healthcheck.Store.Create.{file_identity}
use air_vpn_wg_healthcheck.Model.Inventory.{is_line_break, split_lines}
use air_vpn_wg_healthcheck.Model.Manifest.{parse_runtime_manifest}

-- subprocess.CompletedProcess
pub record Completed : Type 0 where
  pub returncode : ℕ
  pub stdout : Text
  pub stderr : Text

-- `subprocess.run` with a fixed argument vector and the descriptors that the child inherits
abbrev pub Run : Type 0
Run = List Text → List ℕ → M Completed

-- The parts of `ApplyPathSet` that are no files.
pub record Target : Type 0 where
  pub iface : Text
  pub trusted_uid : ℕ

abbrev pub timer_unit : Target → Text
timer_unit paths = codes "wg-healthcheck@" ++ (paths.iface ++ codes ".timer")

abbrev pub service_unit : Target → Text
service_unit paths = codes "wg-healthcheck@" ++ (paths.iface ++ codes ".service")

abbrev pub lift : {A : Type 0} → Result A → M A
lift (ok a) = pure a
lift (err message) = raise_setup message

-- `HealthProofStart`
pub record HealthProofStart : Type 0 where
  pub before : Option (ℕ × ℕ × ℕ × ℕ)
  pub started : ℕ

abbrev pub max_status_bytes : ℕ
max_status_bytes = 512

-- `validate_apply_paths`
unfoldable pub validate_apply_paths : Target → Text → M (Unit {0})
validate_apply_paths paths iface = do
  raise_if (not (text_eq paths.iface iface))
      (setup "setup paths do not match the requested interface")
  validate_directory health_dir paths.trusted_uid
  validate_directory wireguard_dir paths.trusted_uid
  validate_directory state_dir paths.trusted_uid

-- the pattern timestamp=(0|[1-9][0-9]{0,10}), and its number
unfoldable pub status_timestamp : Text → Option ℕ
status_timestamp line =
    let digits = drop (length (codes "timestamp=")) line in
    if starts_with (codes "timestamp=") line && is_canonical digits && leb (length digits) 11
    then some (int_text digits)
    else none

-- the lines of a status file that reports success between two times
unfoldable pub is_fresh_status : List Text → ℕ → ℕ → Bool
is_fresh_status (outcome ∷ reason ∷ timestamp ∷ []) started finished =
    mem_text outcome (codes "outcome=healthy" ∷ codes "outcome=recovered" ∷ [])
    && starts_with (codes "reason=") reason
    && not (any (λ c. ltb c 32 || c == 127) (drop 7 reason))
    && elim (status_timestamp timestamp) [
      | none ↦ false
      | some t ↦ leb started t && leb t (finished + 5)
    ]
is_fresh_status _ started finished = false

unfoldable pub status_text_is_fresh : Option Text → ℕ → ℕ → Bool
status_text_is_fresh none started finished = false
status_text_is_fresh (some payload) started finished =
    ends_with b'\n' payload
    && not (any (λ c. leb 128 c) payload)
    && is_fresh_status (split_lines is_line_break false payload) started finished

-- `after == before or (before is not None and after[:2] == before[:2])`: the second covers the first
unfoldable pub is_same_file : Option (ℕ × ℕ × ℕ × ℕ) → ℕ × ℕ × ℕ × ℕ → Bool
is_same_file none after = false
is_same_file (some before) after = before.0 == after.0 && before.1 == after.1

unfoldable pub status_after :
    Target → Option (ℕ × ℕ × ℕ × ℕ) → ℕ → ℕ → Option (ℕ × ℕ × ℕ × ℕ) → M Bool
status_after paths before started finished none = pure false
status_after paths before started finished (some after) =
    if is_same_file before after then pure false else do
      payload ← secure_read (at status) paths.trusted_uid max_status_bytes true
      pure (status_text_is_fresh payload started finished)

-- `_status_is_fresh_success`
unfoldable pub status_is_fresh_success : Target → Option (ℕ × ℕ × ℕ × ℕ) → ℕ → ℕ → M Bool
status_is_fresh_success paths before started finished = do
  after ← file_identity status paths.trusted_uid
  status_after paths before started finished after

-- `begin_health_proof`
unfoldable pub begin_health_proof : M ℕ → Target → M HealthProofStart
begin_health_proof now paths = do
  before ← file_identity status paths.trusted_uid
  started ← now
  pure (record { before = before; started = started })

-- `health_proof_is_complete`
unfoldable pub health_proof_is_complete : M ℕ → Target → HealthProofStart → M Bool
health_proof_is_complete now paths proof = do
  finished ← now
  status_is_fresh_success paths proof.before proof.started finished

abbrev pub runtime : Text
runtime = codes "/usr/local/sbin/wg-healthcheck"

-- `runtime_argv`
unfoldable pub runtime_argv : Text → Target → ℕ → List Text → List Text
runtime_argv command paths lease_fd arguments =
    runtime
    ∷ command
    ∷ paths.iface
    ∷ (arguments ++ codes "--setup-lease-fd" ∷ str_int lease_fd ∷ [])

abbrev pub mem_fd : ℕ → List ℕ → Bool
mem_fd fd = any (λ other. fd == other)

unfoldable pub has_duplicate_fd : List ℕ → Bool
has_duplicate_fd [] = false
has_duplicate_fd (fd ∷ fds) = mem_fd fd fds || has_duplicate_fd fds

module _ (run : Run) where
  -- `_run_fixed`
  unfoldable pub run_fixed : List Text → List ℕ → M Completed
  run_fixed argv pass_fds =
      wrap_os_error "a fixed setup helper could not be executed" (run argv pass_fds)

  -- `systemctl`
  unfoldable pub systemctl : List Text → M Completed
  systemctl arguments = run_fixed (codes "/usr/bin/systemctl" ∷ arguments) []

  unfoldable pub is_inactive : Text → M Bool
  is_inactive unit = do
    observed ← systemctl (codes "is-active" ∷ codes "--quiet" ∷ unit ∷ [])
    pure (observed.returncode == 3)

  -- `prove_units_inactive`
  unfoldable pub prove_units_inactive : Target → M (Unit {0})
  prove_units_inactive paths = do
    timer ← is_inactive (timer_unit paths)
    service ← is_inactive (service_unit paths)
    raise_if (not (timer && service)) (setup "a healthcheck unit did not become inactive")

  -- `stop_units`
  unfoldable pub stop_units : Target → M (Unit {0})
  stop_units paths = do
    disabled ← systemctl (codes "disable" ∷ codes "--now" ∷ timer_unit paths ∷ [])
    raise_if (not (disabled.returncode == 0)) (setup "the healthcheck timer could not be disabled")
    stopped ← systemctl (codes "stop" ∷ service_unit paths ∷ [])
    raise_if (not (stopped.returncode == 0)) (setup "the healthcheck worker could not be stopped")
    prove_units_inactive paths

  -- `runtime_call`
  unfoldable pub runtime_call : Text → Target → ℕ → List Text → List ℕ → M Completed
  runtime_call command paths lease_fd arguments pass_fds = do
    raise_if (has_duplicate_fd (lease_fd ∷ pass_fds))
        (setup "setup private descriptors are not distinct")
    run_fixed (runtime_argv command paths lease_fd arguments) (lease_fd ∷ pass_fds)

  unfoldable pub check_validation : Text → Completed → M (Unit {0})
  check_validation operation completed = do
    raise_if (not (completed.returncode == 0))
        (setup_error (computed (runtime_validation_failure_message completed.stdout)))
    raise_if (not (text_eq completed.stderr []))
        (setup "authenticated runtime validation failed; no changes were made")
    lift (parse_runtime_manifest completed.stdout operation) >> pure tt

  unfoldable pub verify_completed : M ℕ → Target → HealthProofStart → Completed → M (Unit {0})
  verify_completed now paths proof completed =
      if not (completed.returncode == 0)
      then raise_setup "the installed setup did not produce a fresh healthy status"
      else do
        complete ← health_proof_is_complete now paths proof
        raise_if (not complete) (setup "the installed setup did not produce a fresh healthy status")

  -- `verify_health`, with the proof that its callers pass
  unfoldable pub verify_health : M ℕ → Target → ℕ → HealthProofStart → M (Unit {0})
  verify_health now paths lease_fd proof = do
    completed ← runtime_call (codes "check") paths lease_fd [] []
    verify_completed now paths proof completed

  -- the handler that turns a failed containment into the message of its own
  abbrev uncontained : Exception → M (Unit {0})
  uncontained (setup_error message) =
      raise_setup
        "setup is verified and committed, but timer activation failed and fail-closed containment could not be proven"
  uncontained e = raise e

  unfoldable pub contain_timer : Target → M (Unit {0})
  contain_timer paths = do
    disabled ← systemctl (codes "disable" ∷ codes "--now" ∷ timer_unit paths ∷ [])
    stopped ← systemctl (codes "stop" ∷ service_unit paths ∷ [])
    try_except (prove_units_inactive paths) uncontained
    raise_if (not (disabled.returncode == 0) || not (stopped.returncode == 0)) (
        setup
          "setup is verified and committed; units are inactive, but timer containment reported an administrative failure")
    raise_setup
        "setup is verified and committed, but the timer could not be enabled; the timer and worker are disabled"

  -- `enable_timer_after_commit`
  unfoldable pub enable_timer_after_commit : Target → M (Unit {0})
  enable_timer_after_commit paths = do
    enabled ← systemctl (codes "enable" ∷ codes "--now" ∷ timer_unit paths ∷ [])
    when (not (enabled.returncode == 0)) (contain_timer paths)
