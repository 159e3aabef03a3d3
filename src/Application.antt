-- ===== src/Application.antt =====
-- The setup transactions: libexec/wg_healthcheck_setup/application.py. Each function makes the
-- steps of the source in its order; `run` and `now` are the callables that the source passes on.
-- An exception handler `except BaseException` is a `try_except` that catches all of them.
pub mod Journals
pub mod Cleanup
pub mod Persisting
pub mod Reread
pub mod RestoringFile
pub mod RollingBack
pub mod Recovery
pub mod Apply
pub mod Request
use air_vpn_wg_healthcheck.Os.{present_call}
use air_vpn_wg_healthcheck.Effect.{M, pure, raise_if, setup, system_call, when, ◌>>=◌, ◌>>◌}
use air_vpn_wg_healthcheck.Prelude.{
  Bool, List, Option, String, [], false, if◌then◌else◌, none, not, some, true, ℕ, ◌&&◌, ◌==◌, ◌∷◌,
}
use air_vpn_wg_healthcheck.Text.{Text, codes, text_eq}
use air_vpn_wg_healthcheck.Disk.{
  Entry, FilePath, at, candidate, config_previous, credential, credential_previous, health_config,
  journal, pending, pre_managed, profile, safety, snapshot_staging, staging,
}
use air_vpn_wg_healthcheck.Store.{discard_private_staging, secure_read}
use air_vpn_wg_healthcheck.Store.Create.{atomic_write, durable_unlink, restore_snapshot}
use air_vpn_wg_healthcheck.Config.{config_value, max_config_bytes}
use air_vpn_wg_healthcheck.Journal.{SetupJournal, render_journal}
use air_vpn_wg_healthcheck.System.{
  HealthProofStart, Run, Target, begin_health_proof, lift, runtime_call,
}
use air_vpn_wg_healthcheck.Credential.{path_exists, profile_source_key}

abbrev pub max_profile_bytes : ℕ
max_profile_bytes = 1_048_576

-- `_persist_journal`, with `_write_journal`
unfoldable pub persist_journal : Target → SetupJournal → M (Unit {0})
persist_journal paths j = do
  payload ← lift (render_journal j)
  atomic_write journal payload paths.trusted_uid

-- `_cleanup_transaction`: the journal goes last.
unfoldable pub cleanup_transaction : Target → M (Unit {0})
cleanup_transaction paths = do
  durable_unlink config_previous paths.trusted_uid false
  durable_unlink credential_previous paths.trusted_uid false
  durable_unlink journal paths.trusted_uid false

-- `_rolled_back`
abbrev pub rolled_back : SetupJournal → SetupJournal
rolled_back j = record j {
  phase = codes "rolled-back";
  verify_started = 0;
  status_before_dev = 0;
  status_before_ino = 0;
}

-- any(_exists(path) for path in paths): the tests stop at the first that holds
unfoldable pub any_present : List FilePath → M Bool
any_present [] = pure false
any_present (p ∷ ps) =
    let rest = any_present ps in
    do present ← system_call (present_call p); if present then pure true else rest

-- `_assert_runtime_artifacts_clear`
unfoldable pub assert_runtime_artifacts_clear : M (Unit {0})
assert_runtime_artifacts_clear = do
  present ← any_present (at pending ∷ at safety ∷ at candidate ∷ [])
  raise_if present (setup "runtime recovery state must be resolved before setup")

abbrev pub setup_artifacts : List FilePath
setup_artifacts =
    at journal
    ∷ at config_previous
    ∷ at credential_previous
    ∷ snapshot_staging config_previous
    ∷ snapshot_staging credential_previous
    ∷ staging journal
    ∷ staging health_config
    ∷ staging credential
    ∷ []

-- `_assert_setup_artifacts_clear`
unfoldable pub assert_setup_artifacts_clear : M (Unit {0})
assert_setup_artifacts_clear = do
  present ← any_present setup_artifacts
  raise_if present (setup "a previous setup transaction requires recovery")

-- `_discard_setup_staging`
unfoldable pub discard_setup_staging : Target → M (Unit {0})
discard_setup_staging paths = do
  discard_private_staging journal paths.trusted_uid
  discard_private_staging health_config paths.trusted_uid
  discard_private_staging credential paths.trusted_uid

-- a runtime command that must succeed
unfoldable pub runtime_step : Run → Target → ℕ → Text → List Text → String → M (Unit {0})
runtime_step run paths lease_fd command arguments message = do
  completed ← runtime_call run command paths lease_fd arguments []
  raise_if (not (completed.returncode == 0)) (setup message)

-- `_reconcile_runtime_for_recovery`
unfoldable pub reconcile_runtime_for_recovery : Run → Target → ℕ → M (Unit {0})
reconcile_runtime_for_recovery run paths lease_fd = do
  interrupted_change ← any_present (at pending ∷ at safety ∷ [])
  when interrupted_change (
      runtime_step run paths lease_fd (codes "check") []
        "runtime could not reconcile an interrupted profile change")
  left_candidate ← path_exists candidate
  when left_candidate (
      runtime_step run paths lease_fd (codes "cleanup-candidate") (codes "--apply" ∷ [])
        "runtime could not reconcile an interrupted profile candidate")
  assert_runtime_artifacts_clear

-- Restoring one file from its snapshot, which may be missing only in the phase `prepared`.
unfoldable pub restore_or_prepared : Target → SetupJournal → Entry → Entry → String → M (Unit {0})
restore_or_prepared paths j kept target message = do
  present ← path_exists kept
  if present
      then restore_snapshot kept target paths.trusted_uid
      else raise_if (not (text_eq j.phase (codes "prepared"))) (setup message)

-- The credential of `_rollback_api`.
unfoldable pub restore_credential : Target → SetupJournal → M (Unit {0})
restore_credential paths j =
    if j.key_changed
    then (if j.had_key
        then restore_or_prepared paths j credential_previous credential
            "the previous credential snapshot is missing"
        else durable_unlink credential paths.trusted_uid false)
    else do
      unexpected ← path_exists credential_previous
      raise_if unexpected (setup "an unexpected credential snapshot requires inspection")

abbrev pub is_new_adoption : SetupJournal → Bool
is_new_adoption j = text_eq j.operation (codes "adopt") && not j.had_pre_managed

unfoldable pub restore_profile : Run → Target → ℕ → SetupJournal → M (Unit {0})
restore_profile run paths lease_fd j = when (is_new_adoption j) (do
  present ← path_exists pre_managed
  when present (
      runtime_step run paths lease_fd (codes "restore-static") (codes "--apply" ∷ [])
        "runtime could not restore the pre-adoption profile"))

-- `_rollback_api`
unfoldable pub rollback_api : Run → Target → ℕ → SetupJournal → M (Unit {0})
rollback_api run paths lease_fd j = do
  reconcile_runtime_for_recovery run paths lease_fd
  restore_profile run paths lease_fd j
  restore_or_prepared paths j config_previous health_config
      "the previous configuration snapshot is missing"
  restore_credential paths j
  when (is_new_adoption j) (durable_unlink pre_managed paths.trusted_uid false)
  persist_journal paths (rolled_back j)
  cleanup_transaction paths

-- `_rollback_static`
unfoldable pub rollback_static : Target → SetupJournal → M (Unit {0})
rollback_static paths j = do
  restore_or_prepared paths j config_previous health_config
      "the previous configuration snapshot is missing"
  persist_journal paths (rolled_back j)
  cleanup_transaction paths

-- `_journal_health_proof`
unfoldable pub journal_health_proof : SetupJournal → HealthProofStart
journal_health_proof j = record {
  before =
      if j.status_before_dev == 0
      then none
      else some (j.status_before_dev, j.status_before_ino, 0, 0);
  started = j.verify_started;
}

abbrev pub before_device : HealthProofStart → ℕ
before_device proof = elim proof.before [ none ↦ 0 | some b ↦ b.0 ]

abbrev pub before_inode : HealthProofStart → ℕ
before_inode proof = elim proof.before [ none ↦ 0 | some b ↦ b.1 ]

abbrev pub verifying_journal : SetupJournal → HealthProofStart → SetupJournal
verifying_journal j proof = record j {
  phase = codes "verifying";
  verify_started = proof.started;
  status_before_dev = before_device proof;
  status_before_ino = before_inode proof;
}

-- `_begin_journaled_health_proof`
unfoldable pub begin_journaled_health_proof :
    M ℕ → Target → SetupJournal → M (SetupJournal × HealthProofStart)
begin_journaled_health_proof now paths j = do
  proof ← begin_health_proof now paths
  persist_journal paths (verifying_journal j proof)
  pure (verifying_journal j proof, proof)

unfoldable pub same_profile : Option Text → Option Text → Bool
same_profile (some profile_text) (some pre_managed_text) = text_eq profile_text pre_managed_text
same_profile _ _ = false

unfoldable pub is_static_config : Option Text → M Bool
is_static_config none = pure false
is_static_config (some config) = do
  value ← lift (config_value config profile_source_key)
  pure (elim value [ none ↦ false | some v ↦ text_eq v (codes "static") ])

-- `_static_restore_is_visible`
unfoldable pub static_restore_is_visible : Target → M Bool
static_restore_is_visible paths = do
  config ← secure_read (at health_config) paths.trusted_uid max_config_bytes true
  static ← is_static_config config
  if static
      then (do
        profile_text ← secure_read (at profile) paths.trusted_uid max_profile_bytes true
        pre_managed_text ← secure_read (at pre_managed) paths.trusted_uid max_profile_bytes true
        pure (same_profile profile_text pre_managed_text))
      else pure false
