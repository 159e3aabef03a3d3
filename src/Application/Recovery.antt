-- ===== src/Application/Recovery.antt =====
-- `_recover_setup_transaction` of libexec/wg_healthcheck_setup/application.py.
use air_vpn_wg_healthcheck.Effect.{
  M, end_of_input, interrupt, os_error, pure, raise, setup_error, try_except, ◌>>=◌, ◌>>◌,
}
use air_vpn_wg_healthcheck.Prelude.{Bool, [], false, if◌then◌else◌, ltb, true, ℕ, ◌&&◌, ◌∷◌}
use air_vpn_wg_healthcheck.Text.{codes, mem_text, text_eq}
use air_vpn_wg_healthcheck.Disk.{journal}
use air_vpn_wg_healthcheck.Journal.{SetupJournal, is_api_operation}
use air_vpn_wg_healthcheck.System.{
  HealthProofStart, Run, Target, health_proof_is_complete, verify_health,
}
use air_vpn_wg_healthcheck.Credential.{path_exists, read_journal}
use air_vpn_wg_healthcheck.Application.{
  assert_setup_artifacts_clear, begin_journaled_health_proof, cleanup_transaction,
  discard_setup_staging, journal_health_proof, persist_journal, reconcile_runtime_for_recovery,
  rollback_api, rollback_static, static_restore_is_visible,
}

abbrev pub verified : SetupJournal → SetupJournal
verified j = record j { phase = codes "verified" }

-- the record of the verified setup, and the end of the transaction
unfoldable pub commit_verified : Target → SetupJournal → M (Unit {0})
commit_verified paths j = do persist_journal paths (verified j); cleanup_transaction paths

abbrev pub may_verify : SetupJournal → Bool
may_verify j =
    text_eq j.phase (codes "activated")
    && mem_text j.operation (codes "api-update" ∷ codes "static" ∷ [])

abbrev pub may_be_complete : SetupJournal → Bool
may_be_complete j = text_eq j.phase (codes "verifying") && ltb 0 j.verify_started

abbrev pub may_be_restored : SetupJournal → Bool
may_be_restored j =
    text_eq j.operation (codes "static-restore")
    && mem_text j.phase (codes "activating" ∷ codes "activated" ∷ codes "verifying" ∷ [])

module _ (run : Run) (now : M ℕ) (paths : Target) (lease_fd : ℕ) where
  -- the last statement of `_recover_setup_transaction`
  unfoldable pub rollback : SetupJournal → M (Unit {0})
  rollback j =
      if is_api_operation j.operation
      then rollback_api run paths lease_fd j
      else rollback_static paths j

  -- `except SetupError: pass`, with the answer whether the health proof succeeded
  unfoldable pub proved_healthy : HealthProofStart → M Bool
  proved_healthy proof =
      try_except (verify_health run now paths lease_fd proof >> pure true) (elim [
        | setup_error message ↦ pure false
        | os_error e ↦ raise (os_error e)
        | end_of_input ↦ raise end_of_input
        | interrupt ↦ raise interrupt
      ])

  -- A setup that was activated, and not yet verified, is verified now.
  unfoldable pub verify_or_rollback : SetupJournal → M (Unit {0})
  verify_or_rollback j = do
    (verifying, proof) ← begin_journaled_health_proof now paths j
    healthy ← proved_healthy proof
    if healthy then commit_verified paths verifying else rollback verifying

  unfoldable pub settle : SetupJournal → M (Unit {0})
  settle j = do
    complete ←
        (if may_be_complete j
          then health_proof_is_complete now paths (journal_health_proof j)
          else pure false)
    if complete
        then commit_verified paths j
        else if may_verify j
        then verify_or_rollback j
        else rollback j

  -- The decision on a journal that was read.
  unfoldable pub recover_journal : SetupJournal → M (Unit {0})
  recover_journal j =
      if mem_text j.phase (codes "verified" ∷ codes "rolled-back" ∷ [])
      then cleanup_transaction paths
      else do
        restored ← (if may_be_restored j then static_restore_is_visible paths else pure false)
        if restored then cleanup_transaction paths else settle j

  -- `_recover_setup_transaction`
  unfoldable pub recover_setup_transaction : M (Unit {0})
  recover_setup_transaction = do
    discard_setup_staging paths
    interrupted_before ← path_exists journal
    if interrupted_before
        then (do
          j ← read_journal paths
          reconcile_runtime_for_recovery run paths lease_fd
          recover_journal j)
        else assert_setup_artifacts_clear
