-- ===== src/RecoveryExamples.antt =====
-- The theorems on recovery at an interrupted setup: a configuration, its snapshot and the journal.
use air_vpn_wg_healthcheck.Credential.{read_journal}
use air_vpn_wg_healthcheck.Application.Reread.{read_journal-persist_journal}
use air_vpn_wg_healthcheck.Application.{cleanup_transaction, persist_journal, rollback_static}
use air_vpn_wg_healthcheck.Store.Unlinking.{Gone}
use air_vpn_wg_healthcheck.Store.Create.{restore_snapshot}
use air_vpn_wg_healthcheck.Journal.{SetupJournal}
use air_vpn_wg_healthcheck.Prelude.{
  All, Option, [], arith, false, if◌then◌else◌, none, some, true, ℕ, ◌<◌, ◌==◌, ◌∷◌, ◌≡◌,
}
use air_vpn_wg_healthcheck.Text.{codes}
use air_vpn_wg_healthcheck.Disk.{
  Disk, FilePath, Inode, at, config_previous, directory, health_config, journal,
}
use air_vpn_wg_healthcheck.Effect.{World, broken, fail, go, kill, short, ◌>>◌}
use air_vpn_wg_healthcheck.Effect.Hoare.{Ensures}
use air_vpn_wg_healthcheck.Store.AtomicWrite.{IsWellFormed}
use air_vpn_wg_healthcheck.Store.Restoring.{IsRestored, IsRestoring, restore_snapshot-IsRestored}
use air_vpn_wg_healthcheck.Application.Cleanup.{
  IsCleaning, cleanup_transaction-IsCleaning, transaction_paths,
}
use air_vpn_wg_healthcheck.Application.Persisting.{Persisted, Untorn, persist_journal-Holds}
use air_vpn_wg_healthcheck.Application.RollingBack.{
  IsRolledBack, IsRollingBack, rollback_static-IsRolledBack,
}
use air_vpn_wg_healthcheck.Examples.{sample_file}
use air_vpn_wg_healthcheck.Journal.RoundTrip.{journal_text}
use air_vpn_wg_healthcheck.System.{Target}

abbrev interrupted_names : FilePath → Option ℕ
interrupted_names (at health_config) = some 0
interrupted_names (at config_previous) = some 1
interrupted_names (at journal) = some 2
interrupted_names _ = none

abbrev static_journal : SetupJournal
static_journal = record {
  operation = codes "static";
  phase = codes "prepared";
  had_key = true;
  had_pre_managed = true;
  key_changed = false;
  verify_started = 0;
  status_before_dev = 0;
  status_before_ino = 0;
}

abbrev interrupted_inodes : ℕ → Inode
interrupted_inodes i =
    if i == 0
    then sample_file
    else if i == 1
    then record sample_file { content = codes "A=0\n" }
    else record sample_file { content = journal_text static_journal }

abbrev interrupted_disk : Disk
interrupted_disk = record {
  names = interrupted_names;
  inodes = interrupted_inodes;
  next_inode = 3;
  directories = λ dir. some (record { kind = directory; mode = 0o700; uid = 0 });
  device = 7;
  euid = 0;
}

interrupted-IsWellFormed : IsWellFormed interrupted_disk
interrupted-IsWellFormed = record { named_below = named }
  where
    named : (p : FilePath) (i : ℕ) → interrupted_names p ≡ some i → i < 3
    named (at health_config) i h = ground arith
    named (at config_previous) i h = ground arith
    named (at journal) i h = ground arith
    named _ i h = cc

-- A failure and then a kill.
abbrev interrupted_world : World
interrupted_world = record {
  disk = interrupted_disk;
  events = go ∷ go ∷ short 3 ∷ fail broken ∷ kill ∷ [];
}

abbrev wg0 : Target
wg0 = record { iface = codes "wg0"; trusted_uid = 0 }

rollback_static-IsRolledBack_example :
    Ensures
      (λ _. IsRolledBack interrupted_disk)
      (IsRollingBack interrupted_disk static_journal)
      (rollback_static wg0 static_journal interrupted_world)
rollback_static-IsRolledBack_example =
    rollback_static-IsRolledBack wg0 static_journal interrupted_world interrupted-IsWellFormed

cleanup_transaction-IsCleaning_example :
    Ensures
      (λ _ d. IsCleaning interrupted_disk d × All (λ p. Gone p d) transaction_paths)
      (IsCleaning interrupted_disk)
      (cleanup_transaction wg0 interrupted_world)
cleanup_transaction-IsCleaning_example = cleanup_transaction-IsCleaning wg0 interrupted_world

restore_snapshot-IsRestored_example :
    Ensures
      (λ _. IsRestored interrupted_disk config_previous health_config)
      (IsRestoring interrupted_disk config_previous health_config)
      (restore_snapshot config_previous health_config 0 interrupted_world)
restore_snapshot-IsRestored_example =
    restore_snapshot-IsRestored config_previous health_config 0 interrupted_world
      interrupted-IsWellFormed

persist_journal-Holds_example :
    Ensures
      (λ _. Persisted interrupted_disk static_journal)
      (Untorn interrupted_disk static_journal)
      (persist_journal wg0 static_journal interrupted_world)
persist_journal-Holds_example =
    persist_journal-Holds wg0 static_journal interrupted_world interrupted-IsWellFormed

read_journal-persist_journal_example :
    Ensures
      (λ read d. (read ≡ static_journal) × Persisted interrupted_disk static_journal d)
      (Untorn interrupted_disk static_journal)
      ((persist_journal wg0 static_journal >> read_journal wg0) interrupted_world)
read_journal-persist_journal_example =
    read_journal-persist_journal wg0 static_journal interrupted_world interrupted-IsWellFormed
