-- ===== src/Application/RollingBack.antt =====
-- `_rollback_static` (libexec/wg_healthcheck_setup/application.py), from the snapshot to the cleanup.
use air_vpn_wg_healthcheck.Application.Persisting.{
  Holds, OnlyJournal, Persisted, Triple-persist_journal, Untorn,
}
use air_vpn_wg_healthcheck.Application.Cleanup.{
  IsCleaning, IsForeign, SnapshotsGone, cleanup_transaction-IsCleaning, transaction_paths,
}
use air_vpn_wg_healthcheck.Prelude.{All, inl, inr, refl, ◌∙◌, ◌≡◌, ◌≢◌, ◌⊎◌}
use air_vpn_wg_healthcheck.Effect.{World, ◌>>◌}
use air_vpn_wg_healthcheck.Effect.Hoare.{
  Ensures, Triple, Triple-bind, Triple-consequence, Triple-each, Triple-from,
}
use air_vpn_wg_healthcheck.Disk.{
  Disk, FilePath, at, bytes_at, config_previous, health_config, journal, staging,
}
use air_vpn_wg_healthcheck.Journal.{SetupJournal}
use air_vpn_wg_healthcheck.System.{Target}
use air_vpn_wg_healthcheck.Store.Unlinking.{Gone}
use air_vpn_wg_healthcheck.Store.Restoring.{OthersRestored}
use air_vpn_wg_healthcheck.Store.AtomicWrite.{IsWellFormed}
use air_vpn_wg_healthcheck.Application.{
  cleanup_transaction, persist_journal, rollback_static, rolled_back,
}
use air_vpn_wg_healthcheck.Application.RestoringFile.{
  IsBack, IsPartlyBack, Restored, Triple-restore_or_prepared,
}

-- The paths that a rollback of the configuration may change.
abbrev pub IsOutside : FilePath → Type 0
IsOutside p =
    IsForeign p × (p ≢ at health_config) × (p ≢ staging health_config) × (p ≢ staging journal)

abbrev ConfigRestored : Disk → Disk → Type 0
ConfigRestored before = Restored before config_previous health_config

-- Either the rollback can be repeated from the same journal and the same snapshot, or the configuration is
-- restored and the journal says so as long as a snapshot is left.
pub data Progress (before : Disk) (j : SetupJournal) (d : Disk) : Type 0 where
  repeatable :
      bytes_at d (at journal) ≡ bytes_at before (at journal)
      → bytes_at d (at config_previous) ≡ bytes_at before (at config_previous)
      → (bytes_at d (at health_config) ≡ bytes_at before (at health_config))
        ⊎ ConfigRestored before d
      → Progress before j d
  recorded :
      ConfigRestored before d → Holds d (rolled_back j) ⊎ SnapshotsGone d → Progress before j d

pub record IsRollingBack (before : Disk) (j : SetupJournal) (d : Disk) : Type 0 where
  pub others_same : (p : FilePath) → IsOutside p → bytes_at d p ≡ bytes_at before p
  pub progress : Progress before j d

pub record IsRolledBack (before d : Disk) : Type 0 where
  pub others_same : (p : FilePath) → IsOutside p → bytes_at d p ≡ bytes_at before p
  pub config_restored : ConfigRestored before d
  pub transaction_gone : All (λ p. Gone p d) transaction_paths

module _ (before : Disk) (j : SetupJournal) where
  outside_same :
      (d : Disk)
      → OthersRestored before config_previous health_config d
      → (p : FilePath) → IsOutside p
      → bytes_at d p ≡ bytes_at before p
  outside_same d same p n = same p n.0.1.0 n.2 n.1

  IsPartlyBack→IsRollingBack :
      (d : Disk) → IsPartlyBack before config_previous health_config d → IsRollingBack before j d
  IsPartlyBack→IsRollingBack d x = record {
    others_same = outside_same d x.others_same;
    progress =
        repeatable (x.others_same (at journal) (λ e. cc) (λ e. cc) (λ e. cc))
          (x.others_same (at config_previous) (λ e. cc) (λ e. cc) (λ e. cc)) x.old_or_back;
  }

  module _ (back : Disk) (x : IsBack before config_previous health_config back) where
    journaled_same :
        (d : Disk)
        → OnlyJournal back d
        → (p : FilePath) → IsOutside p
        → bytes_at d p ≡ bytes_at before p
    journaled_same d only p n = only p n.3 n.0.1.1.1.1.0 ∙ outside_same back x.others_same p n

    still_restored : (d : Disk) → OnlyJournal back d → ConfigRestored before d
    still_restored d only = only (at health_config) (λ e. cc) (λ e. cc) ∙ x.back

    Untorn→IsRollingBack : (d : Disk) → Untorn back (rolled_back j) d → IsRollingBack before j d
    Untorn→IsRollingBack d (only, written) = record {
      others_same = journaled_same d only;
      progress = elim written [
        | inl old ↦
            repeatable (old ∙ x.others_same (at journal) (λ e. cc) (λ e. cc) (λ e. cc))
              (only (at config_previous) (λ e. cc) (λ e. cc)
                ∙ x.others_same (at config_previous) (λ e. cc) (λ e. cc) (λ e. cc))
              (inr (still_restored d only))
        | inr new ↦ recorded (still_restored d only) (inl new)
      ];
    }

    module _ (persisted : Disk) (only : OnlyJournal back persisted)
        (holds : Holds persisted (rolled_back j)) where
      config-IsForeign : IsForeign (at health_config)
      config-IsForeign =
          ((λ e. cc), ((λ e. cc), ((λ e. cc), ((λ e. cc), ((λ e. cc), ((λ e. cc), tt))))))

      cleaned_same :
          (d : Disk)
          → IsCleaning persisted d
          → (p : FilePath) → IsOutside p
          → bytes_at d p ≡ bytes_at before p
      cleaned_same d c p n = c.others_same p n.0 ∙ journaled_same persisted only p n

      cleaned_restored : (d : Disk) → IsCleaning persisted d → ConfigRestored before d
      cleaned_restored d c =
          c.others_same (at health_config) config-IsForeign ∙ still_restored persisted only

      Holds-same :
          (d : Disk)
          → bytes_at d (at journal) ≡ bytes_at persisted (at journal)
          → Holds d (rolled_back j)
      Holds-same d same = record {
        payload = holds.payload;
        found = same ∙ holds.found;
        fits = holds.fits;
        meaning = holds.meaning;
      }

      IsCleaning→IsRollingBack : (d : Disk) → IsCleaning persisted d → IsRollingBack before j d
      IsCleaning→IsRollingBack d c = record {
        others_same = cleaned_same d c;
        progress =
            recorded (cleaned_restored d c)
              (elim c.journal_last [ inl same ↦ inl (Holds-same d same) | inr gone ↦ inr gone ]);
      }

      Clean→IsRolledBack :
          (d : Disk)
          → IsCleaning persisted d
          → All (λ p. Gone p d) transaction_paths
          → IsRolledBack before d
      Clean→IsRolledBack d c gone = record {
        others_same = cleaned_same d c;
        config_restored = cleaned_restored d c;
        transaction_gone = gone;
      }

  Triple-record :
      (paths : Target) (back : Disk)
      → IsBack before config_previous health_config back
      → Triple
          (λ d. d ≡ back)
          (persist_journal paths (rolled_back j) >> cleanup_transaction paths)
          (λ _. IsRolledBack before)
          (IsRollingBack before j)
  Triple-record paths back x =
      Triple-bind (λ _. Persisted back (rolled_back j))
        (Triple-consequence (Triple-persist_journal back (rolled_back j) paths x.formed) (λ d e. e)
          (λ _ d s. s) (Untorn→IsRollingBack back x))
        λ _. Triple-from λ persisted s.
          Triple-consequence
            (Triple-each (λ start _ d. IsCleaning start d × All (λ p. Gone p d) transaction_paths)
              IsCleaning (cleanup_transaction-IsCleaning paths) persisted)
            (λ d e. e) (λ _ d c. Clean→IsRolledBack back x persisted s.0 s.1 d c.0 c.1)
            (IsCleaning→IsRollingBack back x persisted s.0 s.1)

  pub Triple-rollback_static :
      (paths : Target)
      → IsWellFormed before
      → Triple
          (λ d. d ≡ before)
          (rollback_static paths j)
          (λ _. IsRolledBack before)
          (IsRollingBack before j)
  unfolding rollback_static
  Triple-rollback_static paths formed =
      Triple-bind (λ _. IsBack before config_previous health_config)
        (Triple-consequence
          (Triple-restore_or_prepared before config_previous health_config paths j _ formed)
          (λ d e. e) (λ _ d s. s) IsPartlyBack→IsRollingBack)
        λ _. Triple-from (Triple-record paths)

-- However `rollback_static` ends, on a disk where every name points to an inode that exists, every path
-- outside the transaction, the configuration and their staging paths holds what it held. If it returns, the
-- configuration holds the bytes of the snapshot, or its own where there was no snapshot, and no name of the
-- transaction is left. If it raises or is killed, at any call, either the journal and the snapshot hold
-- what they held and the configuration holds its old bytes or the restored ones, so that the rollback can be
-- repeated; or the configuration is restored, and the journal holds a record of the phase rolled-back or
-- neither snapshot nor snapshot staging path is left.
pub rollback_static-IsRolledBack :
    (paths : Target) (j : SetupJournal) (w : World)
    → IsWellFormed w.disk
    → Ensures (λ _. IsRolledBack w.disk) (IsRollingBack w.disk j) (rollback_static paths j w)
rollback_static-IsRolledBack paths j w formed =
    (Triple-rollback_static w.disk j paths formed).run w refl
