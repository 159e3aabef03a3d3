-- ===== src/Application/Cleanup.antt =====
-- The order of `_cleanup_transaction` (libexec/wg_healthcheck_setup/application.py).
use air_vpn_wg_healthcheck.Effect.{World}
use air_vpn_wg_healthcheck.System.{Target}
use air_vpn_wg_healthcheck.Application.{cleanup_transaction}
use air_vpn_wg_healthcheck.Effect.Hoare.{Ensures, Triple, Triple-bind, Triple-consequence}
use air_vpn_wg_healthcheck.Store.Create.{durable_unlink}
use air_vpn_wg_healthcheck.Store.Removal.{BothGone, Keeps-Gone, Triple-durable_unlink}
use air_vpn_wg_healthcheck.Prelude.{
  All, List, [], false, inl, inr, none, refl, take, ℕ, ◌∙◌, ◌∷◌, ◌≡◌, ◌≢◌, ◌⊎◌,
}
use air_vpn_wg_healthcheck.Disk.{
  Disk, FilePath, at, bytes_at, config_previous, credential_previous, journal, snapshot_staging,
}
use air_vpn_wg_healthcheck.Disk.Update.{bytes_same, update_inode_field, update_name_other}
use air_vpn_wg_healthcheck.Store.Unlinking.{Gone, Keeps}

-- The names of a transaction: each snapshot and the journal, with their staging paths.
abbrev pub transaction_paths : List FilePath
transaction_paths =
    at config_previous
    ∷ snapshot_staging config_previous
    ∷ at credential_previous
    ∷ snapshot_staging credential_previous
    ∷ at journal
    ∷ snapshot_staging journal
    ∷ []

abbrev pub SnapshotsGone : Disk → Type 0
SnapshotsGone d =
    Gone (at config_previous) d
    × Gone (snapshot_staging config_previous) d
    × Gone (at credential_previous) d
    × Gone (snapshot_staging credential_previous) d

abbrev pub IsForeign : FilePath → Type 0
IsForeign p = All (λ q. p ≢ q) transaction_paths

-- Nothing outside the transaction changed, and the journal is there as long as a snapshot is.
pub record IsCleaning (before d : Disk) : Type 0 where
  pub others_same : (p : FilePath) → IsForeign p → bytes_at d p ≡ bytes_at before p
  pub journal_last : (bytes_at d (at journal) ≡ bytes_at before (at journal)) ⊎ SnapshotsGone d

module _ (before : Disk) where
  -- The names of other files, and all contents.
  record Frame (d : Disk) : Type 0 where
    names_same : (p : FilePath) → IsForeign p → d.names p ≡ before.names p
    contents_same : (i : ℕ) → (d.inodes i).content ≡ (before.inodes i).content

  JournalSame : Disk → Type 0
  JournalSame d = Frame d × (d.names (at journal) ≡ before.names (at journal))

  Frame-unlinked : (path : FilePath) → ((p : FilePath) → IsForeign p → p ≢ path) → Keeps Frame path
  Frame-unlinked path foreign d i f = record {
    names_same = λ p n. update_name_other d.names path p none (foreign p n) ∙ f.names_same p n;
    contents_same =
        λ j. update_inode_field (λ x. x.content) d.inodes i _ j refl ∙ f.contents_same j;
  }

  JournalSame-unlinked :
      (path : FilePath)
      → ((p : FilePath) → IsForeign p → p ≢ path)
      → at journal ≢ path
      → Keeps JournalSame path
  unfolding JournalSame
  JournalSame-unlinked path foreign n d i (f, e) =
      (Frame-unlinked path foreign d i f, update_name_other d.names path (at journal) none n ∙ e)

  Frame→IsCleaning :
      (d : Disk)
      → Frame d
      → (bytes_at d (at journal) ≡ bytes_at before (at journal)) ⊎ SnapshotsGone d
      → IsCleaning before d
  Frame→IsCleaning d f last = record {
    others_same = λ p n. bytes_same before d p f.contents_same (f.names_same p n);
    journal_last = last;
  }

  -- After the first removal, and after the second.
  ConfigGone : Disk → Type 0
  ConfigGone = BothGone JournalSame config_previous

  CredentialGone : Disk → Type 0
  CredentialGone = BothGone ConfigGone credential_previous

  ConfigGone-unlinked :
      (path : FilePath)
      → ((p : FilePath) → IsForeign p → p ≢ path)
      → at journal ≢ path
      → snapshot_staging config_previous ≢ path
      → at config_previous ≢ path
      → Keeps ConfigGone path
  unfolding ConfigGone
  ConfigGone-unlinked path foreign n a b = Keeps-Gone _ path (at config_previous) b (
      Keeps-Gone JournalSame path (snapshot_staging config_previous) a
        (JournalSame-unlinked path foreign n))

  Triple-config :
      (uid : ℕ)
      → Triple JournalSame (durable_unlink config_previous uid false) (λ _. ConfigGone) JournalSame
  unfolding ConfigGone
  Triple-config uid =
      Triple-durable_unlink JournalSame config_previous
        (JournalSame-unlinked (at config_previous) (λ p n. n.0) (λ e. cc))
        (JournalSame-unlinked (snapshot_staging config_previous) (λ p n. n.1.0) (λ e. cc)) uid false

  Triple-credential :
      (uid : ℕ)
      → Triple ConfigGone
          (durable_unlink credential_previous uid false)
          (λ _. CredentialGone)
          ConfigGone
  unfolding CredentialGone
  Triple-credential uid =
      Triple-durable_unlink ConfigGone credential_previous
        (ConfigGone-unlinked (at credential_previous) (λ p n. n.1.1.0) (λ e. cc) (λ e. cc)
          (λ e. cc))
        (ConfigGone-unlinked (snapshot_staging credential_previous) (λ p n. n.1.1.1.0) (λ e. cc)
          (λ e. cc) (λ e. cc))
        uid false

  -- The snapshots are gone, and nothing is known of the journal.
  LastStep : Disk → Type 0
  LastStep d = Frame d × SnapshotsGone d

  CredentialGone→LastStep : (d : Disk) → CredentialGone d → LastStep d
  unfolding CredentialGone ConfigGone LastStep JournalSame
  CredentialGone→LastStep d h = (h.0.0.0.0.0, (h.0.0.1, h.0.0.0.1, h.1, h.0.1))

  LastStep-unlinked :
      (path : FilePath)
      → ((p : FilePath) → IsForeign p → p ≢ path)
      → All (λ q. q ≢ path) (take 4 transaction_paths)
      → Keeps LastStep path
  unfolding LastStep
  LastStep-unlinked path foreign n d i (f, (a, b, c, e)) = (
    Frame-unlinked path foreign d i f,
    (
      update_name_other d.names path (at config_previous) none n.0 ∙ a,
      update_name_other d.names path (snapshot_staging config_previous) none n.1.0 ∙ b,
      update_name_other d.names path (at credential_previous) none n.1.1.0 ∙ c,
      update_name_other d.names path (snapshot_staging credential_previous) none n.1.1.1.0 ∙ e,
    ),
  )

  Triple-journal :
      (uid : ℕ)
      → Triple LastStep (durable_unlink journal uid false) (λ _. BothGone LastStep journal) LastStep
  Triple-journal uid =
      Triple-durable_unlink LastStep journal
        (LastStep-unlinked (at journal) (λ p n. n.1.1.1.1.0)
          ((λ e. cc), ((λ e. cc), ((λ e. cc), ((λ e. cc), tt)))))
        (LastStep-unlinked (snapshot_staging journal) (λ p n. n.1.1.1.1.1.0)
          ((λ e. cc), ((λ e. cc), ((λ e. cc), ((λ e. cc), tt)))))
        uid false

  JournalSame→IsCleaning : (d : Disk) → JournalSame d → IsCleaning before d
  unfolding JournalSame
  JournalSame→IsCleaning d (f, e) =
      Frame→IsCleaning d f (inl (bytes_same before d (at journal) f.contents_same e))

  LastStep→IsCleaning : (d : Disk) → LastStep d → IsCleaning before d
  unfolding LastStep
  LastStep→IsCleaning d (f, gone) = Frame→IsCleaning d f (inr gone)

  ConfigGone→IsCleaning : (d : Disk) → ConfigGone d → IsCleaning before d
  unfolding ConfigGone
  ConfigGone→IsCleaning d h = JournalSame→IsCleaning d h.0.0

  -- Every name of the transaction is gone.
  Clean : Disk → Type 0
  Clean d = IsCleaning before d × All (λ p. Gone p d) transaction_paths

  Clean-last : (d : Disk) → BothGone LastStep journal d → Clean d
  unfolding Clean LastStep
  Clean-last d (((f, (a, b, c, e)), staged), gone) =
      (Frame→IsCleaning d f (inr (a, b, c, e)), (a, (b, (c, (e, (gone, (staged, tt)))))))

  Triple-cleanup_transaction :
      (paths : Target)
      → Triple JournalSame (cleanup_transaction paths) (λ _. Clean) (IsCleaning before)
  unfolding cleanup_transaction
  Triple-cleanup_transaction paths =
      Triple-bind (λ _. ConfigGone)
        (Triple-consequence (Triple-config paths.trusted_uid) (λ d s. s) (λ _ d s. s)
          JournalSame→IsCleaning)
        λ _.
          Triple-bind (λ _. CredentialGone)
            (Triple-consequence (Triple-credential paths.trusted_uid) (λ d s. s) (λ _ d s. s)
              ConfigGone→IsCleaning)
            λ _.
              Triple-consequence (Triple-journal paths.trusted_uid) CredentialGone→LastStep
                (λ _. Clean-last) LastStep→IsCleaning

-- However `cleanup_transaction` ends, by a return, an exception or a kill at any call, every path outside
-- the transaction holds what it held, and the journal holds what it held as long as a snapshot or its
-- staging path is left: it goes last. If it returns, no name of the transaction is left: neither the
-- snapshots nor the journal nor their snapshot staging paths.
pub cleanup_transaction-IsCleaning :
    (paths : Target) (w : World)
    → Ensures
        (λ _ d. IsCleaning w.disk d × All (λ p. Gone p d) transaction_paths)
        (IsCleaning w.disk)
        (cleanup_transaction paths w)
unfolding Clean JournalSame
cleanup_transaction-IsCleaning paths w =
    (Triple-cleanup_transaction w.disk paths).run w
      (record { names_same = λ p n. refl; contents_same = λ i. refl }, refl)
