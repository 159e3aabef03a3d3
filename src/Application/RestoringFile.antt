-- ===== src/Application/RestoringFile.antt =====
-- What `_rollback_api` and `_rollback_static` (libexec/wg_healthcheck_setup/application.py) do with one
-- file and its snapshot.
use air_vpn_wg_healthcheck.Store.Create.{restore_snapshot}
use air_vpn_wg_healthcheck.Text.{Text, codes, text_eq}
use air_vpn_wg_healthcheck.Prelude.{
  Bool, Option, String, ap, false, if◌then◌else◌, inl, inr, none, not, refl, some, subst, sym, true,
  ◌≡◌, ◌⊎◌,
}
use air_vpn_wg_healthcheck.Effect.{raise_if, setup}
use air_vpn_wg_healthcheck.Effect.Hoare.{Triple, Triple-bind, Triple-consequence, Triple-raise_if}
use air_vpn_wg_healthcheck.Disk.{Disk, Entry, at, bytes_at}
use air_vpn_wg_healthcheck.Journal.{SetupJournal}
use air_vpn_wg_healthcheck.System.{Target}
use air_vpn_wg_healthcheck.Store.Unlinking.{Gone, Tested, Triple-present}
use air_vpn_wg_healthcheck.Store.Restoring.{
  HasSnapshot, IsRestoring, OthersRestored, Triple-restore_snapshot,
}
use air_vpn_wg_healthcheck.Store.AtomicWrite.{IsWellFormed}
use air_vpn_wg_healthcheck.Application.{restore_or_prepared}

-- What the target holds behind a rollback: the bytes of the snapshot, or its own where there is none.
abbrev pub restored_text : Option Text → Option Text → Option Text
restored_text none current = current
restored_text (some snapshot) current = some snapshot

module _ (before : Disk) (kept target : Entry) where
  abbrev pub Restored : Disk → Type 0
  Restored d =
      bytes_at d (at target)
      ≡ restored_text (bytes_at before (at kept)) (bytes_at before (at target))

  HasSnapshot→Restored : (d : Disk) → HasSnapshot before kept target d → Restored d
  HasSnapshot→Restored d (payload, snapshot, new) = rw snapshot new

  pub record IsBack (d : Disk) : Type 0 where
    pub others_same : OthersRestored before kept target d
    pub back : Restored d
    pub formed : IsWellFormed d

  pub record IsPartlyBack (d : Disk) : Type 0 where
    pub others_same : OthersRestored before kept target d
    pub old_or_back : (bytes_at d (at target) ≡ bytes_at before (at target)) ⊎ Restored d

  IsPartlyBack-start : (d : Disk) → d ≡ before → IsPartlyBack d
  IsPartlyBack-start d e = record {
    others_same = λ p _ _ _. ap (λ (x : Disk). bytes_at x p) e;
    old_or_back = inl (ap (λ (x : Disk). bytes_at x (at target)) e);
  }

  IsRestoring→IsPartlyBack : (d : Disk) → IsRestoring before kept target d → IsPartlyBack d
  IsRestoring→IsPartlyBack d x = record {
    others_same = x.others_same;
    old_or_back = elim x.old_or_restored [
      | inl old ↦ inl old
      | inr new ↦ inr (HasSnapshot→Restored d new)
    ];
  }

  IsBack-none : IsWellFormed before → (d : Disk) → d ≡ before → Gone (at kept) d → IsBack d
  IsBack-none formed d e gone = record {
    others_same = λ p _ _ _. ap (λ (x : Disk). bytes_at x p) e;
    back =
        let missing : before.names (at kept) ≡ none = subst (Gone (at kept)) e gone in
        rw missing (ap (λ (x : Disk). bytes_at x (at target)) e);
    formed = subst IsWellFormed (sym e) formed;
  }

  pub Triple-restore_or_prepared :
      (paths : Target) (j : SetupJournal) (message : String)
      → IsWellFormed before
      → Triple
          (λ d. d ≡ before)
          (restore_or_prepared paths j kept target message)
          (λ _. IsBack)
          IsPartlyBack
  unfolding restore_or_prepared
  Triple-restore_or_prepared paths j message formed =
      Triple-bind (Tested (λ d. d ≡ before) (at kept))
        (Triple-consequence (Triple-present (λ d. d ≡ before) (at kept)) (λ d e. e) (λ _ d s. s)
          IsPartlyBack-start)
        by_presence
    where
      by_presence :
          (present : Bool)
          → Triple
              (Tested (λ d. d ≡ before) (at kept) present)
              (if present
                then restore_snapshot kept target paths.trusted_uid
                else raise_if (not (text_eq j.phase (codes "prepared"))) (setup message))
              (λ _. IsBack)
              IsPartlyBack
      by_presence true =
          Triple-consequence (Triple-restore_snapshot before kept target paths.trusted_uid formed)
            (λ d s. s.0)
            (λ _ d x. record {
              others_same = x.others_same;
              back = HasSnapshot→Restored d x.restored;
              formed = x.formed;
            })
            IsRestoring→IsPartlyBack
      by_presence false =
          Triple-consequence
            (Triple-raise_if {P = λ d. (d ≡ before) × Gone (at kept) d} {E = λ d. d ≡ before} _ _
              (λ d s. s.0))
            (λ d s. (s.0, s.1 refl)) (λ _ d s. IsBack-none formed d s.1.0 s.1.1) IsPartlyBack-start
