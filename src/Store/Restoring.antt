-- ===== src/Store/Restoring.antt =====
-- What `restore_snapshot` (libexec/wg_healthcheck_setup/store.py) leaves on the disk.
use air_vpn_wg_healthcheck.Text.{Text}
use air_vpn_wg_healthcheck.Prelude.{
  Option, ap, inl, inr, none, refl, some, subst, sym, true, ℕ, ◌<◌, ◌∙◌, ◌≡◌, ◌≢◌, ◌⊎◌,
}
use air_vpn_wg_healthcheck.Effect.{World}
use air_vpn_wg_healthcheck.Effect.Hoare.{
  Ensures, Triple, Triple-bind, Triple-consequence, Triple-from, Triple-given, Triple-raise,
}
use air_vpn_wg_healthcheck.Disk.{
  Disk, Entry, FilePath, FilePath-discrete, at, bytes_at, snapshot_staging, staging,
}
use air_vpn_wg_healthcheck.Disk.Update.{
  bytes_same, update_inode_field, update_name_other, update_name_same,
}
use air_vpn_wg_healthcheck.Store.Create.{restore_snapshot, write_snapshot}
use air_vpn_wg_healthcheck.Store.Unlinking.{Gone, Keeps, unlinked}
use air_vpn_wg_healthcheck.Store.Removal.{Triple-clean_snapshot_staging}
use air_vpn_wg_healthcheck.Store.SecureRead.{IsRead, Triple-secure_read}
use air_vpn_wg_healthcheck.Store.AtomicWrite.{
  IsOldOrNew, IsReplaced, IsWellFormed, OthersSame, Triple-IsReplaced,
}

module _ (before : Disk) (kept : Entry) where
  -- Nothing but the staging name of the snapshot is gone.
  record Swept (d : Disk) : Type 0 where
    names_same : (p : FilePath) → p ≢ snapshot_staging kept → d.names p ≡ before.names p
    contents_same : (i : ℕ) → (d.inodes i).content ≡ (before.inodes i).content
    formed : IsWellFormed d

  Swept-start : IsWellFormed before → Swept before
  Swept-start formed = record {
    names_same = λ p n. refl;
    contents_same = λ i. refl;
    formed = formed;
  }

  unlinked-IsWellFormed : (path : FilePath) → Keeps IsWellFormed path
  unlinked-IsWellFormed path d i formed = record {
    named_below = λ p j. below p j (FilePath-discrete p path);
  }
    where
      below :
          (p : FilePath) (j : ℕ)
          → Dec (p ≡ path)
          → (unlinked d path i).names p ≡ some j
          → j < d.next_inode
      below p j (yes e) h =
          let gone : (unlinked d path i).names path ≡ none = update_name_same d.names path none in
          let same : (unlinked d path i).names p ≡ (unlinked d path i).names path =
            ap (unlinked d path i).names e in
          cc
      below p j (no n) h =
          formed.named_below p j (sym (update_name_other d.names path p none n) ∙ h)

  Swept-unlinked : Keeps Swept (snapshot_staging kept)
  Swept-unlinked d i s = record {
    names_same =
        λ p n. update_name_other d.names (snapshot_staging kept) p none n ∙ s.names_same p n;
    contents_same =
        λ j. update_inode_field (λ x. x.content) d.inodes i _ j refl ∙ s.contents_same j;
    formed = unlinked-IsWellFormed (snapshot_staging kept) d i s.formed;
  }

  Swept-same :
      (d : Disk) (p : FilePath)
      → Swept d
      → p ≢ snapshot_staging kept
      → bytes_at d p ≡ bytes_at before p
  Swept-same d p s n = bytes_same before d p s.contents_same (s.names_same p n)

module _ (before : Disk) (kept target : Entry) where
  -- Every path but the target and the staging paths holds what it held.
  abbrev pub OthersRestored : Disk → Type 0
  OthersRestored d =
      (p : FilePath)
      → p ≢ snapshot_staging kept
      → p ≢ staging target
      → p ≢ at target
      → bytes_at d p ≡ bytes_at before p

  -- The target holds the bytes that the snapshot held.
  abbrev pub HasSnapshot : Disk → Type 0
  HasSnapshot d =
      (payload : Text) × (bytes_at before (at kept) ≡ some payload)
      × (bytes_at d (at target) ≡ some payload)

  pub record IsRestored (d : Disk) : Type 0 where
    pub others_same : OthersRestored d
    pub restored : HasSnapshot d
    pub formed : IsWellFormed d

  pub record IsRestoring (d : Disk) : Type 0 where
    pub others_same : OthersRestored d
    pub old_or_restored : (bytes_at d (at target) ≡ bytes_at before (at target)) ⊎ HasSnapshot d

  Swept→IsRestoring : (d : Disk) → Swept before kept d → IsRestoring d
  Swept→IsRestoring d s = record {
    others_same = λ p n _ _. Swept-same before kept d p s n;
    old_or_restored = inl (Swept-same before kept d (at target) s (λ e. cc));
  }

  module _ (swept : Disk) (s : Swept before kept swept) (payload : Text)
      (read : bytes_at swept (at kept) ≡ some payload) where
    snapshot_same : bytes_at before (at kept) ≡ some payload
    snapshot_same = sym (Swept-same before kept swept (at kept) s (λ e. cc)) ∙ read

    others_restored : (d : Disk) → OthersSame swept target d → OthersRestored d
    others_restored d same p n m k = same p m k ∙ Swept-same before kept swept p s n

    written-IsRestored : (uid : ℕ) (d : Disk) → IsReplaced swept target uid payload d → IsRestored d
    written-IsRestored uid d x = record {
      others_same = others_restored d x.others_same;
      restored = (payload, snapshot_same, x.new_text);
      formed = x.formed;
    }

    written-IsRestoring : (d : Disk) → IsOldOrNew swept target payload d → IsRestoring d
    written-IsRestoring d x = record {
      others_same = others_restored d x.others_same;
      old_or_restored = elim x.old_or_new [
        | inl old ↦ inl (old ∙ Swept-same before kept swept (at target) s (λ e. cc))
        | inr new ↦ inr (payload, snapshot_same, new)
      ];
    }

  Triple-write_snapshot :
      (swept : Disk) (uid : ℕ) (payload : Option Text)
      → Swept before kept swept
      → Triple
          (IsRead swept (at kept) payload)
          (write_snapshot target uid payload)
          (λ _. IsRestored)
          IsRestoring
  unfolding write_snapshot
  Triple-write_snapshot swept uid none s =
      Triple-raise _ (λ d e. subst IsRestoring (sym e) (Swept→IsRestoring swept s))
  Triple-write_snapshot swept uid (some payload) s = Triple-given λ read.
      Triple-consequence (Triple-IsReplaced swept target payload uid s.formed) (λ d e. e)
        (λ _. written-IsRestored swept s payload read uid)
        (written-IsRestoring swept s payload read)

  pub Triple-restore_snapshot :
      (uid : ℕ)
      → IsWellFormed before
      → Triple (λ d. d ≡ before) (restore_snapshot kept target uid) (λ _. IsRestored) IsRestoring
  unfolding restore_snapshot
  Triple-restore_snapshot uid formed =
      Triple-bind (λ _ d. Swept before kept d × Gone (snapshot_staging kept) d)
        (Triple-consequence
          (Triple-clean_snapshot_staging (Swept before kept) kept (Swept-unlinked before kept) uid)
          (λ d e. subst (Swept before kept) (sym e) (Swept-start before kept formed)) (λ _ d s. s)
          Swept→IsRestoring)
        λ _. Triple-from λ swept s.
          Triple-bind (IsRead swept (at kept))
            (Triple-consequence (Triple-secure_read swept (at kept) uid 1_048_576 true) (λ d e. e)
              (λ _ d r. r) (λ d e. subst IsRestoring (sym e) (Swept→IsRestoring swept s.0)))
            (λ payload. Triple-write_snapshot swept uid payload s.0)

-- However `restore_snapshot` ends, on a disk where every name points to an inode that exists: if it
-- returns, the target holds the bytes that the snapshot held at the start; if it raises or is killed, the
-- target holds what it held, or those bytes. In both cases every path except the target, its staging path
-- and the snapshot's staging path holds what it held.
pub restore_snapshot-IsRestored :
    (kept target : Entry) (uid : ℕ) (w : World)
    → IsWellFormed w.disk
    → Ensures
        (λ _. IsRestored w.disk kept target)
        (IsRestoring w.disk kept target)
        (restore_snapshot kept target uid w)
restore_snapshot-IsRestored kept target uid w formed =
    (Triple-restore_snapshot w.disk kept target uid formed).run w refl
