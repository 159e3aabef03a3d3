-- ===== src/Store/Unlinking.antt =====
-- The removal of a name, for every property of the disk that it keeps: `_remove_name_durably`,
-- `_entry_exists`, `_clean_snapshot_staging` and `durable_unlink` of
-- libexec/wg_healthcheck_setup/store.py.
use air_vpn_wg_healthcheck.Prelude.{
  Bool, Option, Option-cases, String, arith, false, inl, inr, none, refl, some, subst, sym, true, ℕ,
  ◌-◌, ◌≡◌,
}
use air_vpn_wg_healthcheck.Effect.{
  Exception, blocked, done, end_of_input, exists, failed, interrupt, io, not_found, os_error,
  setup_error, system_call,
}
use air_vpn_wg_healthcheck.Effect.Hoare.{
  Triple, Triple-bind, Triple-call, Triple-consequence, Triple-if, Triple-pure, Triple-raise,
  Triple-wrap,
}
use air_vpn_wg_healthcheck.Effect.Missing.{
  AfterMissing, Raised, Triple-try_missing, TripleMissing, TripleMissing-call, TripleMissing-pure,
}
use air_vpn_wg_healthcheck.Effect.Reads.{Triple-reads}
use air_vpn_wg_healthcheck.Disk.{Disk, FilePath, update_inode, update_name}
use air_vpn_wg_healthcheck.Disk.Update.{update_name_same}
use air_vpn_wg_healthcheck.Os.{Stat, lstat_call, present_call, stat_of, unlink_call}
use air_vpn_wg_healthcheck.Store.{
  absent_as_false, check_metadata, entry_exists, missing_file, remove_name_durably, secure_metadata,
  unless_absent,
}
use air_vpn_wg_healthcheck.Store.Reading.{Reads-silent}

-- The disk behind the removal of a name of an inode.
abbrev pub unlinked : Disk → FilePath → ℕ → Disk
unlinked d path i = record d {
  names = update_name d.names path none;
  inodes = update_inode d.inodes i (record (d.inodes i) { nlink = (d.inodes i).nlink - 1 });
}

-- The path is no name.
abbrev pub Gone : FilePath → Disk → Type 0
Gone path d = d.names path ≡ none

unlink_none :
    (path : FilePath) (limit : Option ℕ) (d : Disk)
    → d.names path ≡ none
    → unlink_call path limit d ≡ (failed not_found, d)
unfolding unlink_call
unlink_none path limit d e = rw (e, unlink_call) refl

unlink_some :
    (path : FilePath) (limit : Option ℕ) (d : Disk) (i : ℕ)
    → d.names path ≡ some i
    → unlink_call path limit d ≡ (done tt, unlinked d path i)
unfolding unlink_call
unlink_some path limit d i e = rw (e, unlink_call) refl

-- A property that the removal of the name keeps.
abbrev pub Keeps : (Disk → Type 0) → FilePath → Type 0
Keeps P path = (d : Disk) (i : ℕ) → P d → P (unlinked d path i)

module _ (P : Disk → Type 0) (path : FilePath) where
  abbrev pub Removed : Unit {0} → Disk → Type 0
  Removed _ d = P d × Gone path d

  unlink_After :
      Keeps P path
      → (limit : Option ℕ) (d : Disk) → P d
      → AfterMissing P (Gone path) Removed (unlink_call path limit d)
  unlink_After keeps limit d p = elim (Option-cases (d.names path)) [
    | inl e ↦ subst (AfterMissing P (Gone path) Removed) (sym (unlink_none path limit d e)) (p, e)
    | inr (i, e) ↦
        subst (AfterMissing P (Gone path) Removed) (sym (unlink_some path limit d i e))
          (keeps d i p, update_name_same d.names path none)
  ]

  pub TripleMissing-unlink :
      Keeps P path → TripleMissing P (Gone path) Removed (system_call (unlink_call path))
  TripleMissing-unlink keeps =
      TripleMissing-call P (Gone path) Removed (unlink_call path) (λ _ d s. s.0)
        (unlink_After keeps)

  unless_absent-Triple :
      (message : String) (e : Exception)
      → Triple (Raised P (Gone path) e) (unless_absent message e) Removed P
  unless_absent-Triple message (os_error not_found) = Triple-pure tt (λ d s. s)
  unless_absent-Triple message (os_error exists) = Triple-raise _ (λ d s. s)
  unless_absent-Triple message (os_error blocked) = Triple-raise _ (λ d s. s)
  unless_absent-Triple message (os_error io) = Triple-raise _ (λ d s. s)
  unless_absent-Triple message (setup_error x) = Triple-raise _ (λ d s. s)
  unless_absent-Triple message interrupt = Triple-raise _ (λ d s. s)
  unless_absent-Triple message end_of_input = Triple-raise _ (λ d s. s)

  -- Where the removal returns, the name is gone; whatever it does, the property is kept.
  pub Triple-remove_name_durably :
      (message : String) → Keeps P path → Triple P (remove_name_durably path message) Removed P
  unfolding remove_name_durably
  Triple-remove_name_durably message keeps =
      Triple-bind Removed
        (Triple-try_missing P (Gone path) Removed (TripleMissing-unlink keeps)
          (unless_absent-Triple message))
        (λ _. Triple-wrap message (
          Triple-consequence (Triple-reads {P = λ d. P d × Gone path d} Reads-silent) (λ d s. s)
            (λ _ d s. s) (λ d s. s.0)))

  -- A test for the name.
  abbrev pub Tested : Bool → Disk → Type 0
  Tested found d = P d × (found ≡ false → Gone path d)

  pub Triple-present : Triple P (system_call (present_call path)) Tested P
  unfolding present_call
  Triple-present = Triple-call _ (λ d p. p) (λ _ d s. s.0) (λ limit d p. (p, λ h. ground arith))

  lstat_none :
      (limit : Option ℕ) (d : Disk)
      → d.names path ≡ none
      → lstat_call path limit d ≡ (failed not_found, d)
  unfolding lstat_call
  lstat_none limit d e = rw (e, lstat_call) refl

  lstat_some :
      (limit : Option ℕ) (d : Disk) (i : ℕ)
      → d.names path ≡ some i
      → lstat_call path limit d ≡ (done (stat_of d i), d)
  unfolding lstat_call
  lstat_some limit d i e = rw (e, lstat_call) refl

  TripleMissing-lstat : TripleMissing P (Gone path) (λ _. P) (system_call (lstat_call path))
  TripleMissing-lstat =
      TripleMissing-call P (Gone path) (λ _. P) (lstat_call path) (λ _ d p. p) after
    where
      after :
          (limit : Option ℕ) (d : Disk)
          → P d
          → AfterMissing P (Gone path) (λ _. P) (lstat_call path limit d)
      after limit d p = elim (Option-cases (d.names path)) [
        | inl e ↦ subst (AfterMissing P (Gone path) (λ _. P)) (sym (lstat_none limit d e)) (p, e)
        | inr (i, e) ↦ subst (AfterMissing P (Gone path) (λ _. P)) (sym (lstat_some limit d i e)) p
      ]

  absent_as_false-Triple :
      (e : Exception) → Triple (Raised P (Gone path) e) (absent_as_false e) Tested P
  absent_as_false-Triple (os_error not_found) = Triple-pure false (λ d s. (s.0, λ _. s.1))
  absent_as_false-Triple (os_error exists) = Triple-raise _ (λ d s. s)
  absent_as_false-Triple (os_error blocked) = Triple-raise _ (λ d s. s)
  absent_as_false-Triple (os_error io) = Triple-raise _ (λ d s. s)
  absent_as_false-Triple (setup_error x) = Triple-raise _ (λ d s. s)
  absent_as_false-Triple interrupt = Triple-raise _ (λ d s. s)
  absent_as_false-Triple end_of_input = Triple-raise _ (λ d s. s)

  pub Triple-entry_exists : Triple P (entry_exists path) Tested P
  unfolding entry_exists
  Triple-entry_exists =
      Triple-try_missing P (Gone path) Tested
        (TripleMissing-pure P (Gone path) (λ _. P) Tested (λ _. true) TripleMissing-lstat
          (λ a d p. (p, λ h. cc)))
        absent_as_false-Triple

  -- The metadata of a file that need not exist.
  abbrev pub Inspected : Option Stat → Disk → Type 0
  Inspected found d = P d × (found ≡ none → Gone path d)

  missing_file-Triple :
      (required : Bool) (e : Exception)
      → Triple (Raised P (Gone path) e) (missing_file required e) Inspected P
  unfolding missing_file
  missing_file-Triple false (os_error not_found) = Triple-pure none (λ d s. (s.0, λ _. s.1))
  missing_file-Triple true (os_error not_found) = Triple-raise _ (λ d s. s.0)
  missing_file-Triple false (os_error exists) = Triple-raise _ (λ d s. s)
  missing_file-Triple true (os_error exists) = Triple-raise _ (λ d s. s)
  missing_file-Triple false (os_error blocked) = Triple-raise _ (λ d s. s)
  missing_file-Triple true (os_error blocked) = Triple-raise _ (λ d s. s)
  missing_file-Triple false (os_error io) = Triple-raise _ (λ d s. s)
  missing_file-Triple true (os_error io) = Triple-raise _ (λ d s. s)
  missing_file-Triple false (setup_error x) = Triple-raise _ (λ d s. s)
  missing_file-Triple true (setup_error x) = Triple-raise _ (λ d s. s)
  missing_file-Triple false interrupt = Triple-raise _ (λ d s. s)
  missing_file-Triple false end_of_input = Triple-raise _ (λ d s. s)
  missing_file-Triple true interrupt = Triple-raise _ (λ d s. s)
  missing_file-Triple true end_of_input = Triple-raise _ (λ d s. s)

  check_metadata-Triple :
      (uid : ℕ) (found : Option Stat)
      → Triple (Inspected found) (check_metadata uid found) Inspected P
  unfolding check_metadata
  check_metadata-Triple uid none = Triple-pure none (λ d s. s)
  check_metadata-Triple uid (some m) =
      Triple-if _ (Triple-raise _ (λ d s. s.0)) (Triple-pure (some m) (λ d s. s))

  pub Triple-secure_metadata :
      (uid : ℕ) (required : Bool) → Triple P (secure_metadata path uid required) Inspected P
  unfolding secure_metadata
  Triple-secure_metadata uid required =
      Triple-bind Inspected
        (Triple-try_missing P (Gone path) Inspected
          (TripleMissing-pure P (Gone path) (λ _. P) Inspected some TripleMissing-lstat
            (λ a d p. (p, λ h. cc)))
          (missing_file-Triple required))
        (check_metadata-Triple uid)
