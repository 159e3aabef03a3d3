-- ===== src/Store/Removal.antt =====
-- `_clean_snapshot_staging` and `durable_unlink` (libexec/wg_healthcheck_setup/store.py), for every
-- property of the disk that the removal of their names keeps.
use air_vpn_wg_healthcheck.Effect.Missing.{Triple-forget}
use air_vpn_wg_healthcheck.Os.{Stat, lstat_call, silent_call}
use air_vpn_wg_healthcheck.Prelude.{Bool, Option, false, none, refl, some, true, ℕ, ◌∙◌, ◌≢◌}
use air_vpn_wg_healthcheck.Effect.{
  Exception, end_of_input, interrupt, not_found, os_error, pure, setup_error, system_call,
  try_except, try_finally, when, ◌>>=◌, ◌>>◌,
}
use air_vpn_wg_healthcheck.Effect.Hoare.{
  Triple, Triple-bind, Triple-consequence, Triple-finally, Triple-pure, Triple-wrap,
}
use air_vpn_wg_healthcheck.Effect.Reads.{Reads, Reads-pure, Reads-raise, Triple-reads, reads_rules}
use air_vpn_wg_healthcheck.Disk.{Disk, Entry, FilePath, at, parent, snapshot_staging}
use air_vpn_wg_healthcheck.Disk.Update.{update_name_other}
use air_vpn_wg_healthcheck.Store.{
  absent_as_none, check_same_snapshot, clean_snapshot_staging, entry_exists, open_directory,
  remove_name_durably,
}
use air_vpn_wg_healthcheck.Store.Create.{durable_unlink, unlink_present}
use air_vpn_wg_healthcheck.Store.Reading.{Reads-open_directory, Reads-silent, read_calls}
use air_vpn_wg_healthcheck.Store.Unlinking.{
  Gone, Inspected, Keeps, Removed, Tested, Triple-entry_exists, Triple-present,
  Triple-remove_name_durably, Triple-secure_metadata, TripleMissing-unlink,
}

Reads-absent_as_none : (e : Exception) → Reads (absent_as_none e)
Reads-absent_as_none (os_error not_found) = Reads-pure _
Reads-absent_as_none (os_error _) = Reads-raise _
Reads-absent_as_none (setup_error m) = Reads-raise _
Reads-absent_as_none interrupt = Reads-raise _
Reads-absent_as_none end_of_input = Reads-raise _

Reads-check_same_snapshot :
    (stage : FilePath) (kept : Option Stat) → Reads (check_same_snapshot stage kept)
unfolding check_same_snapshot
Reads-check_same_snapshot stage none = Reads-pure _
Reads-check_same_snapshot stage (some kept) = search (reads_rules, read_calls) depth 12

-- Two removals, and what the first one established.
pub Keeps-Gone :
    (P : Disk → Type 0) (path kept : FilePath)
    → kept ≢ path
    → Keeps P path
    → Keeps (λ d. P d × Gone kept d) path
Keeps-Gone P path kept n k d i (p, gone) =
    (k d i p, update_name_other d.names path kept none n ∙ gone)

module _ (P : Disk → Type 0) (kept : Entry) (keeps : Keeps P (snapshot_staging kept)) where
  abbrev Cleaned : Unit {0} → Disk → Type 0
  Cleaned _ d = P d × Gone (snapshot_staging kept) d

  remove_found :
      (found : Bool)
      → Triple
          (Tested P (snapshot_staging kept) found)
          (when found (do
            metadata ←
                try_except
                  (system_call (lstat_call (at kept)) >>= λ m. pure (some m))
                  absent_as_none
            check_same_snapshot (snapshot_staging kept) metadata
            remove_name_durably
                (snapshot_staging kept)
                "an incomplete setup recovery snapshot could not be removed"))
          Cleaned
          P
  remove_found false = Triple-pure tt (λ d s. (s.0, s.1 refl))
  remove_found true =
      Triple-bind (λ _. P)
        (Triple-consequence
          (Triple-reads {P = P} (search (reads_rules, read_calls, Reads-absent_as_none) depth 8))
          (λ d s. s.0) (λ _ d p. p) (λ d p. p))
        λ metadata.
          Triple-bind (λ _. P)
            (Triple-reads (Reads-check_same_snapshot (snapshot_staging kept) metadata))
            λ _. Triple-remove_name_durably P (snapshot_staging kept) _ keeps

  clean_present :
      (uid : ℕ) (present : Bool)
      → Triple
          (Tested P (snapshot_staging kept) present)
          (when present (
            open_directory (parent kept) uid
            >> try_finally
                (do
                  found ← entry_exists (snapshot_staging kept)
                  when found (do
                    metadata ←
                        try_except
                          (system_call (lstat_call (at kept)) >>= λ m. pure (some m))
                          absent_as_none
                    check_same_snapshot (snapshot_staging kept) metadata
                    remove_name_durably
                        (snapshot_staging kept)
                        "an incomplete setup recovery snapshot could not be removed"))
                (system_call silent_call)))
          Cleaned
          P
  clean_present uid false = Triple-pure tt (λ d s. (s.0, s.1 refl))
  clean_present uid true =
      Triple-bind (λ _. P)
        (Triple-consequence (Triple-reads {P = P} (Reads-open_directory (parent kept) uid))
          (λ d s. s.0) (λ _ d p. p) (λ d p. p))
        λ _.
          Triple-finally
            (Triple-bind (Tested P (snapshot_staging kept))
              (Triple-entry_exists P (snapshot_staging kept)) remove_found)
            (λ _.
              Triple-consequence
                (Triple-reads {P = λ d. P d × Gone (snapshot_staging kept) d} Reads-silent)
                (λ d s. s) (λ _ d s. s) (λ d s. s.0))
            (Triple-reads Reads-silent) (λ d p. p)

  pub Triple-clean_snapshot_staging :
      (uid : ℕ) → Triple P (clean_snapshot_staging kept uid) Cleaned P
  unfolding clean_snapshot_staging
  Triple-clean_snapshot_staging uid =
      Triple-bind (Tested P (snapshot_staging kept)) (Triple-present P (snapshot_staging kept))
        (clean_present uid)

-- Neither name is left.
abbrev pub BothGone : (Disk → Type 0) → Entry → Disk → Type 0
BothGone P path d = (P d × Gone (snapshot_staging path) d) × Gone (at path) d

module _ (P : Disk → Type 0) (path : Entry) (keeps : Keeps P (at path))
    (keeps_staging : Keeps P (snapshot_staging path)) where
  abbrev Unstaged : Disk → Type 0
  Unstaged d = P d × Gone (snapshot_staging path) d

  Unstaged-Keeps : Keeps Unstaged (at path)
  Unstaged-Keeps = Keeps-Gone P (at path) (snapshot_staging path) (λ e. cc) keeps

  unlink_present-Triple :
      (uid : ℕ) (found : Option Stat)
      → Triple
          (Inspected Unstaged (at path) found)
          (unlink_present path uid found)
          (λ _. BothGone P path)
          P
  unfolding unlink_present
  unlink_present-Triple uid none = Triple-pure tt (λ d s. (s.0, s.1 refl))
  unlink_present-Triple uid (some m) =
      Triple-bind (λ _. Unstaged)
        (Triple-consequence (Triple-reads {P = Unstaged} (Reads-open_directory (parent path) uid))
          (λ d s. s.0) (λ _ d s. s) (λ d s. s.0))
        λ _.
          Triple-consequence
            (Triple-finally {E = Unstaged} {F = Unstaged}
              (Triple-wrap "a private file could not be removed durably" (
                Triple-bind (λ _. BothGone P path)
                  (Triple-forget Unstaged (Gone (at path)) (Removed Unstaged (at path))
                    (TripleMissing-unlink Unstaged (at path) Unstaged-Keeps))
                  (λ _.
                    Triple-consequence (Triple-reads {P = BothGone P path} Reads-silent) (λ d s. s)
                      (λ _ d s. s) (λ d s. s.0))))
              (λ _.
                Triple-consequence (Triple-reads {P = BothGone P path} Reads-silent) (λ d s. s)
                  (λ _ d s. s) (λ d s. s.0))
              (Triple-reads Reads-silent) (λ d s. s))
            (λ d s. s) (λ _ d s. s) (λ d s. s.0)

  pub Triple-durable_unlink :
      (uid : ℕ) (required : Bool)
      → Triple P (durable_unlink path uid required) (λ _. BothGone P path) P
  unfolding durable_unlink
  Triple-durable_unlink uid required =
      Triple-bind (λ _. Unstaged) (Triple-clean_snapshot_staging P path keeps_staging uid)
        λ _.
          Triple-bind (Inspected Unstaged (at path))
            (Triple-consequence (Triple-secure_metadata Unstaged (at path) uid required) (λ d s. s)
              (λ _ d s. s) (λ d s. s.0))
            (unlink_present-Triple uid)
