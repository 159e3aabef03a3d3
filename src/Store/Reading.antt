-- ===== src/Store/Reading.antt =====
-- The functions of store.py that only inspect leave the disk as it was.
use air_vpn_wg_healthcheck.Effect.{
  Exception, blocked, end_of_input, exists, interrupt, io, not_found, os_error, setup_error,
  system_call,
}
use air_vpn_wg_healthcheck.Effect.Reads.{Reads, Reads-call, Reads-pure, Reads-raise, reads_rules}
use air_vpn_wg_healthcheck.Prelude.{Bool, Option, arith, false, none, refl, some, true, ℕ}
use air_vpn_wg_healthcheck.Disk.{Directory, Entry, FilePath}
use air_vpn_wg_healthcheck.Os.{
  Stat, directory_call, fstat_call, geteuid_call, lstat_call, open_call, pread_call, present_call,
  silent_call,
}
use air_vpn_wg_healthcheck.Store.{
  absent_as_false, check_metadata, entry_exists, inspect_directory, missing_file, not_accepted,
  open_directory, read_descriptor, read_present, secure_metadata, secure_read, validate_directory,
}
use air_vpn_wg_healthcheck.Store.Create.{file_identity, sync_installed}

pub Reads-lstat : (p : FilePath) → Reads (system_call (lstat_call p))
unfolding lstat_call
Reads-lstat p = Reads-call _ (λ limit d. ground arith)

pub Reads-present : (p : FilePath) → Reads (system_call (present_call p))
unfolding present_call
Reads-present p = Reads-call _ (λ limit d. refl)

pub Reads-open : (p : FilePath) → Reads (system_call (open_call p))
unfolding open_call
Reads-open p = Reads-call _ (λ limit d. ground arith)

pub Reads-fstat : (fd : ℕ) → Reads (system_call (fstat_call fd))
unfolding fstat_call
Reads-fstat fd = Reads-call _ (λ limit d. refl)

pub Reads-pread : (fd n : ℕ) → Reads (system_call (pread_call fd n))
unfolding pread_call
Reads-pread fd n = Reads-call _ (λ limit d. refl)

pub Reads-silent : Reads (system_call silent_call)
unfolding silent_call
Reads-silent = Reads-call _ (λ limit d. refl)

pub Reads-geteuid : Reads (system_call geteuid_call)
unfolding geteuid_call
Reads-geteuid = Reads-call _ (λ limit d. refl)

pub Reads-directory : (dir : Directory) → Reads (system_call (directory_call dir))
unfolding directory_call
Reads-directory dir = Reads-call _ (λ limit d. ground arith)

pub ruleset read_calls = (
  Reads-lstat, Reads-present, Reads-open, Reads-fstat, Reads-pread, Reads-silent, Reads-geteuid,
  Reads-directory,
)

pub Reads-validate_directory : (dir : Directory) (uid : ℕ) → Reads (validate_directory dir uid)
unfolding validate_directory
Reads-validate_directory dir uid = search (reads_rules, read_calls) depth 12

Reads-inspect_directory : (dir : Directory) (uid : ℕ) → Reads (inspect_directory dir uid)
unfolding inspect_directory
Reads-inspect_directory dir uid = search (reads_rules, read_calls) depth 12

Reads-not_accepted : (e : Exception) → Reads (not_accepted e)
unfolding not_accepted
Reads-not_accepted e = search (reads_rules, read_calls) depth 12

pub Reads-open_directory : (dir : Directory) (uid : ℕ) → Reads (open_directory dir uid)
unfolding open_directory
Reads-open_directory dir uid =
    search
      (
        reads_rules, read_calls, Reads-validate_directory, Reads-inspect_directory,
        Reads-not_accepted,
      )
      depth 12

Reads-missing_file : (required : Bool) (e : Exception) → Reads (missing_file required e)
unfolding missing_file
Reads-missing_file true (os_error not_found) = Reads-raise _
Reads-missing_file false (os_error not_found) = Reads-pure _
Reads-missing_file true (os_error exists) = Reads-raise _
Reads-missing_file true (os_error blocked) = Reads-raise _
Reads-missing_file true (os_error io) = Reads-raise _
Reads-missing_file false (os_error exists) = Reads-raise _
Reads-missing_file false (os_error blocked) = Reads-raise _
Reads-missing_file false (os_error io) = Reads-raise _
Reads-missing_file true (setup_error m) = Reads-raise _
Reads-missing_file false (setup_error m) = Reads-raise _
Reads-missing_file true interrupt = Reads-raise _
Reads-missing_file true end_of_input = Reads-raise _
Reads-missing_file false interrupt = Reads-raise _
Reads-missing_file false end_of_input = Reads-raise _

Reads-check_metadata : (uid : ℕ) (m : Option Stat) → Reads (check_metadata uid m)
unfolding check_metadata
Reads-check_metadata uid none = Reads-pure _
Reads-check_metadata uid (some m) = search reads_rules

pub Reads-secure_metadata :
    (p : FilePath) (uid : ℕ) (required : Bool) → Reads (secure_metadata p uid required)
unfolding secure_metadata
Reads-secure_metadata p uid required =
    search (reads_rules, read_calls, Reads-missing_file, Reads-check_metadata) depth 12

Reads-read_descriptor :
    (fd : ℕ) (before : Stat) (maximum : ℕ) → Reads (read_descriptor fd before maximum)
unfolding read_descriptor
Reads-read_descriptor fd before maximum = search (reads_rules, read_calls) depth 14

Reads-read_present :
    (p : FilePath) (maximum : ℕ) (before : Option Stat) → Reads (read_present p maximum before)
unfolding read_present
Reads-read_present p maximum none = Reads-pure _
Reads-read_present p maximum (some before) =
    search (reads_rules, read_calls, Reads-read_descriptor) depth 12

pub Reads-secure_read :
    (p : FilePath) (uid maximum : ℕ) (required : Bool) → Reads (secure_read p uid maximum required)
unfolding secure_read
Reads-secure_read p uid maximum required =
    search (reads_rules, Reads-secure_metadata, Reads-read_present) depth 12

Reads-absent_as_false : (e : Exception) → Reads (absent_as_false e)
Reads-absent_as_false (os_error not_found) = Reads-pure _
Reads-absent_as_false (os_error _) = Reads-raise _
Reads-absent_as_false (setup_error m) = Reads-raise _
Reads-absent_as_false interrupt = Reads-raise _
Reads-absent_as_false end_of_input = Reads-raise _

pub Reads-entry_exists : (p : FilePath) → Reads (entry_exists p)
unfolding entry_exists
Reads-entry_exists p = search (reads_rules, read_calls, Reads-absent_as_false) depth 12

pub Reads-file_identity : (e : Entry) (uid : ℕ) → Reads (file_identity e uid)
unfolding file_identity
Reads-file_identity e uid = search (reads_rules, Reads-secure_metadata) depth 12

pub Reads-sync_installed : (target : Entry) → Reads (sync_installed target)
unfolding sync_installed
Reads-sync_installed target = search (reads_rules, read_calls) depth 12
