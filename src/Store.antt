-- ===== src/Store.antt =====
-- The durable file primitives: libexec/wg_healthcheck_setup/store.py. Each function makes the
-- source's system calls in the source's order, with its handlers and its cleanup.
pub mod Create
pub mod Reading
pub mod Atomic
pub mod SecureRead
pub mod Restoring
pub mod Unlinking
pub mod Removal
pub mod Replacing
pub mod AtomicWrite
pub mod WriteAll
use air_vpn_wg_healthcheck.Prelude.{
  Bool, Option, String, false, if◌then◌else◌, length, ltb, none, not, some, true, ℕ, ◌&&◌, ◌+◌,
  ◌==◌, ◌||◌,
}
use air_vpn_wg_healthcheck.Text.{Text}
use air_vpn_wg_healthcheck.Disk.{
  Directory, Entry, FilePath, at, is_directory, is_regular, parent, same_kind, snapshot_staging,
  staging,
}
use air_vpn_wg_healthcheck.Effect.{
  Exception, M, not_found, os_error, pure, raise, raise_if, raise_setup, setup, system_call,
  try_except, try_finally, when, wrap_os_error, ◌>>=◌, ◌>>◌,
}
use air_vpn_wg_healthcheck.Os.{
  Stat, directory_call, fstat_call, lstat_call, open_call, pread_call, present_call, silent_call,
  unlink_call,
}

-- `_metadata_tuple(a) == _metadata_tuple(b)`
unfoldable pub same_metadata : Stat → Stat → Bool
same_metadata a b =
    a.device == b.device
    && a.inode == b.inode
    && same_kind a.kind b.kind
    && a.mode == b.mode
    && a.uid == b.uid
    && a.gid == b.gid
    && a.size == b.size
    && a.nlink == b.nlink
    && a.mtime == b.mtime

-- `validate_directory`
unfoldable pub validate_directory : Directory → ℕ → M (Unit {0})
validate_directory dir trusted_uid = do
  metadata ←
      wrap_os_error "a required private directory is unavailable" (system_call (directory_call dir))
  raise_if
      (not (is_directory metadata.kind)
        || not (metadata.mode == 0o700)
        || not (metadata.uid == trusted_uid))
      (setup "a required private directory has unsafe metadata")

-- The handlers of `secure_metadata`: a file that is missing may be allowed to be.
unfoldable pub missing_file : Bool → Exception → M (Option Stat)
missing_file false (os_error not_found) = pure none
missing_file true (os_error not_found) = raise_setup "a required private file is missing"
missing_file required (os_error e) = raise_setup "a required private file is unavailable"
missing_file required e = raise e

unfoldable pub check_metadata : ℕ → Option Stat → M (Option Stat)
check_metadata trusted_uid none = pure none
check_metadata trusted_uid (some metadata) =
    if not (is_regular metadata.kind)
      || not (metadata.mode == 0o600)
      || not (metadata.uid == trusted_uid)
      || not (metadata.nlink == 1)
    then raise_setup "a private file has unsafe metadata"
    else pure (some metadata)

-- `secure_metadata`, with its default mode
unfoldable pub secure_metadata : FilePath → ℕ → Bool → M (Option Stat)
secure_metadata path trusted_uid required = do
  found ←
      try_except (system_call (lstat_call path) >>= λ metadata. pure (some metadata))
        (missing_file required)
  check_metadata trusted_uid found

-- The body of the `try` of `secure_read`, on the open descriptor.
unfoldable pub read_descriptor : ℕ → Stat → ℕ → M Text
read_descriptor descriptor before maximum = do
  opened ← system_call (fstat_call descriptor)
  raise_if (not (same_metadata opened before)) (setup "a private file changed while it was opened")
  payload ← system_call (pread_call descriptor (maximum + 1))
  after ← system_call (fstat_call descriptor)
  raise_if (not (same_metadata after opened)) (setup "a private file changed while it was read")
  raise_if (not (length payload == opened.size) || ltb maximum (length payload))
      (setup "a private file changed while it was read")
  pure payload

unfoldable pub read_present : FilePath → ℕ → Option Stat → M (Option Text)
read_present path maximum none = pure none
read_present path maximum (some before) = do
  raise_if (ltb maximum before.size) (setup "a private file exceeds its bounded format")
  descriptor ←
      wrap_os_error "a private file could not be opened safely" (system_call (open_call path))
  payload ← try_finally (read_descriptor descriptor before maximum) (system_call silent_call)
  pure (some payload)

-- `secure_read`
unfoldable pub secure_read : FilePath → ℕ → ℕ → Bool → M (Option Text)
secure_read path trusted_uid maximum required = do
  before ← secure_metadata path trusted_uid required
  read_present path maximum before

-- The body of the second `try` of `_open_directory`, on the open descriptor.
unfoldable pub inspect_directory : Directory → ℕ → M (Unit {0})
inspect_directory dir trusted_uid = do
  metadata ← system_call (directory_call dir)
  raise_if
      (not (is_directory metadata.kind)
        || not (metadata.mode == 0o700)
        || not (metadata.uid == trusted_uid))
      (setup "a private directory changed while it was opened")

-- finally: if not accepted, the descriptor is closed
unfoldable pub not_accepted : Exception → M (Unit {0})
not_accepted e = system_call silent_call >> raise e

-- `_open_directory`: the descriptor stands for the directory itself.
unfoldable pub open_directory : Directory → ℕ → M (Unit {0})
open_directory dir trusted_uid = do
  validate_directory dir trusted_uid
  wrap_os_error "a private directory could not be opened safely"
      (system_call (directory_call dir) >> pure tt)
  try_except
      (wrap_os_error "a private directory could not be inspected safely"
        (inspect_directory dir trusted_uid))
      not_accepted

abbrev pub absent_as_false : Exception → M Bool
absent_as_false (os_error not_found) = pure false
absent_as_false (os_error e) = raise_setup "a private staging entry could not be inspected"
absent_as_false e = raise e

-- `_entry_exists`
unfoldable pub entry_exists : FilePath → M Bool
entry_exists path = try_except (system_call (lstat_call path) >> pure true) absent_as_false

abbrev pub unless_absent : String → Exception → M (Unit {0})
unless_absent message (os_error not_found) = pure tt
unless_absent message (os_error e) = raise_setup message
unless_absent message e = raise e

-- `_remove_name_durably`; the second message is the first one with " durably" behind it
unfoldable pub remove_name_durably : FilePath → String → M (Unit {0})
remove_name_durably path message = do
  try_except (system_call (unlink_call path)) (unless_absent message)
  wrap_os_error message (system_call silent_call)

-- `discard_private_staging`
unfoldable pub discard_private_staging : Entry → ℕ → M (Unit {0})
discard_private_staging target trusted_uid = do
  open_directory (parent target) trusted_uid
  try_finally
      (do
        found ← entry_exists (staging target)
        when found (
            remove_name_durably (staging target)
              "an incomplete private staging file could not be removed"))
      (system_call silent_call)

abbrev pub absent_as_none : Exception → M (Option Stat)
absent_as_none (os_error not_found) = pure none
absent_as_none (os_error e) = raise_setup "a setup recovery snapshot could not be inspected"
absent_as_none e = raise e

unfoldable pub check_same_snapshot : FilePath → Option Stat → M (Unit {0})
check_same_snapshot stage none = pure tt
check_same_snapshot stage (some kept) = do
  staged ←
      wrap_os_error "a setup recovery snapshot staging entry could not be inspected"
        (system_call (lstat_call stage))
  raise_if (not (kept.device == staged.device) || not (kept.inode == staged.inode))
      (setup "a conflicting setup recovery snapshot staging entry requires inspection")

-- `_clean_snapshot_staging`
unfoldable pub clean_snapshot_staging : Entry → ℕ → M (Unit {0})
clean_snapshot_staging kept trusted_uid = do
  present ← system_call (present_call (snapshot_staging kept))
  when present (
      open_directory (parent kept) trusted_uid
      >> try_finally
          (do
            found ← entry_exists (snapshot_staging kept)
            when found (do
              metadata ←
                  try_except (system_call (lstat_call (at kept)) >>= λ m. pure (some m))
                    absent_as_none
              check_same_snapshot (snapshot_staging kept) metadata
              remove_name_durably (snapshot_staging kept)
                  "an incomplete setup recovery snapshot could not be removed"))
          (system_call silent_call))
