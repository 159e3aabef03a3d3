-- ===== src/Store/Create.antt =====
-- The creation of a private file: libexec/wg_healthcheck_setup/store.py, `atomic_write`,
-- `copy_descriptor_atomic`, `snapshot_file`, and the functions on top of them, `restore_snapshot`
-- and `durable_unlink`.
use air_vpn_wg_healthcheck.Prelude.{
  Bool, Option, String, [], drop, false, length, ltb, none, not, some, suc, true, zero, ℕ, ◌&&◌,
  ◌+◌, ◌-◌, ◌==◌, ◌||◌, ◌∷◌,
}
use air_vpn_wg_healthcheck.Text.{Text}
use air_vpn_wg_healthcheck.Disk.{Entry, FilePath, at, is_regular, parent, snapshot_staging, staging}
use air_vpn_wg_healthcheck.Effect.{
  Exception, M, io, os_error, pure, raise, raise_if, raise_setup, setup, system_call, try_except,
  try_finally, when, wrap_os_error, ◌>>=◌, ◌>>◌,
}
use air_vpn_wg_healthcheck.Os.{
  Stat, create_call, fchmod_call, fchown_call, fstat_call, geteuid_call, link_call, open_call,
  present_call, replace_call, sendfile_call, silent_call, unlink_call, write_call,
}
use air_vpn_wg_healthcheck.Store.{
  clean_snapshot_staging, entry_exists, open_directory, remove_name_durably, same_metadata,
  secure_metadata, secure_read,
}

-- A transfer of no bytes is an error; behind any other the rest follows.
abbrev pub some_bytes : (ℕ → M (Unit {0})) → ℕ → M (Unit {0})
some_bytes next zero = raise (os_error io)
some_bytes next (suc n) = next (suc n)

-- `_write_all`: each round writes at least one byte, so as many rounds as bytes are enough.
unfoldable pub write_all : ℕ → ℕ → Text → M (Unit {0})
write_all fuel descriptor [] = pure tt
write_all zero descriptor (c ∷ rest) = raise (os_error io)
write_all (suc fuel) descriptor (c ∷ rest) =
    system_call (write_call descriptor (c ∷ rest))
    >>= some_bytes (λ written. write_all fuel descriptor (drop written (c ∷ rest)))

abbrev pub is_staged : Stat → ℕ → ℕ → Bool
is_staged metadata trusted_uid size =
    is_regular metadata.kind
    && metadata.mode == 0o600
    && metadata.uid == trusted_uid
    && metadata.size == size

-- Ownership of a file that was just created.
unfoldable pub own : ℕ → ℕ → M (Unit {0})
own descriptor trusted_uid = do
  system_call (fchmod_call descriptor 0o600)
  euid ← system_call geteuid_call
  when (euid == 0) (system_call (fchown_call descriptor trusted_uid 0))

-- `atomic_write`, from the created temporary to its closed descriptor
unfoldable pub fill_staging : ℕ → Text → ℕ → M (Unit {0})
fill_staging descriptor payload trusted_uid = do
  own descriptor trusted_uid
  write_all (length payload) descriptor payload
  system_call silent_call
  metadata ← system_call (fstat_call descriptor)
  raise_if (not (is_staged metadata trusted_uid (length payload)))
      (setup "a staged private file has unsafe metadata")
  system_call silent_call

-- `os.open` of the installed file, `os.fsync`, `os.close`, and `os.fsync` of the directory
unfoldable pub sync_installed : Entry → M (Unit {0})
sync_installed target = do
  final ← system_call (open_call (at target))
  try_finally (system_call silent_call) (system_call silent_call)
  system_call silent_call

abbrev pub temporary_message : String
temporary_message = "an incomplete private temporary file could not be removed"

-- What the `finally` does while the temporary is created and not yet installed: remove the name,
-- and before that close the descriptor where it is still open.
unfoldable pub drop_closed : FilePath → String → Exception → M (Unit {0})
drop_closed path message e = do remove_name_durably path message; raise e

unfoldable pub drop_open : FilePath → String → Exception → M (Unit {0})
drop_open path message e = do
  try_finally (system_call silent_call) (remove_name_durably path message)
  raise e

-- The staging file and the target, from the creation of the one to the replacement of the other.
unfoldable pub replace_target : Entry → String → (ℕ → M (Unit {0})) → M (Unit {0})
replace_target target message fill = do
  descriptor ← wrap_os_error message (system_call (create_call (staging target) 0o600))
  try_except (wrap_os_error message (fill descriptor))
      (drop_open (staging target) temporary_message)
  try_except (wrap_os_error message (system_call (replace_call (staging target) (at target))))
      (drop_closed (staging target) temporary_message)
  wrap_os_error message (sync_installed target)

-- `atomic_write`
unfoldable pub atomic_write : Entry → Text → ℕ → M (Unit {0})
atomic_write target payload trusted_uid = do
  open_directory (parent target) trusted_uid
  try_finally
      (replace_target target "a private file could not be committed durably"
        (λ descriptor. fill_staging descriptor payload trusted_uid))
      (system_call silent_call)

-- `_copy_exact`: `remaining` is `length - offset`, and bounds the rounds.
unfoldable pub copy_exact : ℕ → ℕ → ℕ → ℕ → ℕ → M (Unit {0})
copy_exact fuel source destination offset zero = pure tt
copy_exact zero source destination offset (suc remaining) = raise (os_error io)
copy_exact (suc fuel) source destination offset (suc remaining) =
    system_call (sendfile_call destination source offset (suc remaining))
    >>= some_bytes
        (λ sent. copy_exact fuel source destination (offset + sent) (suc remaining - sent))

-- the `try` of `copy_descriptor_atomic` up to the closed descriptor
unfoldable pub fill_copy : ℕ → Stat → ℕ → ℕ → ℕ → M (Unit {0})
fill_copy source source_before trusted_uid expected_size destination = do
  own destination trusted_uid
  copy_exact expected_size source destination 0 expected_size
  system_call silent_call
  source_after ← system_call (fstat_call source)
  raise_if (not (same_metadata source_after source_before))
      (setup "the credential descriptor changed during persistence")
  system_call silent_call

-- `copy_descriptor_atomic`
unfoldable pub copy_descriptor_atomic : ℕ → Entry → ℕ → ℕ → M (Unit {0})
copy_descriptor_atomic source target trusted_uid expected_size = do
  source_before ← system_call (fstat_call source)
  raise_if (not (is_staged source_before trusted_uid expected_size))
      (setup "the credential descriptor has unsafe metadata")
  open_directory (parent target) trusted_uid
  try_finally
      (replace_target target "the credential could not be installed durably"
        (fill_copy source source_before trusted_uid expected_size))
      (system_call silent_call)

-- the `try` of `snapshot_file` from the created staging file to its closed descriptor
unfoldable pub fill_snapshot : ℕ → Stat → ℕ → ℕ → M (Unit {0})
fill_snapshot source before trusted_uid destination = do
  own destination trusted_uid
  copy_exact before.size source destination 0 before.size
  system_call silent_call
  staged ← system_call (fstat_call destination)
  raise_if (not (is_staged staged trusted_uid before.size) || not (staged.nlink == 1))
      (setup "a staged setup recovery snapshot has unsafe metadata")
  source_after ← system_call (fstat_call source)
  raise_if (not (same_metadata source_after before))
      (setup "a setup source file changed during snapshot")
  system_call silent_call

abbrev pub snapshot_message : String
snapshot_message = "an incomplete setup recovery snapshot could not be removed"

-- the publication of the snapshot: link, fsync of the directory, removal of the staging name
unfoldable pub publish_snapshot : Entry → M (Unit {0})
publish_snapshot kept = do
  system_call (link_call (snapshot_staging kept) (at kept))
  system_call silent_call
  remove_name_durably (snapshot_staging kept)
      "a published setup recovery snapshot staging entry could not be removed"

-- the inner `try` of `snapshot_file`
unfoldable pub stage_snapshot : ℕ → Entry → ℕ → ℕ → M (Unit {0})
stage_snapshot source kept trusted_uid maximum = do
  before ←
      wrap_os_error "a setup recovery snapshot could not be created"
        (system_call (fstat_call source))
  raise_if
      (not (is_regular before.kind)
        || not (before.mode == 0o600)
        || not (before.uid == trusted_uid)
        || ltb maximum before.size)
      (setup "a setup source file has unsafe metadata")
  destination ←
      wrap_os_error "a setup recovery snapshot could not be created"
        (system_call (create_call (snapshot_staging kept) 0o600))
  try_except
      (wrap_os_error "a setup recovery snapshot could not be created"
        (fill_snapshot source before trusted_uid destination))
      (drop_open (snapshot_staging kept) snapshot_message)
  try_except
      (wrap_os_error "a setup recovery snapshot could not be created" (publish_snapshot kept))
      (drop_closed (snapshot_staging kept) snapshot_message)

-- the body of `snapshot_file` under the open directory
unfoldable pub snapshot_into : ℕ → Entry → ℕ → ℕ → M (Unit {0})
snapshot_into source kept trusted_uid maximum = do
  stale ← entry_exists (snapshot_staging kept)
  when stale (remove_name_durably (snapshot_staging kept) snapshot_message)
  stage_snapshot source kept trusted_uid maximum

-- `snapshot_file`
unfoldable pub snapshot_file : Entry → Entry → ℕ → ℕ → M (Unit {0})
snapshot_file source kept trusted_uid maximum = do
  taken ← system_call (present_call (at kept))
  raise_if taken (setup "a prior setup recovery file is unresolved")
  source_fd ←
      wrap_os_error "a setup source file could not be opened safely"
        (system_call (open_call (at source)))
  try_finally
      (open_directory (parent kept) trusted_uid
        >> try_finally (snapshot_into source_fd kept trusted_uid maximum) (system_call silent_call))
      (system_call silent_call)

unfoldable pub write_snapshot : Entry → ℕ → Option Text → M (Unit {0})
write_snapshot target trusted_uid none = raise_setup "setup rollback snapshot is unavailable"
write_snapshot target trusted_uid (some payload) = atomic_write target payload trusted_uid

-- `restore_snapshot`
unfoldable pub restore_snapshot : Entry → Entry → ℕ → M (Unit {0})
restore_snapshot kept target trusted_uid = do
  clean_snapshot_staging kept trusted_uid
  payload ← secure_read (at kept) trusted_uid 1_048_576 true
  write_snapshot target trusted_uid payload

unfoldable pub unlink_present : Entry → ℕ → Option Stat → M (Unit {0})
unlink_present path trusted_uid none = pure tt
unlink_present path trusted_uid (some metadata) = do
  open_directory (parent path) trusted_uid
  try_finally
      (wrap_os_error "a private file could not be removed durably"
        (system_call (unlink_call (at path)) >> system_call silent_call))
      (system_call silent_call)

-- `durable_unlink`
unfoldable pub durable_unlink : Entry → ℕ → Bool → M (Unit {0})
durable_unlink path trusted_uid required = do
  clean_snapshot_staging path trusted_uid
  metadata ← secure_metadata (at path) trusted_uid required
  unlink_present path trusted_uid metadata

-- `file_identity`
unfoldable pub file_identity : Entry → ℕ → M (Option (ℕ × ℕ × ℕ × ℕ))
file_identity path trusted_uid = do
  metadata ← secure_metadata (at path) trusted_uid false
  pure (elim metadata [ none ↦ none | some m ↦ some (m.device, m.inode, m.mtime, m.size) ])
