-- ===== src/Lease.antt =====
-- The lease and the locks: `exclusive_setup_lease` and `probe_runtime_lock` of
-- libexec/wg_healthcheck_setup/apply_system.py, with `ensure_private_directory` of store.py. A lock
-- that another process holds is a call of `flock` that fails with `blocked`.
use air_vpn_wg_healthcheck.Effect.{
  Exception, M, blocked, exists, os_error, pure, raise, raise_if, raise_setup, setup, system_call,
  try_except, try_finally, wrap_os_error, ◌>>=◌, ◌>>◌,
}
use air_vpn_wg_healthcheck.Prelude.{
  Bool, Option, String, false, none, not, some, true, ℕ, ◌==◌, ◌||◌,
}
use air_vpn_wg_healthcheck.Disk.{Directory, Entry, at, runtime_dir, setup_guard}
use air_vpn_wg_healthcheck.Os.{
  Stat, chmod_directory_call, create_call, directory_call, fstat_call, mkdir_call, open_call,
  silent_call,
}
use air_vpn_wg_healthcheck.Store.{secure_metadata, validate_directory}
use air_vpn_wg_healthcheck.Store.Create.{own}
use air_vpn_wg_healthcheck.System.{Target}

-- `ensure_private_directory`
unfoldable pub ensure_private_directory : Directory → ℕ → M (Unit {0})
ensure_private_directory dir trusted_uid = do
  wrap_os_error "a required private directory could not be prepared"
      (system_call (mkdir_call dir) >> system_call (chmod_directory_call dir 0o700))
  validate_directory dir trusted_uid

-- the new guard file, made durable
unfoldable pub commit_guard : ℕ → ℕ → M (Unit {0})
commit_guard descriptor trusted_uid = do
  own descriptor trusted_uid
  system_call silent_call
  system_call (directory_call runtime_dir)
  try_finally (system_call silent_call) (system_call silent_call)

abbrev existing_guard : Exception → M (Option ℕ)
existing_guard (os_error exists) = pure none
existing_guard (os_error e) = raise_setup "the setup guard could not be created safely"
existing_guard e = raise e

unfoldable pub finish_guard : Target → Option ℕ → M (Unit {0})
finish_guard paths none = secure_metadata (at setup_guard) paths.trusted_uid true >> pure tt
finish_guard paths (some descriptor) =
    try_finally
      (wrap_os_error "the setup guard could not be committed safely"
        (commit_guard descriptor paths.trusted_uid))
      (system_call silent_call)

-- `_ensure_guard_file`
unfoldable pub ensure_guard_file : Target → M (Unit {0})
ensure_guard_file paths = do
  validate_directory runtime_dir paths.trusted_uid
  created ←
      try_except (system_call (create_call (at setup_guard) 0o600) >>= λ fd. pure (some fd))
        existing_guard
  finish_guard paths created

abbrev blocked_as : String → Exception → Exception
blocked_as message (os_error blocked) = setup message
blocked_as message e = e

-- fcntl.flock(descriptor, LOCK_EX | LOCK_NB)
unfoldable pub take_lock : String → M (Unit {0})
take_lock message = try_except (system_call silent_call) (λ e. raise (blocked_as message e))

abbrev differs : Stat → Option Stat → Bool
differs opened none = true
differs opened (some expected) =
    not (opened.device == expected.device) || not (opened.inode == expected.inode)

unfoldable pub hold_lease : Target → ℕ → M (Unit {0})
hold_lease paths descriptor = do
  opened ← system_call (fstat_call descriptor)
  expected ← secure_metadata (at setup_guard) paths.trusted_uid true
  raise_if (differs opened expected) (setup "the setup guard changed while it was opened")
  take_lock "another healthcheck or setup operation is active"

-- `exclusive_setup_lease`
unfoldable pub with_setup_lease : {A : Type 0} → Target → (ℕ → M A) → M A
with_setup_lease paths body = do
  ensure_private_directory runtime_dir paths.trusted_uid
  ensure_guard_file paths
  descriptor ←
      wrap_os_error "the setup guard could not be opened safely"
        (system_call (open_call (at setup_guard)))
  try_finally (hold_lease paths descriptor >> body descriptor)
      (try_finally (system_call silent_call) (system_call silent_call))

abbrev ignore_os_error : Exception → M (Unit {0})
ignore_os_error (os_error e) = pure tt
ignore_os_error e = raise e

unfoldable pub probe_descriptor : Stat → ℕ → M (Unit {0})
probe_descriptor metadata descriptor = do
  opened ← system_call (fstat_call descriptor)
  raise_if (differs opened (some metadata)) (setup "a runtime lock changed while it was opened")
  try_finally (take_lock "a runtime lock is active")
      (try_except (system_call silent_call) ignore_os_error)

unfoldable pub probe_present : Entry → Option Stat → M (Unit {0})
probe_present path none = pure tt
probe_present path (some metadata) = do
  descriptor ←
      wrap_os_error "a runtime lock could not be opened safely" (system_call (open_call (at path)))
  try_finally (probe_descriptor metadata descriptor) (system_call silent_call)

-- `probe_runtime_lock`
unfoldable pub probe_runtime_lock : Entry → Target → M (Unit {0})
probe_runtime_lock path paths = do
  metadata ← secure_metadata (at path) paths.trusted_uid false
  probe_present path metadata
