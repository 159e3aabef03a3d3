-- ===== src/PrivateInput.antt =====
-- Where a credential comes from: `disable_core_dumps`, `open_controlling_tty`, `read_hidden_credential`,
-- `_open_absolute_nofollow` and `open_credential_file` of libexec/wg_healthcheck_setup/private_io.py. The
-- calls for the terminal, the directories and the paths, which the disk of this library does not hold, are
-- the fields of `Outside`; a descriptor is the number of its inode, so that its range is not tested.
pub mod Opened
pub mod Typed
use air_vpn_wg_healthcheck.Disk.{is_directory, is_regular}
use air_vpn_wg_healthcheck.Prelude.{
  Bool, List, [], all, any, ltb, not, ℕ, ◌%◌, ◌&&◌, ◌++◌, ◌/◌, ◌==◌, ◌||◌, ◌∷◌,
}
use air_vpn_wg_healthcheck.Text.{Text, codes, mem_text, starts_with, text_eq}
use air_vpn_wg_healthcheck.Effect.{
  Exception, M, end_of_input, interrupt, pure, raise, raise_if, raise_setup, setup, system_call,
  try_except, try_finally, wrap_os_error, ◌>>=◌, ◌>>◌,
}
use air_vpn_wg_healthcheck.Os.{Stat, fstat_call, pread_call, silent_call}
use air_vpn_wg_healthcheck.Credential.{
  close_and_raise, private_temporary, validate_credential_bytes,
}
use air_vpn_wg_healthcheck.Store.{same_metadata}

-- Python's standard library, as far as these functions call it.
pub record Outside : Type 0 where
  -- resource.setrlimit(RLIMIT_CORE, (0, 0))
  pub limit_core : M (Unit {0})
  -- os.open("/dev/tty"), and whether it is a character device and a terminal
  pub open_tty : M ℕ
  pub is_terminal : ℕ → M Bool
  -- getpass.getpass; its GetPassWarning is no other exception than EOFError here
  pub getpass : Text → M Text
  -- os.path.normpath and Path(path).parts
  pub normpath : Text → Text
  pub parts : Text → List Text
  -- os.open("/", O_DIRECTORY), and os.open of a name in an open directory, as a directory and as a file
  pub open_root : M ℕ
  pub open_directory_in : ℕ → Text → M ℕ
  pub open_file_in : ℕ → Text → M ℕ

-- Where the bits 0o20, 0o2 and 0o1000 of a mode stand.
abbrev bit : ℕ → ℕ → Bool
bit place mode = mode / place % 2 == 1

abbrev is_shared : ℕ → Bool
is_shared mode = bit 0o20 mode || bit 0o2 mode

-- `validate_directory` inside `_open_absolute_nofollow`
unfoldable pub is_safe_directory : Stat → Bool
is_safe_directory metadata =
    is_directory metadata.kind
    && metadata.uid == 0
    && (not (is_shared metadata.mode) || bit 0o1000 metadata.mode)

-- A credential file that may be read.
unfoldable pub check_credential_file : Stat → M (Unit {0})
check_credential_file metadata = do
  raise_if (not (is_regular metadata.kind))
      (setup "credential file must be regular non-symlink data")
  raise_if (not (metadata.uid == 0)) (setup "credential file must be root-owned")
  raise_if (not (metadata.mode == 0o600)) (setup "credential file must have exact mode 0600")
  raise_if (not (metadata.size == 65)) (setup "credential file has an invalid bounded record")

-- except (EOFError, KeyboardInterrupt, GetPassWarning)
unfoldable pub cancelled : Exception → M Text
cancelled interrupt = raise_setup "hidden credential input was cancelled"
cancelled end_of_input = raise_setup "hidden credential input was cancelled"
cancelled error = raise error

abbrev is_ascii : Text → Bool
is_ascii = all (λ c. ltb c 128)

module _ (outside : Outside) where
  -- `disable_core_dumps`
  unfoldable pub disable_core_dumps : M (Unit {0})
  disable_core_dumps =
      wrap_os_error "could not disable core dumps; no secret was read" outside.limit_core

  unfoldable pub check_terminal : ℕ → M ℕ
  check_terminal fd = do
    terminal ← outside.is_terminal fd
    raise_if (not terminal) (setup "a controlling TTY is required for hidden credential input")
    pure fd

  -- `open_controlling_tty`
  unfoldable pub open_controlling_tty : M ℕ
  open_controlling_tty = do
    fd ← wrap_os_error "a controlling TTY is required for hidden credential input" outside.open_tty
    try_except (check_terminal fd) close_and_raise

  -- `credential_from_bytes`
  unfoldable pub credential_from_bytes : Text → M ℕ
  credential_from_bytes value = validate_credential_bytes value >> private_temporary value

  -- `read_hidden_credential`
  unfoldable pub read_hidden_credential : M ℕ
  read_hidden_credential = do
    disable_core_dumps
    tty_fd ← open_controlling_tty
    secret ←
        try_finally (try_except (outside.getpass (codes "AirVPN API key: ")) cancelled)
          (system_call silent_call)
    raise_if (not (is_ascii secret)) (setup "AirVPN API credential has an invalid shape")
    credential_from_bytes (secret ++ b'\n' ∷ [])

  unfoldable pub validate_directory_fd : ℕ → M (Unit {0})
  validate_directory_fd fd = do
    metadata ← system_call (fstat_call fd)
    raise_if (not (is_safe_directory metadata))
        (setup "credential-file directory must be root-owned and not writable by others")

  -- From an open directory along the components; the directory is closed behind the next one.
  unfoldable pub open_components : ℕ → List Text → M ℕ
  open_components directory_fd [] = outside.open_file_in directory_fd (codes "/")
  open_components directory_fd (name ∷ []) = outside.open_file_in directory_fd name
  open_components directory_fd (name ∷ next ∷ names) = do
    next_fd ← outside.open_directory_in directory_fd name
    try_except (validate_directory_fd next_fd) close_and_raise
    system_call silent_call
    open_components next_fd (next ∷ names)

  abbrev is_dotted : Text → Bool
  is_dotted part = mem_text part ([] ∷ codes "." ∷ codes ".." ∷ [])

  unfoldable pub absolute_components : Text → M (List Text)
  absolute_components path = do
    raise_if (not (starts_with (codes "/") path) || not (text_eq (outside.normpath path) path))
        (setup "--credential-file must be an absolute normalized path")
    elim (outside.parts path) [
      | [] ↦ raise_setup "--credential-file must be an absolute normalized path"
      | root ∷ names ↦
          raise_if (not (text_eq root (codes "/")) || any is_dotted names)
            (setup "--credential-file must be an absolute normalized path")
          >> pure names
    ]

  -- `_open_absolute_nofollow`
  unfoldable pub open_absolute_nofollow : Text → M ℕ
  open_absolute_nofollow path = do
    names ← absolute_components path
    directory_fd ← outside.open_root
    try_finally
        (wrap_os_error "credential file and every path component must be regular non-symlink data"
          (validate_directory_fd directory_fd >> open_components directory_fd names))
        (system_call silent_call)

  -- the body of `open_credential_file` under the open descriptor
  unfoldable pub read_credential_file : ℕ → M ℕ
  read_credential_file fd = do
    metadata ← system_call (fstat_call fd)
    check_credential_file metadata
    value ← system_call (pread_call fd 66)
    final_metadata ← system_call (fstat_call fd)
    raise_if (not (same_metadata metadata final_metadata))
        (setup "credential file changed while being read")
    validate_credential_bytes value
    system_call silent_call
    pure fd

  -- `open_credential_file`
  unfoldable pub open_credential_file : Text → M ℕ
  open_credential_file path = do
    disable_core_dumps
    fd ← open_absolute_nofollow path
    try_except (read_credential_file fd) close_and_raise
