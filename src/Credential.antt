-- ===== src/Credential.antt =====
-- The state of the credential: libexec/wg_healthcheck_setup/credential_state.py, with
-- `_validate_credential_bytes` and `_private_temporary` of private_io.py; the choice is in the child. A context manager is a function of the body that runs under it. A descriptor
-- is an inode here, so the test of its number against 3 and 1023 is left out.
pub mod Choice
use air_vpn_wg_healthcheck.Store.Create.{write_all}
use air_vpn_wg_healthcheck.Effect.{
  Exception, M, interrupt, pure, raise, raise_if, raise_setup, setup, system_call, try_except,
  try_finally, wrap_os_error, ◌>>=◌, ◌>>◌,
}
use air_vpn_wg_healthcheck.Prelude.{
  Bool, List, Option, [], all, false, if◌then◌else◌, length, none, not, some, true, ℕ, ◌&&◌, ◌==◌,
  ◌||◌, ◌∷◌,
}
use air_vpn_wg_healthcheck.Text.{
  Text, but_last, codes, ends_with, is_digit, mem_text, text_eq, within,
}
use air_vpn_wg_healthcheck.Text.Decimal.{value}
use air_vpn_wg_healthcheck.Disk.{
  Entry, at, config_previous, credential, health_config, is_regular, journal,
}
use air_vpn_wg_healthcheck.Os.{
  Stat, fchmod_call, fstat_call, open_call, pread_call, present_call, silent_call, temporary_call,
}
use air_vpn_wg_healthcheck.Store.{same_metadata, secure_metadata, secure_read}
use air_vpn_wg_healthcheck.Config.{config_value, max_config_bytes}
use air_vpn_wg_healthcheck.Journal.{SetupJournal, invalid_record, max_journal_bytes, parse_journal}
use air_vpn_wg_healthcheck.Model.{SetupRequest}
use air_vpn_wg_healthcheck.System.{Target, lift, validate_apply_paths}

-- the pattern [0-9a-f]{64}\n
unfoldable pub is_credential : Text → Bool
is_credential value =
    length value == 65
    && ends_with b'\n' value
    && all (λ c. is_digit c || within b'a' b'f' c) (but_last value)

-- `_validate_credential_bytes`
unfoldable pub validate_credential_bytes : Text → M (Unit {0})
validate_credential_bytes value =
    raise_if (not (is_credential value))
      (setup "AirVPN API credential must be one lowercase 64-hex-character line")

-- except Exception: the descriptor is closed, and the exception goes on
unfoldable pub close_and_raise : {A : Type 0} → Exception → M A
close_and_raise interrupt = raise interrupt
close_and_raise error = system_call silent_call >> raise error

-- The body of the `try` of `_private_temporary`. Python's file takes the whole value into its buffer, so
-- that `write` returns its length; `flush` writes the buffer until nothing is left, which is the loop of
-- `write_all`. The calls behind it are fsync and lseek.
unfoldable pub fill_temporary : ℕ → Text → M ℕ
fill_temporary descriptor value = do
  system_call (fchmod_call descriptor 0o600)
  write_all (length value) descriptor value
  system_call silent_call
  system_call silent_call
  metadata ← system_call (fstat_call descriptor)
  raise_if
      (not (is_regular metadata.kind) || not (metadata.mode == 0o600) || not (metadata.uid == 0))
      (setup "private descriptor is not a root-owned mode-0600 regular file")
  pure descriptor

-- `_private_temporary`: a file with no name
unfoldable pub private_temporary : Text → M ℕ
private_temporary value = do
  descriptor ← system_call temporary_call
  try_except (fill_temporary descriptor value) close_and_raise

abbrev is_65_bytes : Option Stat → Bool
is_65_bytes none = false
is_65_bytes (some metadata) = metadata.size == 65

unfoldable pub check_installed : ℕ → Option Stat → M (Unit {0})
check_installed descriptor none = pure tt
check_installed descriptor (some expected) = do
  opened ← system_call (fstat_call descriptor)
  raise_if (not (same_metadata opened expected))
      (setup "the installed API credential changed while it was opened")
  value ← system_call (pread_call descriptor 66)
  after ← system_call (fstat_call descriptor)
  raise_if (not (same_metadata after opened))
      (setup "the installed API credential changed while it was read")
  validate_credential_bytes value
  system_call silent_call

-- `open_installed_credential`
unfoldable pub with_installed_credential : {A : Type 0} → Target → (ℕ → M A) → M A
with_installed_credential paths body = do
  expected ← secure_metadata (at credential) paths.trusted_uid true
  raise_if (not (is_65_bytes expected)) (setup "the installed API credential is invalid")
  descriptor ←
      wrap_os_error "the installed API credential could not be opened safely"
        (system_call (open_call (at credential)))
  try_finally (check_installed descriptor expected >> body descriptor) (system_call silent_call)

-- The value of AIRVPN_PROFILE_SOURCE, or `static`.
abbrev pub source_or_static : Option Text → Text
source_or_static none = codes "static"
source_or_static (some value) = if text_eq value [] then codes "static" else value

abbrev pub profile_source_key : Text
profile_source_key = codes "AIRVPN_PROFILE_SOURCE"

abbrev pub is_source : Text → Bool
is_source source = mem_text source (codes "static" ∷ codes "api" ∷ [])

unfoldable pub source_of_payload : Option Text → M Text
source_of_payload none = raise_setup "a required private file is missing"
source_of_payload (some payload) = do
  value ← lift (config_value payload profile_source_key)
  raise_if (not (is_source (source_or_static value)))
      (setup "the installed profile source is invalid")
  pure (source_or_static value)

-- `profile_source_from_path`
unfoldable pub profile_source_from_path : Entry → Target → M Text
profile_source_from_path path paths = do
  payload ← secure_read (at path) paths.trusted_uid max_config_bytes true
  source_of_payload payload

-- `installed_profile_source`
unfoldable pub installed_profile_source : Target → M Text
installed_profile_source = profile_source_from_path health_config

abbrev pub is_some {ℓ} : {A : Type ℓ} → Option A → Bool
is_some none = false
is_some (some a) = true

-- `secure_metadata(path, required=False) is not None`
unfoldable pub is_present : Entry → Target → M Bool
is_present path paths = do
  metadata ← secure_metadata (at path) paths.trusted_uid false
  pure (is_some metadata)

-- `path_exists` of apply_journal.py
abbrev pub path_exists : Entry → M Bool
path_exists path = system_call (present_call (at path))

abbrev pub phase_in : SetupJournal → List Text → Bool
phase_in j names = mem_text j.phase names

-- `credential_state_after_recovery`
unfoldable pub credential_state_after_recovery : Target → SetupJournal → M (Text × Bool)
credential_state_after_recovery paths j =
    if phase_in j (codes "verified" ∷ codes "rolled-back" ∷ [])
    then (do
      source ← installed_profile_source paths
      present ← is_present credential paths
      pure (source, present))
    else if phase_in j (codes "activated" ∷ codes "verifying" ∷ [])
    then (if text_eq j.operation (codes "api-update")
        then pure (codes "api", j.had_key)
        else pure (codes "static", j.had_key))
    else do
      snapshot ← path_exists config_previous
      if snapshot
          then (do
            source ← profile_source_from_path config_previous paths
            pure (source, j.had_key))
          else if phase_in j (codes "prepared" ∷ [])
          then (do source ← installed_profile_source paths; pure (source, j.had_key))
          else raise_setup "the previous configuration snapshot is missing"

unfoldable pub journal_of_payload : Option Text → M SetupJournal
journal_of_payload none = raise_setup invalid_record
journal_of_payload (some payload) = lift (parse_journal payload)

-- `read_journal` of apply_journal.py
unfoldable pub read_journal : Target → M SetupJournal
read_journal paths = do
  payload ← secure_read (at journal) paths.trusted_uid max_journal_bytes true
  journal_of_payload payload

-- `api_requires_proposed_credential`, behind its test of the mode
unfoldable pub api_requires_proposed_credential : SetupRequest → Target → M Bool
api_requires_proposed_credential request paths = do
  validate_apply_paths paths request.iface
  interrupted_before ← path_exists journal
  if interrupted_before
      then (do
        j ← read_journal paths
        (prior_source, present) ← credential_state_after_recovery paths j
        raise_if (request.replace_credential && not present)
            (setup "the interrupted setup had no prior credential to replace")
        pure
            (request.replace_credential || not present || not (text_eq prior_source (codes "api"))))
      else do
        present ← is_present credential paths
        raise_if (request.replace_credential && not present)
            (setup "--replace-credential requires an installed API credential")
        if request.replace_credential || not present then pure true else do
          source ← installed_profile_source paths
          pure (not (text_eq source (codes "api")))
