-- ===== src/Paths.antt =====
-- The names of the files of one interface: `LiveApplyPaths.for_interface`
-- (libexec/wg_healthcheck_setup/apply_system.py) and `extra_path` (libexec/wg_healthcheck_setup/apply_journal.py).
-- An entry stands in the directory `parent`, under the name `file_name`.
pub mod Forms
pub mod Distinct
use air_vpn_wg_healthcheck.Prelude.{◌++◌, ◌∷◌}
use air_vpn_wg_healthcheck.Text.{Text, codes}
use air_vpn_wg_healthcheck.Disk.{
  Directory, Entry, api_state, backup, candidate, config_previous, credential, credential_previous,
  global_lock, health_config, health_dir, interface_lock, journal, parent, pending, pre_managed,
  profile, runtime_dir, safety, setup_guard, state_dir, status, wireguard_dir,
}

-- path.name
unfoldable pub file_name : Text → Entry → Text
file_name iface health_config = iface ++ codes ".conf"
file_name iface credential = iface ++ codes ".api-key"
file_name iface profile = iface ++ codes ".conf"
file_name iface pre_managed = iface ++ codes ".conf.pre-managed"
file_name iface backup = iface ++ codes ".conf.bak-healthcheck"
file_name iface pending = iface ++ codes ".conf.pending-healthcheck"
file_name iface safety = iface ++ codes ".conf.safety-healthcheck"
file_name iface candidate = b'.' ∷ iface ++ codes ".conf.managed-candidate"
file_name iface api_state = iface ++ codes ".api-state"
file_name iface status = iface ++ codes ".status"
file_name iface setup_guard = iface ++ codes ".setup-guard"
file_name iface interface_lock = iface ++ codes ".lock"
file_name iface global_lock = codes "airvpn-api.lock"
file_name iface journal = iface ++ codes ".setup-transaction"
file_name iface config_previous = b'.' ∷ iface ++ codes ".conf.setup-previous"
file_name iface credential_previous = b'.' ∷ iface ++ codes ".api-key.setup-previous"

unfoldable pub directory_name : Directory → Text
directory_name health_dir = codes "/etc/wireguard/healthcheck.d"
directory_name wireguard_dir = codes "/etc/wireguard"
directory_name state_dir = codes "/var/lib/wg-healthcheck"
directory_name runtime_dir = codes "/run/wg-healthcheck"

-- str(path)
unfoldable pub path_text : Text → Entry → Text
path_text iface entry = directory_name (parent entry) ++ b'/' ∷ file_name iface entry
