-- ===== src/Disk.antt =====
-- The disk: named entries that point to inodes, and the paths of one interface
-- (libexec/wg_healthcheck_setup/apply_system.py, `ApplyPathSet`; apply_journal.py, `extra_path`;
-- store.py, `private_staging_path` and `snapshot_staging_path`).
pub mod Update
use mathlib.Core.Logic.{ite}
use air_vpn_wg_healthcheck.Prelude.{Bool, Option, false, if◌then◌else◌, none, some, true, ℕ, ◌==◌}
use air_vpn_wg_healthcheck.Text.{Text}

pub data Directory : Type 0 where
  health_dir wireguard_dir state_dir runtime_dir : Directory

-- The fields of `ApplyPathSet` that are files, and the three of `extra_path`.
pub data Entry : Type 0 where
  health_config credential profile pre_managed backup pending safety candidate : Entry
  api_state status setup_guard interface_lock global_lock : Entry
  journal config_previous credential_previous : Entry

-- An entry, or the fixed staging path beside it.
pub data FilePath : Type 0 where
  at : Entry → FilePath
  staging : Entry → FilePath
  snapshot_staging : Entry → FilePath

pub Entry-discrete : Discrete Entry
Entry-discrete = hlevel

unfoldable pub FilePath-discrete : Discrete FilePath
unfolding Entry-discrete
FilePath-discrete = hlevel Entry-discrete

-- path.parent
abbrev pub parent : Entry → Directory
parent profile = wireguard_dir
parent pre_managed = wireguard_dir
parent backup = wireguard_dir
parent pending = wireguard_dir
parent safety = wireguard_dir
parent candidate = wireguard_dir
parent api_state = state_dir
parent status = runtime_dir
parent setup_guard = runtime_dir
parent interface_lock = runtime_dir
parent global_lock = runtime_dir
parent _ = health_dir

pub data Kind : Type 0 where
  regular directory symlink other : Kind

abbrev pub is_regular : Kind → Bool
is_regular regular = true
is_regular _ = false

abbrev pub is_directory : Kind → Bool
is_directory directory = true
is_directory _ = false

-- An inode: what fstat shows of it, and its bytes.
pub record Inode : Type 0 where
  pub kind : Kind
  pub mode : ℕ
  pub uid : ℕ
  pub gid : ℕ
  pub nlink : ℕ
  pub mtime : ℕ
  pub content : Text

-- What lstat shows of a directory.
pub record DirectoryInfo : Type 0 where
  pub kind : Kind
  pub mode : ℕ
  pub uid : ℕ

pub record Disk : Type 0 where
  pub names : FilePath → Option ℕ
  pub inodes : ℕ → Inode
  pub next_inode : ℕ
  pub directories : Directory → Option DirectoryInfo
  pub device : ℕ
  pub euid : ℕ

abbrev pub update_name : (FilePath → Option ℕ) → FilePath → Option ℕ → FilePath → Option ℕ
update_name f p v q = ite (FilePath-discrete p q) v (f q)

abbrev pub update_inode : (ℕ → Inode) → ℕ → Inode → ℕ → Inode
update_inode f i v j = if i == j then v else f j

abbrev pub content_at : (ℕ → Inode) → Option ℕ → Option Text
content_at f none = none
content_at f (some i) = some (f i).content

-- The bytes that a reader of the path finds.
abbrev pub bytes_at : Disk → FilePath → Option Text
bytes_at d p = content_at d.inodes (d.names p)

abbrev pub same_kind : Kind → Kind → Bool
same_kind regular regular = true
same_kind directory directory = true
same_kind symlink symlink = true
same_kind other other = true
same_kind _ _ = false

unfoldable pub Directory-discrete : Discrete Directory
Directory-discrete = hlevel

abbrev pub update_directory :
    (Directory → Option DirectoryInfo)
    → Directory
    → DirectoryInfo
    → Directory
    → Option DirectoryInfo
update_directory f p v q = ite (Directory-discrete p q) (some v) (f q)
