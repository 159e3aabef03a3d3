-- ===== src/Os.antt =====
-- The system calls of Python's `os` module that the program makes, on the disk of the model. A
-- descriptor is the number of the inode that it is open on.
use air_vpn_wg_healthcheck.Prelude.{
  Bool, Option, [], drop, false, length, none, some, take, true, ℕ, ◌++◌, ◌+◌, ◌-◌,
}
use air_vpn_wg_healthcheck.Text.{Text, count}
use air_vpn_wg_healthcheck.Disk.{
  Directory, DirectoryInfo, Disk, FilePath, Inode, Kind, directory, regular, symlink,
  update_directory, update_inode, update_name,
}
use air_vpn_wg_healthcheck.Effect.{Call, Reply, done, exists, failed, io, not_found}

-- os.stat_result; ctime is not kept.
pub record Stat : Type 0 where
  pub device : ℕ
  pub inode : ℕ
  pub kind : Kind
  pub mode : ℕ
  pub uid : ℕ
  pub gid : ℕ
  pub size : ℕ
  pub nlink : ℕ
  pub mtime : ℕ

abbrev pub stat_of : Disk → ℕ → Stat
stat_of d i = record {
  device = d.device;
  inode = i;
  kind = (d.inodes i).kind;
  mode = (d.inodes i).mode;
  uid = (d.inodes i).uid;
  gid = (d.inodes i).gid;
  size = length (d.inodes i).content;
  nlink = (d.inodes i).nlink;
  mtime = (d.inodes i).mtime;
}

abbrev at_inode : {A : Type 0} → Option ℕ → (ℕ → Reply A × Disk) → Disk → Reply A × Disk
at_inode none f d = (failed not_found, d)
at_inode (some i) f d = f i

-- os.lstat, and os.stat with follow_symlinks=False
unfoldable pub lstat_call : FilePath → Call Stat
lstat_call p limit d = at_inode (d.names p) (λ i. (done (stat_of d i), d)) d

-- path.exists() or path.is_symlink()
unfoldable pub present_call : FilePath → Call Bool
present_call p limit d = (done (elim (d.names p) [ none ↦ false | some _ ↦ true ]), d)

-- os.open(p, O_RDONLY | O_NOFOLLOW | …)
unfoldable pub open_call : FilePath → Call ℕ
open_call p limit d =
    at_inode (d.names p)
      (λ i. elim (d.inodes i).kind [ symlink ↦ (failed io, d) | _ ↦ (done i, d) ]) d

abbrev pub new_inode : Disk → ℕ → Inode
new_inode d mode = record {
  kind = regular;
  mode = mode;
  uid = d.euid;
  gid = 0;
  nlink = 1;
  mtime = 0;
  content = [];
}

-- os.open(p, O_WRONLY | O_CREAT | O_EXCL | …, mode)
unfoldable pub create_call : FilePath → ℕ → Call ℕ
create_call p mode limit d = elim (d.names p) [
  | some _ ↦ (failed exists, d)
  | none ↦ (
    done d.next_inode,
    record d {
      names = update_name d.names p (some d.next_inode);
      inodes = update_inode d.inodes d.next_inode (new_inode d mode);
      next_inode = d.next_inode + 1;
    },
  )
]

unfoldable pub fstat_call : ℕ → Call Stat
fstat_call fd limit d = (done (stat_of d fd), d)

abbrev change : Disk → ℕ → Inode → Disk
change d fd f = record d { inodes = update_inode d.inodes fd f }

unfoldable pub fchmod_call : ℕ → ℕ → Call (Unit {0})
fchmod_call fd mode limit d = (done tt, change d fd (record (d.inodes fd) { mode = mode }))

unfoldable pub fchown_call : ℕ → ℕ → ℕ → Call (Unit {0})
fchown_call fd uid gid limit d =
    (done tt, change d fd (record (d.inodes fd) { uid = uid; gid = gid }))

unfoldable pub geteuid_call : Call ℕ
geteuid_call limit d = (done d.euid, d)

abbrev pub up_to : Option ℕ → Text → Text
up_to none bytes = bytes
up_to (some n) bytes = take n bytes

-- os.write(fd, bytes), at the end of the file; it may write less than it was given
unfoldable pub write_call : ℕ → Text → Call ℕ
write_call fd bytes limit d =
    let f = d.inodes fd in
    let sent = up_to limit bytes in
    (
      done (length sent),
      change d fd (record f { content = f.content ++ sent; mtime = f.mtime + 1 }),
    )

-- os.sendfile(destination, source, offset, count)
unfoldable pub sendfile_call : ℕ → ℕ → ℕ → ℕ → Call ℕ
sendfile_call destination source offset count limit d =
    write_call destination (take count (drop offset (d.inodes source).content)) limit d

unfoldable pub pread_call : ℕ → ℕ → Call Text
pread_call fd count limit d = (done (take count (d.inodes fd).content), d)

-- fsync, close, lseek, flock: nothing that the model's disk shows
unfoldable pub silent_call : Call (Unit {0})
silent_call limit d = (done tt, d)

-- os.unlink(p)
unfoldable pub unlink_call : FilePath → Call (Unit {0})
unlink_call p limit d =
    at_inode (d.names p)
      (λ i. (
        done tt,
        record d {
          names = update_name d.names p none;
          inodes = update_inode d.inodes i (record (d.inodes i) { nlink = (d.inodes i).nlink - 1 });
        },
      ))
      d

-- os.replace(source, target), for names of two different inodes
unfoldable pub replace_call : FilePath → FilePath → Call (Unit {0})
replace_call source target limit d =
    at_inode (d.names source)
      (λ i. (
        done tt,
        record d { names = update_name (update_name d.names target (some i)) source none },
      ))
      d

-- os.link(source, target)
unfoldable pub link_call : FilePath → FilePath → Call (Unit {0})
link_call source target limit d =
    at_inode (d.names source)
      (λ i. elim (d.names target) [
        | some _ ↦ (failed exists, d)
        | none ↦ (
          done tt,
          record d {
            names = update_name d.names target (some i);
            inodes =
                update_inode d.inodes i (record (d.inodes i) { nlink = (d.inodes i).nlink + 1 });
          },
        )
      ])
      d

unfoldable pub directory_call : Directory → Call DirectoryInfo
directory_call dir limit d = elim (d.directories dir) [
  | none ↦ (failed not_found, d)
  | some info ↦ (done info, d)
]

-- tempfile.TemporaryFile: an inode with no name
unfoldable pub temporary_call : Call ℕ
temporary_call limit d = (
  done d.next_inode,
  record d {
    inodes = update_inode d.inodes d.next_inode (new_inode d 0o600);
    next_inode = d.next_inode + 1;
  },
)

-- os.mkdir(dir, 0o700) with exist_ok=True
unfoldable pub mkdir_call : Directory → Call (Unit {0})
mkdir_call dir limit d = elim (d.directories dir) [
  | some _ ↦ (done tt, d)
  | none ↦ (
    done tt,
    record d {
      directories =
          update_directory d.directories dir
            (record { kind = directory; mode = 0o700; uid = d.euid });
    },
  )
]

-- os.chmod(dir, mode)
unfoldable pub chmod_directory_call : Directory → ℕ → Call (Unit {0})
chmod_directory_call dir mode limit d = elim (d.directories dir) [
  | none ↦ (failed not_found, d)
  | some info ↦ (
    done tt,
    record d { directories = update_directory d.directories dir (record info { mode = mode }) },
  )
]
