-- ===== src/Server/Meta.antt =====
-- server/src/ops/meta.rs: the handlers of the metadata operations, as they are compiled for unix, and
-- `sync_parent_dir` of server/src/ops/mod.rs. A handler is a program of system calls that ends with
-- the response; the response's operation code, which is fixed for a handler, is left out.
pub mod Steps
pub mod Requests
use quicfs.Base.{
  ℕ, ◌+◌, ◌-◌, ◌/◌, ◌%◌, ◌^◌, min, Bool, true, false, ◌&&◌, not, Option, none, some, List, [], ◌∷◌,
  ltb, ◌==◌, if◌then◌else◌, length,
}
use quicfs.Common.Status.{Status, permission, invalid_arg, from_io, ErrorKind, other}
use quicfs.Server.Sanitize.{Name, FilePath, Fs, path_eq, resolve}
use quicfs.Server.Os.{
  Syscall, Reply, value, text, attributes, failed, no_sys, Attributes, Prog, done, call, ◌>>=◌,
  Outcome, ok, err,
}
use quicfs.Server.Confined.{
  fsync_dir_confined, split_last, mkdir_confined, remove_confined, symlink_confined, link_confined,
  rename_confined, readlink_confined,
}

pub record Session : Type 0 where
  pub sync_metadata : Bool
  pub sync_on_close : Bool

pub record Stat : Type 0 where
  pub ino : ℕ
  pub mode : ℕ
  pub nlink : ℕ
  pub uid : ℕ
  pub gid : ℕ
  pub size : ℕ
  pub atime : ℕ
  pub mtime : ℕ
  pub ctime : ℕ
  pub blksz : ℕ
  pub blocks : ℕ

-- `metadata_to_stat`; the time of the last modification stands for `ctime` as well.
unfoldable pub metadata_to_stat : Attributes → Stat
metadata_to_stat m = record {
  ino = m.ino;
  mode = m.mode;
  nlink = min m.nlink (2 ^ 32 - 1);
  uid = m.uid;
  gid = m.gid;
  size = m.size;
  atime = m.atime;
  mtime = m.mtime;
  ctime = m.mtime;
  blksz = 4096;
  blocks = (m.size + 511) / 512;
}

abbrev pub as_attributes : Reply → Outcome Attributes
as_attributes (attributes m) = ok m
as_attributes (failed k) = err k
as_attributes _ = err other

pub record StatResponse : Type 0 where
  pub seq : ℕ
  pub status : Status
  pub stat : Option Stat

pub record StatusResponse : Type 0 where
  pub seq : ℕ
  pub status : Status

pub record ReadLinkResponse : Type 0 where
  pub seq : ℕ
  pub status : Status
  pub target : Name

-- `.map(|_| Status::Ok).unwrap_or_else(Status::from)`
abbrev pub status_of : Outcome (Unit {0}) → Status
status_of (ok u) = Status.ok
status_of (err k) = from_io k

abbrev pub succeeded : Outcome (Unit {0}) → Bool
succeeded (ok u) = true
succeeded (err k) = false

-- A failure of the fsync is only logged.
unfoldable pub sync_parent_dir : FilePath → FilePath → Prog (Unit {0})
unfolding ◌>>=◌ fsync_dir_confined split_last
sync_parent_dir root resolved =
    if path_eq resolved root then done tt else elim (split_last resolved) [
      | none ↦ done tt
      | some (dir, name) ↦ fsync_dir_confined root dir >>= λ o. done tt
    ]

-- `if status == Status::Ok && session.sync_metadata { … }`
unfoldable pub sync_if : Bool → FilePath → FilePath → Prog (Unit {0})
unfolding sync_parent_dir
sync_if wanted root resolved = if wanted then sync_parent_dir root resolved else done tt

abbrev pub stat_option : Outcome Attributes → Option Stat
stat_option (ok m) = some (metadata_to_stat m)
stat_option (err k) = none

-- The stat of a response: asked for after a success only, and left out where it fails.
unfoldable pub stat_after : Bool → Syscall → Prog (Option Stat)
unfolding metadata_to_stat
stat_after asked c = if asked then call c (λ r. done (stat_option (as_attributes r))) else done none

unfoldable pub handle_getattr : Fs → FilePath → ℕ → Name → Prog StatResponse
unfolding metadata_to_stat resolve
handle_getattr fs root seq path = elim (resolve fs root path) [
  | quicfs.Server.Sanitize.Result.err e ↦
      done (record { seq = seq; status = permission; stat = none })
  | quicfs.Server.Sanitize.Result.ok resolved ↦ call (Syscall.stat resolved) (λ r.
      elim (as_attributes r) [
        | ok m ↦ done (record { seq = seq; status = Status.ok; stat = some (metadata_to_stat m) })
        | err k ↦ done (record { seq = seq; status = from_io k; stat = none })
      ])
]

-- An operation, then the fsync of the directory, then the stat.
unfoldable pub finish_stat :
    Session → FilePath → FilePath → ℕ → Syscall → Prog (Outcome (Unit {0})) → Prog StatResponse
unfolding ◌>>=◌ sync_if stat_after
finish_stat session root changed seq look m = m >>= λ o.
    sync_if (succeeded o && session.sync_metadata) root changed >>= λ _.
    stat_after (succeeded o) look >>= λ s.
    done (record { seq = seq; status = status_of o; stat = s })

unfoldable pub handle_mkdir : Fs → Session → FilePath → ℕ → Name → ℕ → Prog StatResponse
unfolding finish_stat mkdir_confined resolve
handle_mkdir fs session root seq path mode = elim (resolve fs root path) [
  | quicfs.Server.Sanitize.Result.err e ↦
      done (record { seq = seq; status = permission; stat = none })
  | quicfs.Server.Sanitize.Result.ok resolved ↦
      finish_stat session root resolved seq (Syscall.stat resolved)
        (mkdir_confined root resolved mode)
]

-- An operation, then the fsync of the directory.
unfoldable pub finish_status :
    Session → FilePath → FilePath → ℕ → Prog (Outcome (Unit {0})) → Prog StatusResponse
unfolding ◌>>=◌ sync_if
finish_status session root changed seq m = m >>= λ o.
    sync_if (succeeded o && session.sync_metadata) root changed >>= λ _.
    done (record { seq = seq; status = status_of o })

unfoldable pub handle_rmdir : Fs → Session → FilePath → ℕ → Name → Prog StatusResponse
unfolding finish_status remove_confined resolve
handle_rmdir fs session root seq path = elim (resolve fs root path) [
  | quicfs.Server.Sanitize.Result.err e ↦ done (record { seq = seq; status = permission })
  | quicfs.Server.Sanitize.Result.ok resolved ↦
      finish_status session root resolved seq (remove_confined root resolved true)
]

unfoldable pub handle_unlink : Fs → Session → FilePath → ℕ → Name → Prog StatusResponse
unfolding finish_status remove_confined resolve
handle_unlink fs session root seq path = elim (resolve fs root path) [
  | quicfs.Server.Sanitize.Result.err e ↦ done (record { seq = seq; status = permission })
  | quicfs.Server.Sanitize.Result.ok resolved ↦
      finish_status session root resolved seq (remove_confined root resolved false)
]

abbrev pub parent_of : FilePath → Option FilePath
parent_of path = elim (split_last path) [ none ↦ none | some (dir, name) ↦ some dir ]

abbrev pub same_parent : Option FilePath → Option FilePath → Bool
same_parent none none = true
same_parent none (some q) = false
same_parent (some p) none = false
same_parent (some p) (some q) = path_eq p q

-- The directories of both names, once if they are the same.
unfoldable pub sync_both : Bool → FilePath → FilePath → FilePath → Prog (Unit {0})
unfolding ◌>>=◌ sync_if split_last
sync_both wanted root old new = sync_if wanted root old >>= λ _.
    sync_if (wanted && not (same_parent (parent_of old) (parent_of new))) root new

unfoldable pub handle_rename : Fs → Session → FilePath → ℕ → Name → Name → Prog StatusResponse
unfolding ◌>>=◌ sync_both rename_confined resolve
handle_rename fs session root seq old_path new_path = elim (resolve fs root old_path) [
  | quicfs.Server.Sanitize.Result.err e ↦ done (record { seq = seq; status = permission })
  | quicfs.Server.Sanitize.Result.ok old ↦ elim (resolve fs root new_path) [
    | quicfs.Server.Sanitize.Result.err e ↦ done (record { seq = seq; status = permission })
    | quicfs.Server.Sanitize.Result.ok new ↦ rename_confined root old new >>= λ o.
        sync_both (succeeded o && session.sync_metadata) root old new >>= λ _.
        done (record { seq = seq; status = status_of o })
  ]
]

abbrev pub max_symlink_target_len : ℕ
max_symlink_target_len = 4096

unfoldable pub handle_symlink : Fs → Session → FilePath → ℕ → Name → Name → Prog StatResponse
unfolding finish_stat symlink_confined resolve
handle_symlink fs session root seq target link =
    if ltb max_symlink_target_len (length target)
    then done (record { seq = seq; status = invalid_arg; stat = none })
    else elim (resolve fs root link) [
      | quicfs.Server.Sanitize.Result.err e ↦
          done (record { seq = seq; status = permission; stat = none })
      | quicfs.Server.Sanitize.Result.ok link_path ↦
          finish_stat session root link_path seq (Syscall.lstat link_path)
            (symlink_confined root link_path target)
    ]

unfoldable pub handle_readlink : Fs → FilePath → ℕ → Name → Prog ReadLinkResponse
unfolding ◌>>=◌ readlink_confined resolve
handle_readlink fs root seq path = elim (resolve fs root path) [
  | quicfs.Server.Sanitize.Result.err e ↦
      done (record { seq = seq; status = permission; target = [] })
  | quicfs.Server.Sanitize.Result.ok resolved ↦ readlink_confined root resolved >>= λ o. elim o [
    | ok t ↦ done (record { seq = seq; status = Status.ok; target = t })
    | err k ↦ done (record { seq = seq; status = from_io k; target = [] })
  ]
]

unfoldable pub handle_link : Fs → Session → FilePath → ℕ → Name → Name → Prog StatResponse
unfolding finish_stat link_confined resolve
handle_link fs session root seq path link = elim (resolve fs root path) [
  | quicfs.Server.Sanitize.Result.err e ↦
      done (record { seq = seq; status = permission; stat = none })
  | quicfs.Server.Sanitize.Result.ok src ↦ elim (resolve fs root link) [
    | quicfs.Server.Sanitize.Result.err e ↦
        done (record { seq = seq; status = permission; stat = none })
    | quicfs.Server.Sanitize.Result.ok dst ↦
        finish_stat session root dst seq (Syscall.stat dst) (link_confined root src dst)
  ]
]
