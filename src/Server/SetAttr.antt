-- ===== src/Server/SetAttr.antt =====
-- server/src/ops/meta.rs, `handle_setattr`, `handle_statfs` and `query_statfs`, as they are compiled
-- for unix. The bits of `valid`: 0 the mode, 1 and 2 the owner and the group, which the handler never
-- looks at, 3 the size, 4 and 5 the times. The text of
-- `/proc/self/fd/<n>` has no NUL byte, so that it is always a C string.
pub mod Asked
pub mod Logged
pub mod Jail
use quicfs.Base.{
  ℕ, ◌+◌, ◌%◌, ◌^◌, Bool, true, false, ◌||◌, Option, none, some, List, [], ◌∷◌, leb, if◌then◌else◌,
  ℤ, pos, quot, rem,
}
use quicfs.Common.Status.{Status, permission, from_io, invalid_input}
use quicfs.Server.Sanitize.{Name, FilePath, Fs, has_byte, resolve}
use quicfs.Server.Write.{has_flag}
use quicfs.Server.Os.{
  Timespec, FsUsage, Syscall, ftruncate, chmod_proc, utimens_proc, statvfs, Reply, usage, Prog,
  done, call, ◌>>=◌, Outcome, ok, err, and_then,
}
use quicfs.Server.Confined.{
  any_nul, o_wronly, o_nofollow, o_path, permissions, open_confined, ok_or_errno,
}
use quicfs.Server.Meta.{StatResponse, as_attributes, metadata_to_stat}

pub record SetAttrRequest : Type 0 where
  pub seq : ℕ
  pub path : Name
  pub valid : ℕ
  pub mode : ℕ
  pub uid : ℕ
  pub gid : ℕ
  pub size : ℕ
  pub atime : ℤ
  pub mtime : ℤ

abbrev pub err_status : Outcome (Unit {0}) → Option Status
err_status (ok u) = none
err_status (err k) = some (from_io k)

-- `File::set_len`, which refuses a length that is no `off64_t`.
unfoldable pub set_len : ℕ → ℕ → Prog (Outcome (Unit {0}))
set_len size fd =
    if leb (2 ^ 63) size
    then done (err invalid_input)
    else call (ftruncate fd size) (λ r. done (ok_or_errno r))

unfoldable pub truncate : FilePath → FilePath → SetAttrRequest → Prog (Option Status)
unfolding ◌>>=◌ and_then open_confined set_len
truncate root resolved req =
    if has_flag req.valid 3
    then (and_then (open_confined root resolved (o_wronly + o_nofollow) 0) (set_len req.size)
        >>= λ o. done (err_status o))
    else done none

unfoldable pub ns_to_timespec : ℤ → Timespec
ns_to_timespec ns = record { tv_sec = quot ns 1000000000; tv_nsec = rem ns 1000000000 }

abbrev pub utime_omit : Timespec
utime_omit = record { tv_sec = pos 0; tv_nsec = pos 1073741822 }

unfoldable pub time_or_omit : Bool → ℤ → Timespec
unfolding ns_to_timespec
time_or_omit asked ns = if asked then ns_to_timespec ns else utime_omit

unfoldable pub change_mode : SetAttrRequest → ℕ → Prog (Option Status)
change_mode req fd =
    if has_flag req.valid 0
    then call (chmod_proc fd (permissions req.mode)) (λ r. done (err_status (ok_or_errno r)))
    else done none

unfoldable pub change_times : SetAttrRequest → ℕ → Prog (Option Status)
unfolding time_or_omit
change_times req fd =
    if has_flag req.valid 4 || has_flag req.valid 5
    then call
        (utimens_proc fd (time_or_omit (has_flag req.valid 4) req.atime)
          (time_or_omit (has_flag req.valid 5) req.mtime))
        (λ r. done (err_status (ok_or_errno r)))
    else done none

-- The next change, if nothing has failed so far.
unfoldable pub unless_failed : Prog (Option Status) → Prog (Option Status) → Prog (Option Status)
unfolding ◌>>=◌
unless_failed m next = m >>= λ e. elim e [ some s ↦ done (some s) | none ↦ next ]

-- With the O_PATH descriptor, or without.
unfoldable pub mode_and_times : SetAttrRequest → Outcome ℕ → Prog (Option Status)
unfolding unless_failed change_mode change_times
mode_and_times req (err k) = done (some (from_io k))
mode_and_times req (ok fd) = unless_failed (change_mode req fd) (change_times req fd)

unfoldable pub change : FilePath → FilePath → SetAttrRequest → Prog (Option Status)
unfolding ◌>>=◌ unless_failed truncate open_confined mode_and_times
change root resolved req = unless_failed (truncate root resolved req) (
    if has_flag req.valid 0 || (has_flag req.valid 4 || has_flag req.valid 5)
    then (open_confined root resolved o_path 0 >>= mode_and_times req)
    else done none)

abbrev pub stat_answer : ℕ → Outcome quicfs.Server.Os.Attributes → StatResponse
stat_answer seq (ok m) = record { seq = seq; status = Status.ok; stat = some (metadata_to_stat m) }
stat_answer seq (err k) = record { seq = seq; status = from_io k; stat = none }

unfoldable pub answer : FilePath → ℕ → Option Status → Prog StatResponse
unfolding metadata_to_stat
answer resolved seq (some s) = done (record { seq = seq; status = s; stat = none })
answer resolved seq none =
    call (Syscall.stat resolved) (λ r. done (stat_answer seq (as_attributes r)))

unfoldable pub handle_setattr : Fs → FilePath → SetAttrRequest → Prog StatResponse
unfolding ◌>>=◌ change answer resolve
handle_setattr fs root req = elim (resolve fs root req.path) [
  | quicfs.Server.Sanitize.Result.err e ↦
      done (record { seq = req.seq; status = permission; stat = none })
  | quicfs.Server.Sanitize.Result.ok resolved ↦ change root resolved req >>= answer resolved req.seq
]

-- `StatFs` of common/src/stat.rs; three fields are cut to 32 bits.
pub record StatFs : Type 0 where
  pub blocks : ℕ
  pub bfree : ℕ
  pub bavail : ℕ
  pub files : ℕ
  pub ffree : ℕ
  pub bsize : ℕ
  pub namelen : ℕ
  pub frsize : ℕ

abbrev pub default : StatFs
default = record {
  blocks = 0;
  bfree = 0;
  bavail = 0;
  files = 0;
  ffree = 0;
  bsize = 0;
  namelen = 0;
  frsize = 0;
}

unfoldable pub usage_of : Reply → StatFs
usage_of (usage s) = record {
  blocks = s.f_blocks;
  bfree = s.f_bfree;
  bavail = s.f_bavail;
  files = s.f_files;
  ffree = s.f_ffree;
  bsize = s.f_bsize % 2 ^ 32;
  namelen = s.f_namemax % 2 ^ 32;
  frsize = s.f_frsize % 2 ^ 32;
}
usage_of _ = default

unfoldable pub query_statfs : FilePath → Prog StatFs
unfolding any_nul usage_of
query_statfs path =
    if any_nul path then done default else call (statvfs path) (λ r. done (usage_of r))

pub record StatFsResponse : Type 0 where
  pub seq : ℕ
  pub status : Status
  pub statfs : Option StatFs

unfoldable pub handle_statfs : Fs → FilePath → ℕ → Name → Prog StatFsResponse
unfolding ◌>>=◌ query_statfs resolve
handle_statfs fs root seq path = elim (resolve fs root path) [
  | quicfs.Server.Sanitize.Result.err e ↦
      done (record { seq = seq; status = permission; statfs = none })
  | quicfs.Server.Sanitize.Result.ok resolved ↦ query_statfs resolved >>= λ s.
      done (record { seq = seq; status = Status.ok; statfs = some s })
]
