-- ===== src/Server/Files.antt =====
-- server/src/ops/meta.rs, `handle_open` and `handle_release`, and server/src/ops/data.rs,
-- `handle_create` and `handle_fsync`, as they are compiled for Linux. The table of open handles goes
-- in and comes out.
pub mod Descriptors
pub mod Sessions
use quicfs.Base.{
  ℕ, ◌+◌, ◌%◌, Bool, true, false, ◌&&◌, Option, none, some, List, [], leb, ◌==◌, if◌then◌else◌,
  length,
}
use quicfs.Common.Status.{Status, permission, no_space, stale, from_io, ErrorKind}
use quicfs.Server.Sanitize.{Name, FilePath, Fs, resolve}
use quicfs.Server.Handles.{OpenHandle, HandleTable, ino_key_of, try_insert, remove, get_file}
use quicfs.Server.Write.{has_flag}
use quicfs.Server.Os.{
  Syscall, fsync, fdatasync, fstat, fchmod, Reply, attributes, Attributes, Prog, done, call, ◌>>=◌,
  Outcome, ok, err,
}
use quicfs.Server.Confined.{
  o_wronly, o_rdwr, o_creat, o_excl, o_trunc, o_append, o_nofollow, permissions, open_confined,
  ok_or_errno,
}
use quicfs.Server.Meta.{
  Session, Stat, StatusResponse, as_attributes, stat_after, sync_if, status_of,
}

pub record OpenResponse : Type 0 where
  pub seq : ℕ
  pub status : Status
  pub handle : ℕ
  pub stat : Option Stat

abbrev pub dev_ino : Outcome Attributes → Option (ℕ × ℕ)
dev_ino (ok m) = some (m.dev, m.ino)
dev_ino (err k) = none

-- `try_insert`, which asks for the inode of the file once there is room for a handle.
unfoldable pub insert_file :
    (FilePath → ℕ) → FilePath → ℕ → ℕ → HandleTable → Prog (HandleTable × Option ℕ)
unfolding try_insert ino_key_of
insert_file hash path flags fd t =
    if leb t.max_handles (length t.inner)
    then done (t, none)
    else call (fstat fd) (λ r. done (
        try_insert
          (record {
            path = path;
            flags = flags;
            file = fd;
            ino_key = ino_key_of hash (dev_ino (as_attributes r)) path;
          })
          t))

-- `req.flags & 0x3` as an access mode: 1 and 2 keep it, and 0 and 3 are read-only.
unfoldable pub open_flags : ℕ → ℕ
open_flags flags =
    (if flags % 4 == 1 then o_wronly else if flags % 4 == 2 then o_rdwr else 0)
    + (if has_flag flags 10 then o_append else 0)

unfoldable pub handle_open :
    Fs → FilePath → (FilePath → ℕ) → ℕ → Name → ℕ → HandleTable → Prog (HandleTable × OpenResponse)
unfolding ◌>>=◌ open_confined stat_after insert_file open_flags resolve
handle_open fs root hash seq path flags t = elim (resolve fs root path) [
  | quicfs.Server.Sanitize.Result.err e ↦
      done (t, record { seq = seq; status = permission; handle = 0; stat = none })
  | quicfs.Server.Sanitize.Result.ok resolved ↦
      open_confined root resolved (open_flags flags) 0 >>= λ o. elim o [
        | err k ↦ done (t, record { seq = seq; status = from_io k; handle = 0; stat = none })
        | ok fd ↦ stat_after true (fstat fd) >>= λ s. insert_file hash resolved flags fd t >>= λ p.
            elim p.1 [
              | none ↦ done (p.0, record { seq = seq; status = no_space; handle = 0; stat = none })
              | some id ↦
                  done (p.0, record { seq = seq; status = Status.ok; handle = id; stat = s })
            ]
      ]
]

unfoldable pub create_flags : ℕ → ℕ
create_flags flags =
    o_rdwr
    + o_creat
    + o_nofollow
    + (if has_flag flags 7 then o_excl else 0)
    + (if has_flag flags 9 then o_trunc else 0)
    + (if has_flag flags 10 then o_append else 0)

unfoldable pub handle_create :
    Fs
    → Session
    → FilePath
    → (FilePath → ℕ)
    → ℕ
    → Name
    → ℕ
    → ℕ
    → HandleTable
    → Prog (HandleTable × OpenResponse)
unfolding ◌>>=◌ open_confined stat_after insert_file create_flags sync_if resolve
handle_create fs session root hash seq path flags mode t = elim (resolve fs root path) [
  | quicfs.Server.Sanitize.Result.err e ↦
      done (t, record { seq = seq; status = permission; handle = 0; stat = none })
  | quicfs.Server.Sanitize.Result.ok resolved ↦
      open_confined root resolved (create_flags flags) (permissions mode) >>= λ o. elim o [
        | err k ↦ done (t, record { seq = seq; status = from_io k; handle = 0; stat = none })
        | ok fd ↦ call (fchmod fd (permissions mode)) (λ _. stat_after true (fstat fd) >>= λ s.
            insert_file hash resolved flags fd t >>= λ p. elim p.1 [
              | none ↦ done (p.0, record { seq = seq; status = no_space; handle = 0; stat = none })
              | some id ↦ sync_if session.sync_metadata root resolved >>= λ _.
                  done (p.0, record { seq = seq; status = Status.ok; handle = id; stat = s })
            ])
      ]
]

-- The handle is gone whatever the fsync replies.
unfoldable pub handle_release : Session → ℕ → ℕ → HandleTable → Prog (HandleTable × StatusResponse)
unfolding remove
handle_release session seq handle t =
    if session.sync_on_close
    then elim (remove handle t).1 [
      | none ↦ done ((remove handle t).0, record { seq = seq; status = Status.ok })
      | some h ↦ call (fsync h.file) (λ r.
          done ((remove handle t).0, record { seq = seq; status = status_of (ok_or_errno r) }))
    ]
    else done ((remove handle t).0, record { seq = seq; status = Status.ok })

unfoldable pub handle_fsync : ℕ → ℕ → Bool → HandleTable → Prog StatusResponse
unfolding get_file
handle_fsync seq handle datasync t = elim (get_file handle t) [
  | none ↦ done (record { seq = seq; status = stale })
  | some fd ↦
      call (if datasync then fdatasync fd else fsync fd)
        (λ r. done (record { seq = seq; status = status_of (ok_or_errno r) }))
]
