-- ===== src/Server/Meta/Requests.antt =====
-- server/src/ops/meta.rs: whatever a client asks and the kernel replies, the handlers act beneath the
-- export root.
use quicfs.Base.{ℕ, true, false, ◌&&◌, none, some, List, [], ltb, length, All, inl, inr, Bool-cases}
use quicfs.Common.Status.{Status, from_io}
use quicfs.Server.Sanitize.{Name, FilePath, Fs, resolve}
use quicfs.Server.Os.{stat, lstat, Attributes, done, Outcome, ok, err}
use quicfs.Server.Os.Beneath.{Grant, IsEntry, Safe, bind-Safe, IfOk}
use quicfs.Server.Confined.{
  mkdir_confined, remove_confined, symlink_confined, link_confined, rename_confined,
  readlink_confined,
}
use quicfs.Server.Confined.Jail.{
  Always, mkdir_confined-Safe, remove_confined-Safe, symlink_confined-Safe, link_confined-Safe,
  rename_confined-Safe, readlink_confined-Safe,
}
use quicfs.Server.Meta.{
  Session, StatResponse, ReadLinkResponse, sync_both, succeeded, max_symlink_target_len,
  as_attributes, metadata_to_stat, handle_getattr, handle_mkdir, handle_rmdir, handle_unlink,
  handle_rename, handle_symlink, handle_readlink, handle_link,
}
use quicfs.Server.Meta.Steps.{
  resolved-IsEntry, Result-cases, finish_stat-Safe, finish_status-Safe, sync_both-Safe,
}
use quicfs.Server.ReadDir.{ReadDirRequest}
use quicfs.Server.ReadDir.Served.{serve_readdir}
use quicfs.Server.SetAttr.{SetAttrRequest, handle_setattr, handle_statfs}
use quicfs.Server.SetAttr.Jail.{handle_setattr-Safe, handle_statfs-Safe}

module _ (fs : Fs) (session : Session) (root : FilePath) (entries : All IsEntry root) where
  handle_mkdir-Safe :
      (seq : ℕ) (path : Name) (mode : ℕ)
      → Safe root Always [] (handle_mkdir fs session root seq path mode)
  unfolding handle_mkdir
  handle_mkdir-Safe seq path mode = elim (Result-cases (resolve fs root path)) [
    | inl (e, z) ↦ rw (z, handle_mkdir) tt
    | inr (p, z) ↦
        let (clean, under) = resolved-IsEntry fs root path p entries z in
        rw (z, handle_mkdir)
          (finish_stat-Safe root session p seq (stat p) (mkdir_confined root p mode) (λ h. under)
            (mkdir_confined-Safe root [] p mode clean))
  ]

  handle_rmdir-Safe :
      (seq : ℕ) (path : Name) → Safe root Always [] (handle_rmdir fs session root seq path)
  unfolding handle_rmdir
  handle_rmdir-Safe seq path = elim (Result-cases (resolve fs root path)) [
    | inl (e, z) ↦ rw (z, handle_rmdir) tt
    | inr (p, z) ↦
        rw (z, handle_rmdir)
          (finish_status-Safe root session p seq (remove_confined root p true)
            (remove_confined-Safe root [] p true (resolved-IsEntry fs root path p entries z).0))
  ]

  handle_unlink-Safe :
      (seq : ℕ) (path : Name) → Safe root Always [] (handle_unlink fs session root seq path)
  unfolding handle_unlink
  handle_unlink-Safe seq path = elim (Result-cases (resolve fs root path)) [
    | inl (e, z) ↦ rw (z, handle_unlink) tt
    | inr (p, z) ↦
        rw (z, handle_unlink)
          (finish_status-Safe root session p seq (remove_confined root p false)
            (remove_confined-Safe root [] p false (resolved-IsEntry fs root path p entries z).0))
  ]

  handle_rename-Safe :
      (seq : ℕ) (old_path new_path : Name)
      → Safe root Always [] (handle_rename fs session root seq old_path new_path)
  unfolding handle_rename
  handle_rename-Safe seq old_path new_path = elim (Result-cases (resolve fs root old_path)) [
    | inl (e, z) ↦ rw (z, handle_rename) tt
    | inr (old, z) ↦ elim (Result-cases (resolve fs root new_path)) [
      | inl (e, y) ↦ rw (z, y, handle_rename) tt
      | inr (new, y) ↦
          rw (z, y, handle_rename)
            (bind-Safe root (IfOk Always) Always [] (rename_confined root old new) _
              (rename_confined-Safe root [] old new
                (resolved-IsEntry fs root old_path old entries z).0
                (resolved-IsEntry fs root new_path new entries y).0)
              (λ h o q.
                bind-Safe root Always Always h
                  (sync_both (succeeded o && session.sync_metadata) root old new) _
                  (sync_both-Safe root h (succeeded o && session.sync_metadata) old new)
                  (λ i u v. tt)))
    ]
  ]

  handle_symlink-Safe :
      (seq : ℕ) (target link : Name)
      → Safe root Always [] (handle_symlink fs session root seq target link)
  unfolding handle_symlink
  handle_symlink-Safe seq target link =
      elim (Bool-cases (ltb max_symlink_target_len (length target))) [
        | inl long ↦ rw (long, handle_symlink) tt
        | inr short ↦ elim (Result-cases (resolve fs root link)) [
          | inl (e, z) ↦ rw (short, z, handle_symlink) tt
          | inr (p, z) ↦
              let (clean, under) = resolved-IsEntry fs root link p entries z in
              rw (short, z, handle_symlink)
                (finish_stat-Safe root session p seq (lstat p) (symlink_confined root p target)
                  (λ h. under) (symlink_confined-Safe root [] p target clean))
        ]
      ]

  handle_link-Safe :
      (seq : ℕ) (path link : Name) → Safe root Always [] (handle_link fs session root seq path link)
  unfolding handle_link
  handle_link-Safe seq path link = elim (Result-cases (resolve fs root path)) [
    | inl (e, z) ↦ rw (z, handle_link) tt
    | inr (src, z) ↦ elim (Result-cases (resolve fs root link)) [
      | inl (e, y) ↦ rw (z, y, handle_link) tt
      | inr (dst, y) ↦
          let (clean, under) = resolved-IsEntry fs root link dst entries y in
          rw (z, y, handle_link)
            (finish_stat-Safe root session dst seq (stat dst) (link_confined root src dst)
              (λ h. under)
              (link_confined-Safe root [] src dst (resolved-IsEntry fs root path src entries z).0
                clean))
    ]
  ]

answer_getattr :
    (root : FilePath) (g : List Grant) (seq : ℕ) (o : Outcome Attributes)
    → Safe {A = StatResponse} root Always g (elim o [
      | ok m ↦ done (record { seq = seq; status = Status.ok; stat = some (metadata_to_stat m) })
      | err k ↦ done (record { seq = seq; status = from_io k; stat = none })
    ])
answer_getattr root g seq (ok m) = tt
answer_getattr root g seq (err k) = tt

answer_readlink :
    (root : FilePath) (g : List Grant) (seq : ℕ) (o : Outcome Name)
    → Safe {A = ReadLinkResponse} root Always g (elim o [
      | ok t ↦ done (record { seq = seq; status = Status.ok; target = t })
      | err k ↦ done (record { seq = seq; status = from_io k; target = [] })
    ])
answer_readlink root g seq (ok t) = tt
answer_readlink root g seq (err k) = tt

module _ (fs : Fs) (root : FilePath) (entries : All IsEntry root) where
  handle_getattr-Safe :
      (seq : ℕ) (path : Name) → Safe root Always [] (handle_getattr fs root seq path)
  unfolding handle_getattr
  handle_getattr-Safe seq path = elim (Result-cases (resolve fs root path)) [
    | inl (e, z) ↦ rw (z, handle_getattr) tt
    | inr (p, z) ↦
        rw (z, handle_getattr)
          (
            (resolved-IsEntry fs root path p entries z).1,
            λ r. answer_getattr root _ seq (as_attributes r),
          )
  ]

  handle_readlink-Safe :
      (seq : ℕ) (path : Name) → Safe root Always [] (handle_readlink fs root seq path)
  unfolding handle_readlink
  handle_readlink-Safe seq path = elim (Result-cases (resolve fs root path)) [
    | inl (e, z) ↦ rw (z, handle_readlink) tt
    | inr (p, z) ↦
        rw (z, handle_readlink)
          (bind-Safe root (IfOk Always) Always [] (readlink_confined root p) _
            (readlink_confined-Safe root [] p (resolved-IsEntry fs root path p entries z).0)
            (λ h o q. answer_readlink root h seq o))
  ]

  serve_readdir-Safe : (req : ReadDirRequest) → Safe root Always [] (serve_readdir fs root req)
  unfolding serve_readdir
  serve_readdir-Safe req = elim (Result-cases (resolve fs root req.path)) [
    | inl (e, z) ↦ rw (z, serve_readdir) tt
    | inr (p, z) ↦
        rw (z, serve_readdir) ((resolved-IsEntry fs root req.path p entries z).1, λ r. tt)
  ]

-- A metadata request of a client.
pub data Request : Type 0 where
  getattr rmdir unlink readlink : Name → Request
  mkdir : Name → ℕ → Request
  rename symlink link : Name → Name → Request
  setattr : SetAttrRequest → Request
  statfs : Name → Request
  readdir : ReadDirRequest → Request

-- The handler of the request is safe.
abbrev pub HandlerSafe : Fs → Session → FilePath → ℕ → Request → Type 0
HandlerSafe fs session root seq (getattr p) = Safe root Always [] (handle_getattr fs root seq p)
HandlerSafe fs session root seq (rmdir p) = Safe root Always [] (handle_rmdir fs session root seq p)
HandlerSafe fs session root seq (unlink p) =
    Safe root Always [] (handle_unlink fs session root seq p)
HandlerSafe fs session root seq (readlink p) = Safe root Always [] (handle_readlink fs root seq p)
HandlerSafe fs session root seq (mkdir p mode) =
    Safe root Always [] (handle_mkdir fs session root seq p mode)
HandlerSafe fs session root seq (rename p q) =
    Safe root Always [] (handle_rename fs session root seq p q)
HandlerSafe fs session root seq (symlink p q) =
    Safe root Always [] (handle_symlink fs session root seq p q)
HandlerSafe fs session root seq (link p q) =
    Safe root Always [] (handle_link fs session root seq p q)
HandlerSafe fs session root seq (setattr req) = Safe root Always [] (handle_setattr fs root req)
HandlerSafe fs session root seq (statfs p) = Safe root Always [] (handle_statfs fs root seq p)
HandlerSafe fs session root seq (readdir req) = Safe root Always [] (serve_readdir fs root req)

-- Whatever request to look at, list or change names and attributes a client sends (all the metadata
-- requests but those that open, create and release files), whatever the kernel replies to the system
-- calls, and for a root whose components are single names: to act on them, the handler opens nothing
-- but the export root, what `openat2` resolves beneath it, and, only after an ENOSYS to one of these
-- two, paths under the root. It makes, removes, renames, links and reads entries, and sets the mode of
-- a new directory, by single names in directories that were opened so, and it sets size, mode and
-- times of files that were opened so. What it only looks at, or lists, it reaches by a path, which is
-- under the root.
pub requests-Safe :
    (fs : Fs) (session : Session) (root : FilePath) (seq : ℕ) (request : Request)
    → All IsEntry root
    → HandlerSafe fs session root seq request
requests-Safe fs session root seq (getattr p) h = handle_getattr-Safe fs root h seq p
requests-Safe fs session root seq (rmdir p) h = handle_rmdir-Safe fs session root h seq p
requests-Safe fs session root seq (unlink p) h = handle_unlink-Safe fs session root h seq p
requests-Safe fs session root seq (readlink p) h = handle_readlink-Safe fs root h seq p
requests-Safe fs session root seq (mkdir p mode) h = handle_mkdir-Safe fs session root h seq p mode
requests-Safe fs session root seq (rename p q) h = handle_rename-Safe fs session root h seq p q
requests-Safe fs session root seq (symlink p q) h = handle_symlink-Safe fs session root h seq p q
requests-Safe fs session root seq (link p q) h = handle_link-Safe fs session root h seq p q
requests-Safe fs session root seq (setattr req) h = handle_setattr-Safe fs root h req
requests-Safe fs session root seq (statfs p) h = handle_statfs-Safe fs root h seq p
requests-Safe fs session root seq (readdir req) h = serve_readdir-Safe fs root h req
