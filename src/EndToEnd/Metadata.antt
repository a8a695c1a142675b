-- ===== src/EndToEnd/Metadata.antt =====
-- client/src/conn.rs and server/src/ops/meta.rs: the RPCs that change names, from the call of the client
-- to the system calls of the server and back, on a connection that delivers.
pub mod Answers
pub mod Told
use quicfs.Base.{
  ℕ, String, ◌≡◌, refl, sym, ap, subst, ◌∙◌, ◌⊎◌, inl, inr, Bool, true, false, Option, none, some,
  ltb, if◌then◌else◌, length, Bool-cases, Option-cases, ◌&&◌,
}
use quicfs.Common.Status.{
  Status, ErrorKind, permission, invalid_arg, as_u8, from_io, not_found_kind, permission_denied,
  already_exists,
}
use quicfs.Client.Calls.{
  Sent, received, Service, or_missing, stat_of, unit_of, Link, rpc, mkdir, rmdir, unlink, rename,
  symlink, link,
}
use quicfs.Client.Errno.{
  Errno, enoent, eacces, eexist, eio, check_status, rpc_to_errno, told, told-meaning, told_failure,
}
use quicfs.Client.Fuse.{Answer, got, failed}
use quicfs.Server.Confined.{
  mkdir_confined, remove_confined, rename_confined, symlink_confined, link_confined,
}
use quicfs.Server.Files.{handle_open, handle_create, handle_release, handle_fsync}
use quicfs.Server.Handles.{HandleTable}
use quicfs.Server.Meta.{
  as_attributes, Session, Stat, StatResponse, StatusResponse, status_of, succeeded, sync_if,
  stat_after, sync_both, finish_stat, finish_status, max_symlink_target_len, handle_getattr,
  handle_mkdir, handle_rmdir, handle_unlink, handle_rename, handle_symlink, handle_readlink,
  handle_link,
}
use quicfs.Server.Os.{Prog, done, Outcome, ok, err, Syscall, Reply, ◌>>=◌}
use quicfs.Server.Os.Run.{Machine, run, run_seen}
use quicfs.Server.Sanitize.{Name, FilePath, Fs, Result, resolve}
use quicfs.Server.Meta.Steps.{Result-cases}
use quicfs.Server.SetAttr.{handle_setattr, handle_statfs}

-- The errno of an answer that is an error.
abbrev pub errno_of {ℓ} : {A : Type ℓ} → Answer A → Option Errno
errno_of (got a) = none
errno_of (failed e) = some (rpc_to_errno e)

-- The errno for what a system call of the server ended with.
abbrev pub errno_after : Outcome (Unit {0}) → Option Errno
errno_after (ok u) = none
errno_after (err k) = elim k [
  | not_found_kind ↦ some enoent
  | permission_denied ↦ some eacces
  | already_exists ↦ some eexist
  | _ ↦ some eio
]

-- The errno where a success is followed by a stat, by the reply to that: EIO if it is no stat.
abbrev pub errno_seen : Outcome (Unit {0}) → Reply → Option Errno
errno_seen (err k) r = errno_after (err k)
errno_seen (ok u) r = elim (as_attributes r) [ ok m ↦ none | err k ↦ some eio ]

-- A request that changes names.
pub data Change : Type 0 where
  made_dir : Name → ℕ → Change
  removed_dir removed_file : Name → Change
  moved : Name → Name → ℕ → Change
  made_symlink made_link : Name → Name → Change

-- What the server does for it: nothing, with an errno to tell; or system calls; or system calls and,
-- after their success, the fsync of the directory of a path and one more call, which looks.
pub data Attempted : Type 0 where
  refused : Errno → Attempted
  tried : Prog (Outcome (Unit {0})) → Attempted
  looked : Prog (Outcome (Unit {0})) → FilePath → Syscall → Attempted

abbrev pub on_path : Result FilePath → (FilePath → Attempted) → Attempted
on_path (Result.err e) next = refused eacces
on_path (Result.ok path) next = next path

unfoldable pub attempted : Fs → FilePath → Change → Attempted
attempted fs root (made_dir p mode) =
    on_path (resolve fs root p)
      (λ path. looked (mkdir_confined root path mode) path (Syscall.stat path))
attempted fs root (removed_dir p) =
    on_path (resolve fs root p) (λ path. tried (remove_confined root path true))
attempted fs root (removed_file p) =
    on_path (resolve fs root p) (λ path. tried (remove_confined root path false))
attempted fs root (moved p q flags) =
    on_path (resolve fs root p)
      (λ old. on_path (resolve fs root q) (λ new. tried (rename_confined root old new)))
attempted fs root (made_symlink target p) =
    if ltb max_symlink_target_len (length target)
    then refused eio
    else on_path (resolve fs root p)
        (λ path. looked (symlink_confined root path target) path (Syscall.lstat path))
attempted fs root (made_link p q) = on_path (resolve fs root p) (λ src.
    on_path (resolve fs root q) (λ dst. looked (link_confined root src dst) dst (Syscall.stat dst)))

-- The call of the client.
unfoldable pub performed : {service : Service} → Change → Link service → Link service × Option Errno
unfolding mkdir rmdir unlink rename symlink link
performed (made_dir p mode) l = ((mkdir p mode l).0, errno_of (mkdir p mode l).1)
performed (removed_dir p) l = ((rmdir p l).0, errno_of (rmdir p l).1)
performed (removed_file p) l = ((unlink p l).0, errno_of (unlink p l).1)
performed (moved p q flags) l = ((rename p q flags l).0, errno_of (rename p q flags l).1)
performed (made_symlink target p) l = ((symlink target p l).0, errno_of (symlink target p l).1)
performed (made_link p q) l = ((link p q l).0, errno_of (link p q l).1)

-- The errno for what the server attempts in a state of its system.
unfoldable pub expected :
    (machine : Machine) → Session → FilePath → Attempted → machine.State → Option Errno
unfolding run sync_if
expected machine session root (refused e) s = some e
expected machine session root (tried m) s = errno_after (run machine m s).1
expected machine session root (looked m changed look) s =
    let after : machine.State × Outcome (Unit {0}) = run machine m s in
    let synced : machine.State =
      (run machine (sync_if session.sync_metadata root changed) after.0).0 in
    errno_seen after.1 (machine.reply look synced).1

module _ (machine : Machine) (fs : Fs) (session : Session) (root : FilePath)
    (hash : FilePath → ℕ) where
  -- The server behind the connection: its handlers, run one after the other.
  abbrev delivered {ℓ} :
      {R : Type ℓ} → (machine.State × R) → HandleTable → (machine.State × HandleTable) × Sent R
  delivered (s, resp) t = ((s, t), received resp)

  abbrev delivered_table {ℓ} :
      {R : Type ℓ} → machine.State × (HandleTable × R) → (machine.State × HandleTable) × Sent R
  delivered_table (s, (t, resp)) = ((s, t), received resp)

  abbrev pub server : Service
  server = record {
    State = machine.State × HandleTable;
    get_attr = λ seq path s. delivered (run machine (handle_getattr fs root seq path) s.0) s.1;
    set_attr = λ req s. delivered (run machine (handle_setattr fs root req) s.0) s.1;
    make_dir = λ seq path mode s.
        delivered (run machine (handle_mkdir fs session root seq path mode) s.0) s.1;
    remove_dir =
        λ seq path s. delivered (run machine (handle_rmdir fs session root seq path) s.0) s.1;
    remove_file =
        λ seq path s. delivered (run machine (handle_unlink fs session root seq path) s.0) s.1;
    move = λ seq old new flags s.
        delivered (run machine (handle_rename fs session root seq old new) s.0) s.1;
    make_symlink = λ seq target path s.
        delivered (run machine (handle_symlink fs session root seq target path) s.0) s.1;
    read_link = λ seq path s. delivered (run machine (handle_readlink fs root seq path) s.0) s.1;
    make_link = λ seq path new s.
        delivered (run machine (handle_link fs session root seq path new) s.0) s.1;
    stat_fs = λ seq path s. delivered (run machine (handle_statfs fs root seq path) s.0) s.1;
    open_file = λ seq path flags s.
        delivered_table (run machine (handle_open fs root hash seq path flags s.1) s.0);
    create_file = λ seq path flags mode s.
        delivered_table
          (run machine (handle_create fs session root hash seq path flags mode s.1) s.0);
    release_file =
        λ seq handle s. delivered_table (run machine (handle_release session seq handle s.1) s.0);
    sync_file = λ seq handle datasync s.
        delivered (run machine (handle_fsync seq handle datasync s.1) s.0) s.1;
  }
