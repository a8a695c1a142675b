-- ===== src/EndToEnd/Metadata/Told.antt =====
-- client/src/conn.rs and server/src/ops/meta.rs: what a program is told of a change of names.
use quicfs.Base.{ℕ, ◌≡◌, inl, inr, true, false, ltb, length, Bool-cases}
use quicfs.Client.Calls.{Link, rpc, mkdir, rmdir, unlink, rename, symlink, link}
use quicfs.Server.Confined.{mkdir_confined, remove_confined, symlink_confined, link_confined}
use quicfs.Server.Meta.{
  Session, max_symlink_target_len, handle_mkdir, handle_rmdir, handle_unlink, handle_rename,
  handle_symlink, handle_link,
}
use quicfs.Server.Os.{Syscall}
use quicfs.Server.Os.Run.{Machine}
use quicfs.Server.Sanitize.{Name, FilePath, Fs, resolve}
use quicfs.Server.Meta.Steps.{Result-cases}
use quicfs.EndToEnd.Metadata.{
  Change, made_dir, removed_dir, removed_file, moved, made_symlink, made_link, attempted, performed,
  expected, server,
}
use quicfs.EndToEnd.Metadata.Answers.{
  refused_stat, refused_unit, long_stat, looked_stat, tried_unit, tried_rename,
}

module _ (machine : Machine) (fs : Fs) (session : Session) (root : FilePath)
    (hash : FilePath → ℕ) where
  abbrev ServerLink : Type 0
  ServerLink = Link (server machine fs session root hash)

  told_mkdir :
      (p : Name) (mode : ℕ) (l : ServerLink)
      → (performed (made_dir p mode) l).1
        ≡ expected machine session root (attempted fs root (made_dir p mode)) l.server.0
  unfolding performed attempted expected mkdir rpc handle_mkdir
  told_mkdir p mode l = elim (Result-cases (resolve fs root p)) [
    | inl (e, z) ↦ rw (z, performed, attempted, expected, handle_mkdir) (refused_stat l.next)
    | inr (path, z) ↦
        rw (z, performed, attempted, expected, handle_mkdir)
          (looked_stat machine session root path l.next (Syscall.stat path)
            (mkdir_confined root path mode) l.server.0)
  ]

  told_rmdir :
      (p : Name) (l : ServerLink)
      → (performed (removed_dir p) l).1
        ≡ expected machine session root (attempted fs root (removed_dir p)) l.server.0
  unfolding performed attempted expected rmdir rpc handle_rmdir
  told_rmdir p l = elim (Result-cases (resolve fs root p)) [
    | inl (e, z) ↦ rw (z, performed, attempted, expected, handle_rmdir) (refused_unit l.next)
    | inr (path, z) ↦
        rw (z, performed, attempted, expected, handle_rmdir)
          (tried_unit machine session root path l.next (remove_confined root path true) l.server.0)
  ]

  told_unlink :
      (p : Name) (l : ServerLink)
      → (performed (removed_file p) l).1
        ≡ expected machine session root (attempted fs root (removed_file p)) l.server.0
  unfolding performed attempted expected unlink rpc handle_unlink
  told_unlink p l = elim (Result-cases (resolve fs root p)) [
    | inl (e, z) ↦ rw (z, performed, attempted, expected, handle_unlink) (refused_unit l.next)
    | inr (path, z) ↦
        rw (z, performed, attempted, expected, handle_unlink)
          (tried_unit machine session root path l.next (remove_confined root path false) l.server.0)
  ]

  told_rename :
      (p q : Name) (flags : ℕ) (l : ServerLink)
      → (performed (moved p q flags) l).1
        ≡ expected machine session root (attempted fs root (moved p q flags)) l.server.0
  unfolding performed attempted expected rename rpc handle_rename
  told_rename p q flags l = elim (Result-cases (resolve fs root p)) [
    | inl (e, z) ↦ rw (z, performed, attempted, expected, handle_rename) (refused_unit l.next)
    | inr (old, z) ↦ elim (Result-cases (resolve fs root q)) [
      | inl (e, y) ↦ rw (z, y, performed, attempted, expected, handle_rename) (refused_unit l.next)
      | inr (new, y) ↦
          rw (z, y, performed, attempted, expected, handle_rename)
            (tried_rename machine session root old new l.next l.server.0)
    ]
  ]

  told_link :
      (p q : Name) (l : ServerLink)
      → (performed (made_link p q) l).1
        ≡ expected machine session root (attempted fs root (made_link p q)) l.server.0
  unfolding performed attempted expected link rpc handle_link
  told_link p q l = elim (Result-cases (resolve fs root p)) [
    | inl (e, z) ↦ rw (z, performed, attempted, expected, handle_link) (refused_stat l.next)
    | inr (old, z) ↦ elim (Result-cases (resolve fs root q)) [
      | inl (e, y) ↦ rw (z, y, performed, attempted, expected, handle_link) (refused_stat l.next)
      | inr (new, y) ↦
          rw (z, y, performed, attempted, expected, handle_link)
            (looked_stat machine session root new l.next (Syscall.stat new)
              (link_confined root old new) l.server.0)
    ]
  ]

  told_symlink :
      (target p : Name) (l : ServerLink)
      → (performed (made_symlink target p) l).1
        ≡ expected machine session root (attempted fs root (made_symlink target p)) l.server.0
  unfolding performed attempted expected symlink rpc handle_symlink
  told_symlink target p l = elim (Bool-cases (ltb max_symlink_target_len (length target))) [
    | inl long ↦ rw (long, performed, attempted, expected, handle_symlink) (long_stat l.next)
    | inr short ↦ elim (Result-cases (resolve fs root p)) [
      | inl (e, z) ↦
          rw (short, z, performed, attempted, expected, handle_symlink) (refused_stat l.next)
      | inr (path, z) ↦
          rw (short, z, performed, attempted, expected, handle_symlink)
            (looked_stat machine session root path l.next (Syscall.lstat path)
              (symlink_confined root path target) l.server.0)
    ]
  ]

  -- What a program is told of a change of names that goes through the client, the connection and the
  -- server, in any state of the server's system: EACCES for a path that is not resolved, EIO for a
  -- symlink with a target that is too long, and otherwise the errno for what the confined operation
  -- failed with. If that operation succeeds, a removal or a rename is told as a success, and a mkdir, a
  -- symlink or a link by the reply to the stat that follows it, after the fsync of the directory if
  -- that is configured: as a success if that gives the attributes, as EIO if not.
  pub change_told :
      (c : Change) (l : ServerLink)
      → (performed c l).1 ≡ expected machine session root (attempted fs root c) l.server.0
  change_told (made_dir p mode) l = told_mkdir p mode l
  change_told (removed_dir p) l = told_rmdir p l
  change_told (removed_file p) l = told_unlink p l
  change_told (moved p q flags) l = told_rename p q flags l
  change_told (made_symlink target p) l = told_symlink target p l
  change_told (made_link p q) l = told_link p q l
