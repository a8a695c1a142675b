-- ===== src/Server/Confined.antt =====
-- server/src/sanitize.rs, the confined operations, as they are compiled for Linux. Flags are numbers,
-- and the bits that the code joins by `|` are different ones, so that they add up.
pub mod Jail
use quicfs.Base.{
  ℕ, ◌+◌, ◌*◌, ◌%◌, Bool, true, false, ◌&&◌, ◌||◌, Option, none, some, List, [], ◌∷◌, ◌==◌,
  if◌then◌else◌,
}
use quicfs.Common.Status.{ErrorKind, invalid_input, permission_denied, invalid_data}
use quicfs.Server.Sanitize.{Name, FilePath, name_eq, has_byte, max_path_len}
use quicfs.Server.Write.{has_flag}
use quicfs.Server.Os.{
  Syscall, open_root, openat2, close, open_path, mkdirat, fchmodat, unlinkat, symlinkat, linkat,
  renameat, readlinkat, fsync, Reply, value, text, attributes, failed, no_sys, Prog, done, call,
  ◌>>=◌, Outcome, ok, err, and_then,
}

abbrev pub o_wronly : ℕ
o_wronly = 0x1

abbrev pub o_rdwr : ℕ
o_rdwr = 0x2

abbrev pub o_creat : ℕ
o_creat = 0x40

abbrev pub o_excl : ℕ
o_excl = 0x80

abbrev pub o_trunc : ℕ
o_trunc = 0x200

abbrev pub o_append : ℕ
o_append = 0x400

abbrev pub o_directory : ℕ
o_directory = 0x10000

abbrev pub o_nofollow : ℕ
o_nofollow = 0x20000

abbrev pub o_path : ℕ
o_path = 0x200000

abbrev pub o_cloexec : ℕ
o_cloexec = 0x80000

-- A reply to a call that gives a descriptor, and one to a call that gives nothing but its success.
abbrev pub as_fd : Reply → Outcome ℕ
as_fd (value d) = ok d
as_fd (failed k) = err k
as_fd no_sys = err ErrorKind.other
as_fd _ = err ErrorKind.other

-- `ok_or_errno`
abbrev pub ok_or_errno : Reply → Outcome (Unit {0})
ok_or_errno (value d) = ok tt
ok_or_errno (failed k) = err k
ok_or_errno no_sys = err ErrorKind.other
ok_or_errno _ = ok tt

unfoldable pub strip_prefix : FilePath → FilePath → Option FilePath
strip_prefix [] path = some path
strip_prefix (r ∷ root) [] = none
strip_prefix (r ∷ root) (c ∷ path) =
    let rest : Option FilePath = strip_prefix root path in if name_eq r c then rest else none

-- The `Result` of `openat2_beneath`, whose error may be ENOSYS.
pub data Opening : Type 0 where
  opened : ℕ → Opening
  refused : ErrorKind → Opening
  missing : Opening

abbrev pub as_opening : Reply → Opening
as_opening (value d) = opened d
as_opening (failed k) = refused k
as_opening no_sys = missing
as_opening _ = refused ErrorKind.other

-- `CString::new(path.as_os_str().as_bytes())` fails: a component has a NUL byte.
unfoldable pub any_nul : FilePath → Bool
unfolding has_byte
any_nul [] = false
any_nul (c ∷ path) = has_byte 0 c || any_nul path

-- With the descriptor of the root, or the error of its open. The descriptor is closed whatever
-- `openat2` replies; `how.mode` is 0 unless the file may be created.
unfoldable pub resolve_beneath : FilePath → ℕ → ℕ → Opening → Prog Opening
resolve_beneath rel flags mode (opened dirfd) =
    call (openat2 dirfd rel (flags + o_cloexec) (if has_flag flags 6 then mode else 0))
      (λ reply. call (close dirfd) (λ _. done (as_opening reply)))
resolve_beneath rel flags mode (refused k) = done (refused k)
resolve_beneath rel flags mode missing = done missing

-- An empty relative path is `.`, which has no components either. An ENOSYS is one of `openat2`, or of
-- the open of the root.
unfoldable pub openat2_beneath : FilePath → FilePath → ℕ → ℕ → Prog Opening
unfolding strip_prefix any_nul resolve_beneath
openat2_beneath root resolved flags mode = elim (strip_prefix root resolved) [
  | none ↦ done (refused permission_denied)
  | some rel ↦
      if any_nul rel || any_nul root
      then done (refused invalid_input)
      else call (open_root root) (λ r. resolve_beneath rel flags mode (as_opening r))
]

unfoldable pub open_plain : FilePath → ℕ → ℕ → Prog (Outcome ℕ)
unfolding any_nul
open_plain resolved flags mode =
    if any_nul resolved
    then done (err invalid_input)
    else call (open_path resolved (flags + o_cloexec) mode) (λ r. done (as_fd r))

unfoldable pub open_confined : FilePath → FilePath → ℕ → ℕ → Prog (Outcome ℕ)
unfolding ◌>>=◌ openat2_beneath open_plain
open_confined root resolved flags mode = openat2_beneath root resolved flags mode >>= λ o. elim o [
  | missing ↦ open_plain resolved flags mode
  | opened d ↦ done (ok d)
  | refused k ↦ done (err k)
]

unfoldable pub fsync_dir_confined : FilePath → FilePath → Prog (Outcome (Unit {0}))
unfolding and_then open_confined
fsync_dir_confined root dir =
    and_then (open_confined root dir (o_directory + o_nofollow) 0)
      (λ d. call (fsync d) (λ r. done (ok_or_errno r)))

-- `parent()` and `file_name()`
unfoldable pub split_last : FilePath → Option (FilePath × Name)
split_last [] = none
split_last (c ∷ path) = elim (split_last path) [
  | none ↦ some ([], c)
  | some (dir, name) ↦ some (c ∷ dir, name)
]

unfoldable pub confined_parent : FilePath → FilePath → Prog (Outcome (ℕ × Name))
unfolding split_last and_then open_confined has_byte
confined_parent root resolved = elim (split_last resolved) [
  | none ↦ done (err invalid_input)
  | some (dir, name) ↦
      if has_byte 0 name
      then done (err invalid_input)
      else and_then (open_confined root dir (o_path + o_directory) 0) (λ d. done (ok (d, name)))
]

-- `mode & 0o777`
abbrev pub permissions : ℕ → ℕ
permissions mode = mode % 512

unfoldable pub mkdir_confined : FilePath → FilePath → ℕ → Prog (Outcome (Unit {0}))
unfolding and_then confined_parent
mkdir_confined root resolved mode = and_then (confined_parent root resolved) (λ p.
    and_then (call (mkdirat p.0 p.1 (permissions mode)) (λ r. done (ok_or_errno r)))
      (λ _. call (fchmodat p.0 p.1 (permissions mode)) (λ r. done (ok_or_errno r))))

unfoldable pub remove_confined : FilePath → FilePath → Bool → Prog (Outcome (Unit {0}))
unfolding and_then confined_parent
remove_confined root resolved is_dir =
    and_then (confined_parent root resolved)
      (λ p. call (unlinkat p.0 p.1 is_dir) (λ r. done (ok_or_errno r)))

unfoldable pub symlink_confined : FilePath → FilePath → Name → Prog (Outcome (Unit {0}))
unfolding and_then confined_parent has_byte
symlink_confined root link target = and_then (confined_parent root link) (λ p.
    if has_byte 0 target
    then done (err invalid_input)
    else call (symlinkat target p.0 p.1) (λ r. done (ok_or_errno r)))

unfoldable pub link_confined : FilePath → FilePath → FilePath → Prog (Outcome (Unit {0}))
unfolding and_then confined_parent
link_confined root src dst = and_then (confined_parent root src) (λ s.
    and_then (confined_parent root dst)
      (λ d. call (linkat s.0 s.1 d.0 d.1) (λ r. done (ok_or_errno r))))

unfoldable pub rename_confined : FilePath → FilePath → FilePath → Prog (Outcome (Unit {0}))
unfolding and_then confined_parent
rename_confined root old new = and_then (confined_parent root old) (λ o.
    and_then (confined_parent root new)
      (λ n. call (renameat o.0 o.1 n.0 n.1) (λ r. done (ok_or_errno r))))

abbrev pub as_text : Reply → Outcome Name
as_text (text t) = ok t
as_text (failed k) = err k
as_text _ = err ErrorKind.other

unfoldable pub readlink_confined : FilePath → FilePath → Prog (Outcome Name)
unfolding and_then confined_parent
readlink_confined root resolved =
    and_then (confined_parent root resolved)
      (λ p. call (readlinkat p.0 p.1 max_path_len) (λ r. done (as_text r)))
