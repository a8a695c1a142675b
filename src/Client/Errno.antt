-- ===== src/Client/Errno.antt =====
-- client/src/conn.rs, `check_status`, and client/src/fuse_ops.rs, `flush_reply`, `io_to_errno` and
-- `rpc_to_errno`: from a status on the wire to the errno that the kernel is told. The text of an
-- error is a native `String`.
use text.Mathlib.Text.{find?}
use quicfs.Base.{ℕ, String, ◌≡◌, refl, Bool, true, false, Option, none, some, if◌then◌else◌, arith}
use quicfs.Common.Status.{
  Status, ok, not_found, permission, io, exists, not_empty, not_dir, is_dir, invalid_arg, no_space,
  too_large, stale, unknown, as_u8, from_u8, from_io, ErrorKind, not_found_kind, permission_denied,
  already_exists, invalid_input, invalid_data, directory_not_empty,
}

pub data Errno : Type 0 where
  enoent eacces eexist enotempty enotdir eisdir enospc estale einval eio : Errno

-- `msg.contains(part)`
abbrev pub contains : String → String → Bool
contains s t = elim (find? s t) [ none ↦ false | some _ ↦ true ]

-- `check_status`: `format!("server error: {:?}", s)` for any status but `Ok`.
unfoldable pub message_of : Status → String
message_of ok = ""
message_of not_found = "server error: NotFound"
message_of permission = "server error: Permission"
message_of io = "server error: Io"
message_of exists = "server error: Exists"
message_of not_empty = "server error: NotEmpty"
message_of not_dir = "server error: NotDir"
message_of is_dir = "server error: IsDir"
message_of invalid_arg = "server error: InvalidArg"
message_of no_space = "server error: NoSpace"
message_of too_large = "server error: TooLarge"
message_of stale = "server error: Stale"
message_of unknown = "server error: Unknown"

-- `none` is `Ok(())`, and `some` the text of the error.
unfoldable pub check_status : ℕ → Option String
unfolding message_of
check_status v = elim (from_u8 v) [ Status.ok ↦ none | s ↦ some (message_of s) ]

unfoldable pub rpc_to_errno : String → Errno
rpc_to_errno msg =
    if contains msg "NotFound"
    then enoent
    else if contains msg "Permission"
    then eacces
    else if contains msg "Exists"
    then eexist
    else if contains msg "NotEmpty"
    then enotempty
    else if contains msg "NotDir"
    then enotdir
    else if contains msg "IsDir"
    then eisdir
    else if contains msg "NoSpace"
    then enospc
    else if contains msg "Stale"
    then estale
    else eio

unfoldable pub io_to_errno : ErrorKind → Errno
io_to_errno not_found_kind = enoent
io_to_errno permission_denied = eacces
io_to_errno already_exists = eexist
io_to_errno directory_not_empty = enotempty
io_to_errno invalid_input = einval
io_to_errno invalid_data = einval
io_to_errno _ = eio

-- `flush_reply`: `none` is success.
unfoldable pub flush_reply : Option Errno → Bool → Option Errno
flush_reply (some errno) had_sticky = some errno
flush_reply none true = some eio
flush_reply none false = none

-- What the kernel is told when the server answers with the status.
unfoldable pub told : Status → Option Errno
unfolding check_status rpc_to_errno
told s = elim (check_status (as_u8 s)) [ none ↦ none | some msg ↦ some (rpc_to_errno msg) ]

-- The errno that a status stands for.
abbrev pub meaning : Status → Option Errno
meaning ok = none
meaning not_found = some enoent
meaning permission = some eacces
meaning exists = some eexist
meaning not_empty = some enotempty
meaning not_dir = some enotdir
meaning is_dir = some eisdir
meaning no_space = some enospc
meaning stale = some estale
meaning _ = some eio

-- Every status, coded and decoded, printed into an error and found again in its text, becomes the
-- errno that it stands for; only `Ok` becomes a success.
pub told-meaning : (s : Status) → told s ≡ meaning s
unfolding told as_u8 from_u8
told-meaning ok = refl
told-meaning _ = refl

-- What the server's file operation failed with, as the client's application sees it: absence,
-- permission and existence keep their errno, and every other kind is EIO. So no failure is told as
-- ENOTEMPTY, ENOTDIR or EISDIR, not even that of a directory that is not empty.
pub told_failure :
    (k : ErrorKind)
    → told (from_io k) ≡ elim k [
      | not_found_kind ↦ some enoent
      | permission_denied ↦ some eacces
      | already_exists ↦ some eexist
      | _ ↦ some eio
    ]
unfolding told as_u8 from_u8 from_io
told_failure not_found_kind = refl
told_failure _ = refl

-- A flush is answered with success only if it had no error of its own and none was kept from before.
pub flush_reply-ok :
    (e : Option Errno) (sticky : Bool) → flush_reply e sticky ≡ none → (e ≡ none) × (sticky ≡ false)
unfolding flush_reply
flush_reply-ok e sticky h = ground arith
