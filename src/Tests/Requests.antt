-- ===== src/Tests/Requests.antt =====
-- The handlers of the server on an export root of one component.
use quicfs.Base.{true, false, [], ◌∷◌, All, arith, ◌≡◌, refl, pos, negsuc}
use quicfs.Server.SetAttr.{SetAttrRequest, handle_setattr, ns_to_timespec}
use quicfs.Server.SetAttr.Asked.{setattr-Changes}
use quicfs.Server.SetAttr.Logged.{Changes, Answered, log_of}
use quicfs.Server.Handles.{with_limit}
use quicfs.Server.Os.Beneath.{IsEntry, Safe}
use quicfs.Server.Meta.{Session}
use quicfs.Server.Meta.Requests.{HandlerSafe, rename, requests-Safe}
use quicfs.Server.Files.Descriptors.{TableHeld}
use quicfs.Server.Files.Sessions.{open_file, create_file, release_file, serve, session-Safe}
use quicfs.Tests.Paths.{linkless, export}

abbrev pub durable : Session
durable = record { sync_metadata = true; sync_on_close = true }

export-IsEntry : All IsEntry export
export-IsEntry = (((λ e. omega arith, tt), λ e. ground arith), tt)

requests-Safe_example :
    HandlerSafe linkless durable export 4 (rename (b'/' ∷ b'a' ∷ []) (b'/' ∷ b'b' ∷ []))
requests-Safe_example =
    requests-Safe linkless durable export 4 (rename (b'/' ∷ b'a' ∷ []) (b'/' ∷ b'b' ∷ []))
      export-IsEntry

session-Safe_example : Safe export TableHeld [] (
    serve linkless durable export
      (λ p. 0)
      (create_file (b'/' ∷ b'a' ∷ []) 0 420 ∷ open_file (b'/' ∷ b'a' ∷ []) 2 ∷ release_file 1 ∷ [])
      (with_limit 7 2))
session-Safe_example =
    session-Safe linkless durable export (λ p. 0) 7 2
      (create_file (b'/' ∷ b'a' ∷ []) 0 420 ∷ open_file (b'/' ∷ b'a' ∷ []) 2 ∷ release_file 1 ∷ [])

abbrev resize : SetAttrRequest
resize = record {
  seq = 4;
  path = b'/' ∷ b'a' ∷ [];
  valid = 0x9;
  mode = 0x9A4;
  uid = 0;
  gid = 0;
  size = 100;
  atime = pos 0;
  mtime = pos 0;
}

setattr-Changes_example :
    Changes resize
      (Answered (log_of true true false))
      (log_of false false false)
      (handle_setattr linkless export resize)
setattr-Changes_example = setattr-Changes resize linkless export

-- Half a second before 1970: a number of nanoseconds below zero, which the kernel refuses.
before_1970 :
    ns_to_timespec (negsuc 499999999) ≡ record { tv_sec = pos 0; tv_nsec = negsuc 499999999 }
unfolding ns_to_timespec
before_1970 = refl
