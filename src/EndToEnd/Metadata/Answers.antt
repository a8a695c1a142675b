-- ===== src/EndToEnd/Metadata/Answers.antt =====
-- client/src/conn.rs and server/src/ops/meta.rs: the errno that a response becomes, and the
-- status of a response.
use quicfs.Base.{true, ℕ, String, ◌≡◌, refl, sym, ap, ◌∙◌, Option, none, some, ◌&&◌}
use quicfs.Common.Status.{
  Status, ErrorKind, permission, invalid_arg, as_u8, from_u8, from_io, not_found_kind,
}
use quicfs.Client.Calls.{received, stat_of, unit_of}
use quicfs.Client.Errno.{
  Errno, eacces, eio, check_status, rpc_to_errno, told, told-meaning, told_failure,
}
use quicfs.Client.Fuse.{got, failed}
use quicfs.Server.Confined.{rename_confined}
use quicfs.Server.Meta.{
  stat_option, as_attributes, Session, StatResponse, StatusResponse, status_of, succeeded, sync_if,
  stat_after, sync_both, finish_stat, finish_status,
}
use quicfs.Server.Os.{Prog, done, Outcome, ok, err, Syscall, Attributes, ◌>>=◌}
use quicfs.Server.Os.Run.{Machine, run, run_bind, run_seen}
use quicfs.Server.Sanitize.{FilePath}
use quicfs.EndToEnd.Metadata.{errno_of, errno_after, errno_seen}

told-status_of : (o : Outcome (Unit {0})) → told (status_of o) ≡ errno_after o
told-status_of (ok u) = told-meaning Status.ok
told-status_of (err k) = told_failure k

-- The errno for the text of an error, if there is one.
abbrev errno_for : Option String → Option Errno
errno_for none = none
errno_for (some e) = some (rpc_to_errno e)

told_for :
    (o : Option String) → elim o [ none ↦ none | some e ↦ some (rpc_to_errno e) ] ≡ errno_for o
told_for none = refl
told_for (some e) = refl

unit_for :
    (o : Option String)
    → errno_of (elim o [ some e ↦ failed e | none ↦ got (tt {0}) ]) ≡ errno_for o
unit_for none = refl
unit_for (some e) = refl

unit_told : (resp : StatusResponse) → errno_of (unit_of (received resp)) ≡ told resp.status
unfolding told
unit_told resp =
    unit_for (check_status (as_u8 resp.status)) ∙ sym (told_for (check_status (as_u8 resp.status)))

unit_of_status :
    (resp : StatusResponse) (o : Outcome (Unit {0}))
    → resp.status ≡ status_of o
    → errno_of (unit_of (received resp)) ≡ errno_after o
unit_of_status resp o h = unit_told resp ∙ ap told h ∙ told-status_of o

pub refused_unit :
    (seq : ℕ)
    → errno_of (unit_of (received (record { seq = seq; status = permission }))) ≡ some eacces
unfolding as_u8 from_u8 check_status rpc_to_errno
refused_unit seq = refl

pub refused_stat :
    (seq : ℕ)
    → errno_of (stat_of (received (record { seq = seq; status = permission; stat = none })))
      ≡ some eacces
unfolding as_u8 from_u8 check_status rpc_to_errno
refused_stat seq = refl

pub long_stat :
    (seq : ℕ)
    → errno_of (stat_of (received (record { seq = seq; status = invalid_arg; stat = none })))
      ≡ some eio
unfolding as_u8 from_u8 check_status rpc_to_errno
long_stat seq = refl

failed_stat :
    (seq : ℕ) (k : ErrorKind)
    → errno_of (stat_of (received (record { seq = seq; status = from_io k; stat = none })))
      ≡ errno_after (err k)
unfolding as_u8 from_u8 from_io check_status rpc_to_errno
failed_stat seq not_found_kind = refl
failed_stat seq _ = refl

-- A success without a stat becomes an error.
found_stat :
    (seq : ℕ) (o : Outcome Attributes)
    → errno_of (stat_of (received (record { seq = seq; status = Status.ok; stat = stat_option o })))
      ≡ elim o [ ok m ↦ none | err k ↦ some eio ]
unfolding as_u8 from_u8 check_status rpc_to_errno
found_stat seq (ok m) = refl
found_stat seq (err k) = refl

module _ (machine : Machine) (session : Session) (root : FilePath) where
  abbrev replied : ℕ → Outcome (Unit {0}) → StatusResponse
  replied seq o = record { seq = seq; status = status_of o }

  run_status :
      (changed : FilePath) (seq : ℕ) (m : Prog (Outcome (Unit {0}))) (s : machine.State)
      → (run machine (finish_status session root changed seq m) s).1.status
        ≡ status_of (run machine m s).1
  unfolding finish_status run
  run_status changed seq m s =
      run_seen machine (λ (resp : StatusResponse). resp.status) status_of m
        (λ o.
          sync_if (succeeded o && session.sync_metadata) root changed >>= λ _. done (replied seq o))
        (λ o.
          run_seen machine (λ (resp : StatusResponse). resp.status) (λ _. status_of o)
            (sync_if (succeeded o && session.sync_metadata) root changed)
            (λ _. done (replied seq o)) (λ _ s'. refl))
        s

  run_rename :
      (old new : FilePath) (seq : ℕ) (s : machine.State)
      → (run machine
          (rename_confined root old new >>= λ o.
            sync_both (succeeded o && session.sync_metadata) root old new >>= λ _.
            done (replied seq o))
          s).1.status
        ≡ status_of (run machine (rename_confined root old new) s).1
  unfolding run
  run_rename old new seq s =
      run_seen machine (λ (resp : StatusResponse). resp.status) status_of
        (rename_confined root old new)
        (λ o. sync_both (succeeded o && session.sync_metadata) root old new >>= λ _.
          done (replied seq o))
        (λ o.
          run_seen machine (λ (resp : StatusResponse). resp.status) (λ _. status_of o)
            (sync_both (succeeded o && session.sync_metadata) root old new)
            (λ _. done (replied seq o)) (λ _ s'. refl))
        s

  -- What follows the operation, in the state that it left.
  stat_rest :
      (changed : FilePath) (seq : ℕ) (look : Syscall) (o : Outcome (Unit {0})) (s : machine.State)
      → errno_of (
          stat_of (
            received
              (run machine
                (sync_if (succeeded o && session.sync_metadata) root changed >>= λ _.
                  stat_after (succeeded o) look >>= λ found.
                  done (record { seq = seq; status = status_of o; stat = found }))
                s).1))
        ≡ errno_seen o
            (machine.reply look (run machine (sync_if session.sync_metadata root changed) s).0).1
  unfolding run sync_if stat_after ◌>>=◌
  stat_rest changed seq look (err k) s = failed_stat seq k
  stat_rest changed seq look (ok u) s =
      let synced : machine.State = (run machine (sync_if session.sync_metadata root changed) s).0 in
      ap (λ (r : machine.State × StatResponse). errno_of (stat_of (received r.1)))
        (run_bind machine (sync_if session.sync_metadata root changed)
          (λ _. stat_after true look >>= λ found.
            done (record { seq = seq; status = Status.ok; stat = found }))
          s)
      ∙ found_stat seq (as_attributes (machine.reply look synced).1)

  pub looked_stat :
      (changed : FilePath) (seq : ℕ) (look : Syscall) (m : Prog (Outcome (Unit {0})))
      (s : machine.State)
      → errno_of
          (stat_of (received (run machine (finish_stat session root changed seq look m) s).1))
        ≡ errno_seen
            (run machine m s).1
            (machine.reply look
              (run machine (sync_if session.sync_metadata root changed) (run machine m s).0).0).1
  unfolding finish_stat
  looked_stat changed seq look m s =
      ap (λ (r : machine.State × StatResponse). errno_of (stat_of (received r.1)))
        (run_bind machine m
          (λ o. sync_if (succeeded o && session.sync_metadata) root changed >>= λ _.
            stat_after (succeeded o) look >>= λ found.
            done (record { seq = seq; status = status_of o; stat = found }))
          s)
      ∙ stat_rest changed seq look (run machine m s).1 (run machine m s).0

  pub tried_unit :
      (changed : FilePath) (seq : ℕ) (m : Prog (Outcome (Unit {0}))) (s : machine.State)
      → errno_of (unit_of (received (run machine (finish_status session root changed seq m) s).1))
        ≡ errno_after (run machine m s).1
  tried_unit changed seq m s =
      unit_of_status (run machine (finish_status session root changed seq m) s).1
        (run machine m s).1 (run_status changed seq m s)

  pub tried_rename :
      (old new : FilePath) (seq : ℕ) (s : machine.State)
      → errno_of (
          unit_of (
            received
              (run machine
                (rename_confined root old new >>= λ o.
                  sync_both (succeeded o && session.sync_metadata) root old new >>= λ _.
                  done (replied seq o))
                s).1))
        ≡ errno_after (run machine (rename_confined root old new) s).1
  tried_rename old new seq s =
      unit_of_status
        (run machine
          (rename_confined root old new >>= λ o.
            sync_both (succeeded o && session.sync_metadata) root old new >>= λ _.
            done (replied seq o))
          s).1
        (run machine (rename_confined root old new) s).1 (run_rename old new seq s)
