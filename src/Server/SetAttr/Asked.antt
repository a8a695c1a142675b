-- ===== src/Server/SetAttr/Asked.antt =====
-- server/src/ops/meta.rs, `handle_setattr`: what it changes, and when it reports success.
use quicfs.Base.{
  ℕ, ◌+◌, ◌≡◌, refl, Bool, true, false, ◌||◌, Option, none, some, leb, ◌^◌, inl, inr, Bool-cases,
  arith,
}
use quicfs.Common.Status.{Status, from_io-ne-ok, ErrorKind, invalid_input}
use quicfs.Server.Sanitize.{FilePath, Fs, resolve}
use quicfs.Server.Write.{has_flag}
use quicfs.Server.Os.{
  Reply, value, text, attributes, usage, listing, failed, no_sys, Prog, done, Outcome, ok, err,
  and_then,
}
use quicfs.Server.Confined.{o_wronly, o_nofollow, o_path, open_confined, ok_or_errno}
use quicfs.Server.Meta.{succeeded}
use quicfs.Server.Meta.Steps.{Result-cases}
use quicfs.Server.SetAttr.{
  SetAttrRequest, set_len, truncate, change_mode, change_times, unless_failed, mode_and_times,
  change, answer, handle_setattr, err_status,
}
use quicfs.Server.SetAttr.Logged.{
  Log, Changes, bind-Changes, Same, open_confined-Changes, Went, log_of, Answered,
}

size_reply :
    (r : Reply)
    → Went
        (log_of true false false)
        (record { sized = true; moded = false; timed = false; clean = succeeded (ok_or_errno r) })
        (err_status (ok_or_errno r))
size_reply (value d) = refl
size_reply (text t) = refl
size_reply (attributes a) = refl
size_reply (usage s) = refl
size_reply (listing s) = refl
size_reply (failed k) = from_io-ne-ok k
size_reply no_sys = from_io-ne-ok ErrorKind.other

mode_reply :
    (size : Bool) (r : Reply)
    → Went
        (log_of size true false)
        (record { sized = size; moded = true; timed = false; clean = succeeded (ok_or_errno r) })
        (err_status (ok_or_errno r))
mode_reply size (value d) = refl
mode_reply size (text t) = refl
mode_reply size (attributes a) = refl
mode_reply size (usage s) = refl
mode_reply size (listing s) = refl
mode_reply size (failed k) = from_io-ne-ok k
mode_reply size no_sys = from_io-ne-ok ErrorKind.other

times_reply :
    (size mode : Bool) (r : Reply)
    → Went
        (log_of size mode true)
        (record { sized = size; moded = mode; timed = true; clean = succeeded (ok_or_errno r) })
        (err_status (ok_or_errno r))
times_reply size mode (value d) = refl
times_reply size mode (text t) = refl
times_reply size mode (attributes a) = refl
times_reply size mode (usage s) = refl
times_reply size mode (listing s) = refl
times_reply size mode (failed k) = from_io-ne-ok k
times_reply size mode no_sys = from_io-ne-ok ErrorKind.other

or-eq-false : (a b : Bool) → (a || b) ≡ false → (a ≡ false) × (b ≡ false)
or-eq-false a b e = ground arith

module _ (req : SetAttrRequest) where
  -- A step that goes on only if nothing failed.
  unless_failed-Changes :
      (mid wanted l : Log) (m next : Prog (Option Status))
      → Changes req (Went mid) l m
      → Changes req (Went wanted) mid next
      → Changes req (Went wanted) l (unless_failed m next)
  unfolding unless_failed
  unless_failed-Changes mid wanted l m next s t =
      bind-Changes req (Went mid) (Went wanted) l m _ s (λ k e q.
        elim e
            as (λ e.
              Went mid k e
              → Changes req (Went wanted) k (elim e [ some s ↦ done (some s) | none ↦ next ])) [
                | some s ↦ λ q. q
                | none ↦ λ q. rw q t
              ]
          q)

  set_len-Changes :
      (fd : ℕ)
      → has_flag req.valid 3 ≡ true
      → Changes req
          (λ l o. Went (log_of true false false) l (err_status o))
          (log_of false false false)
          (set_len req.size fd)
  unfolding set_len
  set_len-Changes fd asked = elim (Bool-cases (leb (2 ^ 63) req.size)) [
    | inl big ↦ rw big (from_io-ne-ok invalid_input)
    | inr small ↦ rw small ((asked, refl), size_reply)
  ]

  sized_from :
      (k : Log) (o : Outcome ℕ)
      → has_flag req.valid 3 ≡ true
      → Same (log_of false false false) k o
      → Changes req
          (λ l o. Went (log_of true false false) l (err_status o))
          k
          (elim o [ ok a ↦ set_len req.size a | err e ↦ done (err e) ])
  sized_from k (ok fd) asked q = rw q (set_len-Changes fd asked)
  sized_from k (err e) asked q = from_io-ne-ok e

  truncate-Changes :
      (root resolved : FilePath)
      → Changes req
          (Went (log_of (has_flag req.valid 3) false false))
          (log_of false false false)
          (truncate root resolved req)
  unfolding truncate and_then
  truncate-Changes root resolved = elim (Bool-cases (has_flag req.valid 3)) [
    | inr unasked ↦ rw (unasked, truncate) refl
    | inl asked ↦
        rw (asked, truncate)
          (bind-Changes req (λ l o. Went (log_of true false false) l (err_status o))
            (Went (log_of true false false)) (log_of false false false)
            (and_then (open_confined root resolved (o_wronly + o_nofollow) 0) (set_len req.size)) _
            (bind-Changes req (Same (log_of false false false))
              (λ l o. Went (log_of true false false) l (err_status o)) (log_of false false false)
              (open_confined root resolved (o_wronly + o_nofollow) 0) _
              (open_confined-Changes req (log_of false false false) root resolved
                (o_wronly + o_nofollow) 0 (refl, refl))
              (λ k o q. sized_from k o asked q))
            (λ k o q. q))
  ]

  change_mode-Changes :
      (size : Bool) (fd : ℕ)
      → Changes req
          (Went (log_of size (has_flag req.valid 0) false))
          (log_of size false false)
          (change_mode req fd)
  unfolding change_mode
  change_mode-Changes size fd = elim (Bool-cases (has_flag req.valid 0)) [
    | inr unasked ↦ rw unasked refl
    | inl asked ↦ rw asked ((asked, refl), mode_reply size)
  ]

  change_times-Changes :
      (size mode : Bool) (fd : ℕ)
      → Changes req
          (Went (log_of size mode (has_flag req.valid 4 || has_flag req.valid 5)))
          (log_of size mode false)
          (change_times req fd)
  unfolding change_times
  change_times-Changes size mode fd =
      elim (Bool-cases (has_flag req.valid 4 || has_flag req.valid 5)) [
        | inr unasked ↦ rw unasked refl
        | inl asked ↦ rw asked ((asked, refl, refl), times_reply size mode)
      ]

  mode_and_times-Changes :
      (size : Bool) (k : Log) (o : Outcome ℕ)
      → Same (log_of size false false) k o
      → Changes req
          (Went (log_of size (has_flag req.valid 0) (has_flag req.valid 4 || has_flag req.valid 5)))
          k
          (mode_and_times req o)
  unfolding mode_and_times
  mode_and_times-Changes size k (err e) q = from_io-ne-ok e
  mode_and_times-Changes size k (ok fd) q = rw q (
      unless_failed-Changes (log_of size (has_flag req.valid 0) false)
        (log_of size (has_flag req.valid 0) (has_flag req.valid 4 || has_flag req.valid 5))
        (log_of size false false) (change_mode req fd) (change_times req fd)
        (change_mode-Changes size fd) (change_times-Changes size (has_flag req.valid 0) fd))

  abbrev pub wanted : Log
  wanted =
      log_of (has_flag req.valid 3) (has_flag req.valid 0)
        (has_flag req.valid 4 || has_flag req.valid 5)

  change-Changes :
      (root resolved : FilePath)
      → Changes req (Went wanted) (log_of false false false) (change root resolved req)
  unfolding change
  change-Changes root resolved =
      unless_failed-Changes (log_of (has_flag req.valid 3) false false) wanted
        (log_of false false false) (truncate root resolved req) _ (truncate-Changes root resolved)
        (elim (Bool-cases
          (has_flag req.valid 0 || (has_flag req.valid 4 || has_flag req.valid 5))) [
            | inr e ↦
                let (no_mode, no_times) =
                  or-eq-false (has_flag req.valid 0) (has_flag req.valid 4 || has_flag req.valid 5)
                    e in
                rw (no_mode, no_times) refl
            | inl e ↦ rw e (
                bind-Changes req (Same (log_of (has_flag req.valid 3) false false)) (Went wanted)
                  (log_of (has_flag req.valid 3) false false) (open_confined root resolved o_path 0)
                  _
                  (open_confined-Changes req (log_of (has_flag req.valid 3) false false) root
                    resolved o_path 0 (refl, refl))
                  (mode_and_times-Changes (has_flag req.valid 3)))
          ])

  answer-Changes :
      (resolved : FilePath) (k : Log) (e : Option Status)
      → Went wanted k e
      → Changes req (Answered wanted) k (answer resolved req.seq e)
  unfolding answer
  answer-Changes resolved k none q = (tt, λ r. inr q)
  answer-Changes resolved k (some s) q = inl q

  -- Whatever the kernel replies, a request to set attributes creates and empties no file, and changes
  -- nothing but the size, the mode and the times, each only if its bit of `valid` is set (3 for the
  -- size, 0 for the mode, 4 and 5 for the times), to the values that the request gives, the mode cut
  -- to the permission bits. Unless the response is an error, the changes that were made are exactly
  -- those that these four bits name, and none of them failed. The bits of the owner and the group (1
  -- and 2) name none of these changes, so that a success says nothing of them.
  pub setattr-Changes :
      (fs : Fs) (root : FilePath)
      → Changes req (Answered wanted) (log_of false false false) (handle_setattr fs root req)
  unfolding handle_setattr
  setattr-Changes fs root = elim (Result-cases (resolve fs root req.path)) [
    | inl (e, z) ↦ rw (z, handle_setattr) (inl (λ h. absurd (cc)))
    | inr (p, z) ↦
        rw (z, handle_setattr)
          (bind-Changes req (Went wanted) (Answered wanted) (log_of false false false)
            (change root p req) _ (change-Changes root p) (answer-Changes p))
  ]
