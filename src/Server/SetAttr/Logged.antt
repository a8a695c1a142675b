-- ===== src/Server/SetAttr/Logged.antt =====
-- server/src/ops/meta.rs, `handle_setattr`: the calls that a request may ask for, and a log of
-- those that were made.
use quicfs.Base.{
  ℕ, ◌+◌, ◌≡◌, ◌≢◌, ◌⊎◌, refl, Bool, true, false, ◌&&◌, ◌||◌, Option, none, some, inl, inr,
  Option-cases, Bool-cases,
}
use quicfs.Common.Status.{Status}
use quicfs.Server.Sanitize.{FilePath}
use quicfs.Server.Write.{has_flag}
use quicfs.Server.Os.{
  openat2, open_path, mkdirat, fchmodat, unlinkat, symlinkat, linkat, renameat, fchmod, Syscall,
  ftruncate, chmod_proc, utimens_proc, Reply, Prog, done, call, ◌>>=◌, ok, err,
}
use quicfs.Server.Confined.{
  o_cloexec, permissions, open_confined, openat2_beneath, open_plain, strip_prefix, ok_or_errno,
  any_nul, resolve_beneath, as_opening, Opening, opened, refused, missing,
}
use quicfs.Server.Meta.{StatResponse, succeeded}
use quicfs.Server.SetAttr.{SetAttrRequest, time_or_omit}

-- A file is opened, not created nor emptied.
abbrev pub OpensOnly : ℕ → Type 0
OpensOnly flags = (has_flag flags 6 ≡ false) × (has_flag flags 9 ≡ false)

-- The calls that change something are those that the request asks for, with its values; the mode has
-- no bits but the permissions.
abbrev pub Asked : SetAttrRequest → Syscall → Type 0
Asked req (ftruncate d size) = (has_flag req.valid 3 ≡ true) × (size ≡ req.size)
Asked req (chmod_proc d mode) = (has_flag req.valid 0 ≡ true) × (mode ≡ permissions req.mode)
Asked req (utimens_proc d atime mtime) =
    ((has_flag req.valid 4 || has_flag req.valid 5) ≡ true)
    × (atime ≡ time_or_omit (has_flag req.valid 4) req.atime)
    × (mtime ≡ time_or_omit (has_flag req.valid 5) req.mtime)
Asked req (openat2 d rel flags mode) = OpensOnly flags
Asked req (open_path p flags mode) = OpensOnly flags
Asked req (mkdirat d n mode) = ⊥
Asked req (fchmodat d n mode) = ⊥
Asked req (unlinkat d n is_dir) = ⊥
Asked req (symlinkat target d n) = ⊥
Asked req (linkat d n e m) = ⊥
Asked req (renameat d n e m) = ⊥
Asked req (fchmod d mode) = ⊥
Asked req _ = Unit

-- The changes that were tried, and whether all of them succeeded.
pub record Log : Type 0 where
  pub sized : Bool
  pub moded : Bool
  pub timed : Bool
  pub clean : Bool

abbrev pub note : Syscall → Reply → Log → Log
note (ftruncate d n) r l = record l { sized = true; clean = l.clean && succeeded (ok_or_errno r) }
note (chmod_proc d n) r l = record l { moded = true; clean = l.clean && succeeded (ok_or_errno r) }
note (utimens_proc d a m) r l = record l {
  timed = true;
  clean = l.clean && succeeded (ok_or_errno r);
}
note _ r l = l

-- Every call is one that the request asks for, whatever the replies, and what the program ends with
-- satisfies `Q` with what was changed by then.
abbrev pub Changes {ℓ} : {A : Type ℓ} → SetAttrRequest → (Log → A → Type 0) → Log → Prog A → Type 0
Changes req Q l (done a) = Q l a
Changes req Q l (call c next) = Asked req c × ((r : Reply) → Changes req Q (note c r l) (next r))

module _ {ℓ κ} {A : Type ℓ} {B : Type κ} (req : SetAttrRequest) (Q : Log → A → Type 0)
    (R : Log → B → Type 0) where
  pub bind-Changes :
      (l : Log) (m : Prog A) (f : A → Prog B)
      → Changes req Q l m
      → ((k : Log) (a : A) → Q k a → Changes req R k (f a))
      → Changes req R l (m >>= f)
  unfolding ◌>>=◌
  bind-Changes l (done a) f s k = k l a s
  bind-Changes l (call c next) f s k = (s.0, λ r. bind-Changes (note c r l) (next r) f (s.1 r) k)

-- Nothing is changed.
abbrev pub Same {ℓ} : {A : Type ℓ} → Log → Log → A → Type 0
Same l k o = k ≡ l

module _ (req : SetAttrRequest) (l : Log) where
  after_root :
      (rel : FilePath) (flags mode : ℕ) (o : Opening)
      → OpensOnly (flags + o_cloexec)
      → Changes req (Same l) l (resolve_beneath rel flags mode o)
  unfolding resolve_beneath
  after_root rel flags mode (opened d) only = (only, λ r. (tt, λ r'. refl))
  after_root rel flags mode (refused k) only = refl
  after_root rel flags mode missing only = refl

  openat2_beneath-Changes :
      (root resolved : FilePath) (flags mode : ℕ)
      → OpensOnly (flags + o_cloexec)
      → Changes req (Same l) l (openat2_beneath root resolved flags mode)
  unfolding openat2_beneath
  openat2_beneath-Changes root resolved flags mode only =
      elim (Option-cases (strip_prefix root resolved)) [
        | inl e ↦ rw (e, openat2_beneath) refl
        | inr (rel, e) ↦ elim (Bool-cases (any_nul rel || any_nul root)) [
          | inl nul ↦ rw (e, nul, openat2_beneath) refl
          | inr clean ↦
              rw (e, clean, openat2_beneath)
                (tt, λ r. after_root rel flags mode (as_opening r) only)
        ]
      ]

  pub opening-Changes :
      (resolved : FilePath) (flags mode : ℕ) (o : Opening)
      → OpensOnly (flags + o_cloexec)
      → Changes req (Same l) l (elim o [
        | missing ↦ open_plain resolved flags mode
        | opened d ↦ done (ok d)
        | refused k ↦ done (err k)
      ])
  unfolding open_plain
  opening-Changes resolved flags mode (opened d) only = refl
  opening-Changes resolved flags mode (refused k) only = refl
  opening-Changes resolved flags mode missing only = elim (Bool-cases (any_nul resolved)) [
    | inl nul ↦ rw (nul, open_plain) refl
    | inr clean ↦ rw (clean, open_plain) (only, λ r. refl)
  ]

  pub open_confined-Changes :
      (root resolved : FilePath) (flags mode : ℕ)
      → OpensOnly (flags + o_cloexec)
      → Changes req (Same l) l (open_confined root resolved flags mode)
  unfolding open_confined
  open_confined-Changes root resolved flags mode only =
      bind-Changes req (Same l) (Same l) l (openat2_beneath root resolved flags mode) _
        (openat2_beneath-Changes root resolved flags mode only)
        (λ k o q. rw q (opening-Changes resolved flags mode o only))

-- The log at the end, if there was no error; an error is not reported as success.
abbrev pub Went : Log → Log → Option Status → Type 0
Went wanted l none = l ≡ wanted
Went wanted l (some s) = s ≢ Status.ok

abbrev pub log_of : Bool → Bool → Bool → Log
log_of size mode times = record { sized = size; moded = mode; timed = times; clean = true }

-- The response is no success, or the log is the one wanted.
abbrev pub Answered : Log → Log → StatResponse → Type 0
Answered wanted l resp = (resp.status ≢ Status.ok) ⊎ (l ≡ wanted)
