-- ===== src/Server/SetAttr/Jail.antt =====
-- server/src/ops/meta.rs, `handle_setattr` and `handle_statfs`: they act beneath the export root.
use quicfs.Base.{
  ℕ, ◌+◌, ◌≡◌, true, ◌||◌, Option, none, some, List, [], leb, ◌^◌, All, inl, inr, Bool-cases,
}
use quicfs.Common.Status.{Status}
use quicfs.Server.Sanitize.{Name, FilePath, Fs, resolve}
use quicfs.Server.Write.{has_flag}
use quicfs.Server.Os.{Prog, done, Outcome, ok, err, and_then}
use quicfs.Server.Os.Beneath.{
  Grant, has_inner, IsEntry, Under, learn, Safe, bind-Safe, and_then-Safe, IfOk,
}
use quicfs.Server.Confined.{any_nul, o_wronly, o_nofollow, o_path, open_confined}
use quicfs.Server.Confined.Jail.{Held, Always, unit_reply, open_confined-Safe}
use quicfs.Server.Meta.Steps.{Result-cases, resolved-IsEntry}
use quicfs.Server.SetAttr.{
  SetAttrRequest, set_len, truncate, change_mode, change_times, unless_failed, mode_and_times,
  change, answer, handle_setattr, query_statfs, handle_statfs,
}

module _ (root : FilePath) where
  -- A step after which the descriptor is still held.
  unless_failed-Safe :
      (Q : List Grant → Option Status → Type 0) (g : List Grant) (m next : Prog (Option Status))
      → Safe root Q g m
      → ((h : List Grant) → Q h none → Safe root Always h next)
      → Safe root Always g (unless_failed m next)
  unfolding unless_failed
  unless_failed-Safe Q g m next s t = bind-Safe root Q Always g m _ s (λ h e q.
      elim e
          as (λ e. Q h e → Safe root Always h (elim e [ some s ↦ done (some s) | none ↦ next ])) [
            | some s ↦ λ q. tt
            | none ↦ λ q. t h q
          ]
        q)

module _ (root : FilePath) (req : SetAttrRequest) where
  set_len-Safe :
      (g : List Grant) (fd : ℕ)
      → has_inner fd g ≡ true
      → Safe root (IfOk Always) g (set_len req.size fd)
  unfolding set_len learn
  set_len-Safe g fd held = elim (Bool-cases (leb (2 ^ 63) req.size)) [
    | inl big ↦ rw big tt
    | inr small ↦ rw small (held, λ r. unit_reply root Always g r tt)
  ]

  truncate-Safe :
      (g : List Grant) (resolved : FilePath) → Safe root Always g (truncate root resolved req)
  unfolding truncate
  truncate-Safe g resolved = elim (Bool-cases (has_flag req.valid 3)) [
    | inr unasked ↦ rw (unasked, truncate) tt
    | inl asked ↦
        rw (asked, truncate)
          (bind-Safe root (IfOk Always) Always g
            (and_then (open_confined root resolved (o_wronly + o_nofollow) 0) (set_len req.size)) _
            (and_then-Safe root (Held g) Always g
              (open_confined root resolved (o_wronly + o_nofollow) 0) (set_len req.size)
              (open_confined-Safe root g resolved (o_wronly + o_nofollow) 0)
              (λ h fd q. set_len-Safe h fd q.0))
            (λ h o q. tt))
  ]

  change_mode-Safe :
      (g : List Grant) (fd : ℕ)
      → has_inner fd g ≡ true
      → Safe root (λ h e. has_inner fd h ≡ true) g (change_mode req fd)
  unfolding change_mode learn
  change_mode-Safe g fd held = elim (Bool-cases (has_flag req.valid 0)) [
    | inr unasked ↦ rw unasked held
    | inl asked ↦ rw asked (held, λ r. held)
  ]

  change_times-Safe :
      (g : List Grant) (fd : ℕ) → has_inner fd g ≡ true → Safe root Always g (change_times req fd)
  unfolding change_times
  change_times-Safe g fd held = elim (Bool-cases (has_flag req.valid 4 || has_flag req.valid 5)) [
    | inr unasked ↦ rw unasked tt
    | inl asked ↦ rw asked (held, λ r. tt)
  ]

  mode_and_times-Safe :
      (g h : List Grant) (o : Outcome ℕ)
      → IfOk (Held g) h o
      → Safe root Always h (mode_and_times req o)
  unfolding mode_and_times
  mode_and_times-Safe g h (err k) q = tt
  mode_and_times-Safe g h (ok fd) q =
      unless_failed-Safe root (λ i e. has_inner fd i ≡ true) h (change_mode req fd)
        (change_times req fd) (change_mode-Safe h fd q.0) (λ i held. change_times-Safe i fd held)

  change-Safe : (resolved : FilePath) → Safe root Always [] (change root resolved req)
  unfolding change
  change-Safe resolved =
      unless_failed-Safe root Always [] (truncate root resolved req) _ (truncate-Safe [] resolved)
        (λ h q.
          elim (Bool-cases
            (has_flag req.valid 0 || (has_flag req.valid 4 || has_flag req.valid 5))) [
              | inr e ↦ rw e tt
              | inl e ↦ rw e (
                  bind-Safe root (IfOk (Held h)) Always h (open_confined root resolved o_path 0) _
                    (open_confined-Safe root h resolved o_path 0) (mode_and_times-Safe h))
            ])

  answer-Safe :
      (resolved : FilePath) (seq : ℕ) (h : List Grant) (e : Option Status)
      → Under root resolved
      → Safe root Always h (answer resolved seq e)
  unfolding answer
  answer-Safe resolved seq h none under = (under, λ r. tt)
  answer-Safe resolved seq h (some s) under = tt

module _ (fs : Fs) (root : FilePath) (entries : All IsEntry root) where
  pub handle_setattr-Safe :
      (req : SetAttrRequest) → Safe root Always [] (handle_setattr fs root req)
  unfolding handle_setattr
  handle_setattr-Safe req = elim (Result-cases (resolve fs root req.path)) [
    | inl (e, z) ↦ rw (z, handle_setattr) tt
    | inr (p, z) ↦
        rw (z, handle_setattr)
          (bind-Safe root Always Always [] (change root p req) _ (change-Safe root req p) (λ h e q.
            answer-Safe root req p req.seq h e (resolved-IsEntry fs root req.path p entries z).1))
  ]

  pub handle_statfs-Safe :
      (seq : ℕ) (path : Name) → Safe root Always [] (handle_statfs fs root seq path)
  unfolding handle_statfs query_statfs
  handle_statfs-Safe seq path = elim (Result-cases (resolve fs root path)) [
    | inl (e, z) ↦ rw (z, handle_statfs) tt
    | inr (p, z) ↦ elim (Bool-cases (any_nul p)) [
      | inl n ↦ rw (z, handle_statfs, n, query_statfs) tt
      | inr n ↦
          rw (z, handle_statfs, n, query_statfs)
            ((resolved-IsEntry fs root path p entries z).1, λ r. tt)
    ]
  ]
