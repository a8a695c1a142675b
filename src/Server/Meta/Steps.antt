-- ===== src/Server/Meta/Steps.antt =====
-- server/src/ops/meta.rs: what the handlers have in common acts beneath the export root.
use quicfs.Base.{
  ℕ, ◌+◌, ◌≡◌, refl, Bool, true, false, ◌&&◌, List, [], ◌∷◌, ◌++◌, All, inl, inr, Option-cases,
  Bool-cases, not, ◌⊎◌,
}
use quicfs.Server.Sanitize.{Name, FilePath, Fs, path_eq, Result, resolve, slash, PathError}
use quicfs.Server.Sanitize.Split.{Lacks, IsComponent}
use quicfs.Server.Sanitize.Sound.{Confined, resolve-Confined}
use quicfs.Server.Os.{Syscall, Prog, Outcome}
use quicfs.Server.Os.Beneath.{
  Grant, IsEntry, Under, Allowed, learn, Safe, bind-Safe, IfOk, and_then-Safe,
}
use quicfs.Server.Confined.{fsync_dir_confined, open_confined, o_directory, o_nofollow, split_last}
use quicfs.Server.Confined.Jail.{Held, Always, unit_reply, open_confined-Safe}
use quicfs.Server.Meta.{
  Session, sync_parent_dir, sync_if, sync_both, stat_after, finish_stat, finish_status, succeeded,
  parent_of, same_parent,
}

clean-IsEntry :
    (names : List Name)
    → All (λ n. (Lacks slash n × Lacks 0 n) × IsComponent n) names
    → All IsEntry names
clean-IsEntry [] h = tt
clean-IsEntry (n ∷ names) h = ((h.0.0.0, h.0.1.2), clean-IsEntry names h.1)

All-append {ℓ κ} :
    {A : Type ℓ} (P : A → Type κ) (xs ys : List A) → All P xs → All P ys → All P (xs ++ ys)
All-append P [] ys h g = g
All-append P (x ∷ xs) ys h g = (h.0, All-append P xs ys h.1 g)

-- A path that `resolve` gives consists of entries, and lies under the root.
pub resolved-IsEntry :
    (fs : Fs) (root : FilePath) (path : Name) (r : FilePath)
    → All IsEntry root
    → resolve fs root path ≡ Result.ok r
    → All IsEntry r × Under root r
resolved-IsEntry fs root path r h e =
    let c : Confined fs root path r = resolve-Confined fs root path r e in
    (
      rw c.under_root (All-append IsEntry root c.names h (clean-IsEntry c.names c.clean)),
      (c.names, c.under_root),
    )

pub Result-cases :
    (r : Result FilePath)
    → ((e : PathError) × (r ≡ Result.err e)) ⊎ ((p : FilePath) × (r ≡ Result.ok p))
Result-cases (Result.err e) = inl (e, refl)
Result-cases (Result.ok p) = inr (p, refl)

module _ (root : FilePath) where
  fsync_dir_confined-Safe :
      (g : List Grant) (dir : FilePath) → Safe root (IfOk Always) g (fsync_dir_confined root dir)
  unfolding fsync_dir_confined learn
  fsync_dir_confined-Safe g dir =
      and_then-Safe root (Held g) Always g (open_confined root dir (o_directory + o_nofollow) 0) _
        (open_confined-Safe root g dir (o_directory + o_nofollow) 0)
        (λ h d q. (q.0, λ r. unit_reply root Always h r tt))

  sync_parent_dir-Safe :
      (g : List Grant) (resolved : FilePath) → Safe root Always g (sync_parent_dir root resolved)
  unfolding sync_parent_dir
  sync_parent_dir-Safe g resolved = elim (Bool-cases (path_eq resolved root)) [
    | inl e ↦ rw e tt
    | inr e ↦ elim (Option-cases (split_last resolved)) [
      | inl z ↦ rw (e, z) tt
      | inr ((dir, name), z) ↦
          rw (e, z)
            (bind-Safe root (IfOk Always) Always g (fsync_dir_confined root dir) _
              (fsync_dir_confined-Safe g dir) (λ h o q. tt))
    ]
  ]

  pub sync_if-Safe :
      (g : List Grant) (wanted : Bool) (resolved : FilePath)
      → Safe root Always g (sync_if wanted root resolved)
  unfolding sync_if
  sync_if-Safe g true resolved = sync_parent_dir-Safe g resolved
  sync_if-Safe g false resolved = tt

  pub stat_after-Safe :
      (g : List Grant) (asked : Bool) (c : Syscall)
      → ((h : List Grant) → Allowed root h c)
      → Safe root Always g (stat_after asked c)
  unfolding stat_after
  stat_after-Safe g true c h = (h g, λ r. tt)
  stat_after-Safe g false c h = tt

  pub finish_stat-Safe :
      (session : Session) (changed : FilePath) (seq : ℕ) (look : Syscall)
      (m : Prog (Outcome (Unit {0})))
      → ((h : List Grant) → Allowed root h look)
      → Safe root (IfOk Always) [] m
      → Safe root Always [] (finish_stat session root changed seq look m)
  unfolding finish_stat
  finish_stat-Safe session changed seq look m looks s =
      bind-Safe root (IfOk Always) Always [] m _ s (λ h o q.
        bind-Safe root Always Always h (sync_if (succeeded o && session.sync_metadata) root changed)
          _ (sync_if-Safe h (succeeded o && session.sync_metadata) changed)
          (λ i u v.
            bind-Safe root Always Always i (stat_after (succeeded o) look) _
              (stat_after-Safe i (succeeded o) look looks) (λ j w z. tt)))

  pub finish_status-Safe :
      (session : Session) (changed : FilePath) (seq : ℕ) (m : Prog (Outcome (Unit {0})))
      → Safe root (IfOk Always) [] m
      → Safe root Always [] (finish_status session root changed seq m)
  unfolding finish_status
  finish_status-Safe session changed seq m s =
      bind-Safe root (IfOk Always) Always [] m _ s (λ h o q.
        bind-Safe root Always Always h (sync_if (succeeded o && session.sync_metadata) root changed)
          _ (sync_if-Safe h (succeeded o && session.sync_metadata) changed) (λ i u v. tt))

  pub sync_both-Safe :
      (g : List Grant) (wanted : Bool) (old new : FilePath)
      → Safe root Always g (sync_both wanted root old new)
  unfolding sync_both
  sync_both-Safe g wanted old new =
      bind-Safe root Always Always g (sync_if wanted root old) _ (sync_if-Safe g wanted old)
        (λ h u v. sync_if-Safe h (wanted && not (same_parent (parent_of old) (parent_of new))) new)
