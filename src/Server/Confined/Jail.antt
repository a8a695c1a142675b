-- ===== src/Server/Confined/Jail.antt =====
-- server/src/sanitize.rs: the confined operations act beneath the export root.
use quicfs.Base.{
  ℕ, ◌+◌, if◌then◌else◌, ◌||◌, ◌≡◌, refl, Bool, true, some, List, [], ◌∷◌, ◌++◌, All, inl, inr,
  Option-cases, Bool-cases, arith,
}
use quicfs.Server.Sanitize.{Name, FilePath, has_byte}
use quicfs.Server.Os.{
  open_root, openat2, close, open_path, mkdirat, Reply, value, text, attributes, usage, failed,
  listing, no_sys, done, call, ok, err,
}
use quicfs.Server.Os.Beneath.{
  Grant, root_fd, has_root, has_inner, is_legacy, Under, IsEntry, learn, Safe, bind-Safe, IfOk,
  and_then-Safe, Keeps, has_root-cons, has_inner-cons, Keeps-cons_inner, Keeps-cons_root,
}
use quicfs.Server.Confined.{
  as_fd, ok_or_errno, as_text, as_opening, Opening, opened, refused, missing, strip_prefix, any_nul,
  resolve_beneath, openat2_beneath, open_plain, open_confined, split_last, confined_parent,
  mkdir_confined, remove_confined, symlink_confined, link_confined, rename_confined,
  readlink_confined, permissions, o_cloexec, o_path, o_directory,
}
use quicfs.Server.Write.{has_flag}
use quicfs.Server.Sanitize.Complete.{name_eq-eq}

-- An opened descriptor is held, and none that was held before is lost.
abbrev pub Held : List Grant → List Grant → ℕ → Type 0
Held g h d = (has_inner d h ≡ true) × Keeps g h

abbrev OpeningHeld : FilePath → FilePath → List Grant → List Grant → Opening → Type 0
OpeningHeld root resolved g h (opened d) = Held g h d
OpeningHeld root resolved g h (refused k) = Unit
OpeningHeld root resolved g h missing = ((is_legacy h ≡ true) × Under root resolved) × Keeps g h

strip_prefix_sound :
    (root path rel : FilePath) → strip_prefix root path ≡ some rel → path ≡ root ++ rel
unfolding strip_prefix
strip_prefix_sound [] path rel e = ground arith
strip_prefix_sound (r ∷ root) [] rel e = absurd (cc)
strip_prefix_sound (r ∷ root) (c ∷ path) rel e =
    ground (arith, name_eq-eq r c, strip_prefix_sound root path rel)

module _ (root : FilePath) (g : List Grant) (resolved : FilePath) where
  after_openat2 :
      (d : ℕ) (rel : FilePath) (flags mode : ℕ) (r : Reply)
      → Under root resolved
      → Safe root
          (OpeningHeld root resolved g)
          (learn (openat2 d rel flags mode) r (root_fd d ∷ g))
          (call (close d) (λ _. done (as_opening r)))
  unfolding learn has_root has_inner is_legacy
  after_openat2 d rel flags mode (value e) under = (
    has_root-cons d g,
    λ r. (
      has_inner-cons e (root_fd d ∷ g),
      λ i h. Keeps-cons_inner e (root_fd d ∷ g) i (Keeps-cons_root d g i h),
    ),
  )
  after_openat2 d rel flags mode (text t) under = (has_root-cons d g, λ r. tt)
  after_openat2 d rel flags mode (attributes a) under = (has_root-cons d g, λ r. tt)
  after_openat2 d rel flags mode (usage a) under = (has_root-cons d g, λ r. tt)
  after_openat2 d rel flags mode (listing l) under = (has_root-cons d g, λ r. tt)
  after_openat2 d rel flags mode (failed k) under = (has_root-cons d g, λ r. tt)
  after_openat2 d rel flags mode no_sys under = (has_root-cons d g, λ r. ((refl, under), λ i h. h))

  after_open_root :
      (rel : FilePath) (flags mode : ℕ) (r : Reply)
      → Under root resolved
      → Safe root
          (OpeningHeld root resolved g)
          (learn (open_root root) r g)
          (resolve_beneath rel flags mode (as_opening r))
  unfolding learn resolve_beneath is_legacy has_inner
  after_open_root rel flags mode (value d) under = (
    has_root-cons d g,
    λ r. after_openat2 d rel (flags + o_cloexec) (if has_flag flags 6 then mode else 0) r under,
  )
  after_open_root rel flags mode (text t) under = tt
  after_open_root rel flags mode (attributes a) under = tt
  after_open_root rel flags mode (usage a) under = tt
  after_open_root rel flags mode (listing l) under = tt
  after_open_root rel flags mode (failed k) under = tt
  after_open_root rel flags mode no_sys under = ((refl, under), λ i h. h)

  openat2_beneath-Safe :
      (flags mode : ℕ)
      → Safe root (OpeningHeld root resolved g) g (openat2_beneath root resolved flags mode)
  unfolding openat2_beneath
  openat2_beneath-Safe flags mode = elim (Option-cases (strip_prefix root resolved)) [
    | inl e ↦ rw (e, openat2_beneath) tt
    | inr (rel, e) ↦ elim (Bool-cases (any_nul rel || any_nul root)) [
      | inl nul ↦ rw (e, nul, openat2_beneath) tt
      | inr clean ↦
          rw (e, clean, openat2_beneath)
            (
              refl,
              λ r. after_open_root rel flags mode r (rel, strip_prefix_sound root resolved rel e),
            )
    ]
  ]

  plain_reply :
      (h : List Grant) (flags mode : ℕ) (r : Reply)
      → Keeps g h
      → Safe root (IfOk (Held g)) (learn (open_path resolved flags mode) r h) (done (as_fd r))
  unfolding learn
  plain_reply h flags mode (value d) k = (has_inner-cons d h, λ i e. Keeps-cons_inner d h i (k i e))
  plain_reply h flags mode (text t) k = tt
  plain_reply h flags mode (attributes a) k = tt
  plain_reply h flags mode (usage a) k = tt
  plain_reply h flags mode (listing l) k = tt
  plain_reply h flags mode (failed e) k = tt
  plain_reply h flags mode no_sys k = tt

  opening-Safe :
      (flags mode : ℕ) (h : List Grant) (o : Opening)
      → OpeningHeld root resolved g h o
      → Safe root (IfOk (Held g)) h (elim o [
        | missing ↦ open_plain resolved flags mode
        | opened d ↦ done (ok d)
        | refused k ↦ done (err k)
      ])
  unfolding open_plain
  opening-Safe flags mode h (opened d) q = q
  opening-Safe flags mode h (refused k) q = tt
  opening-Safe flags mode h missing q = elim (Bool-cases (any_nul resolved)) [
    | inl nul ↦ rw (nul, open_plain) tt
    | inr clean ↦ rw (clean, open_plain) (q.0, λ r. plain_reply h (flags + o_cloexec) mode r q.1)
  ]

module _ (root : FilePath) (g : List Grant) where
  -- Opening a file never acts outside the root, and what it opens is beneath it.
  pub open_confined-Safe :
      (resolved : FilePath) (flags mode : ℕ)
      → Safe root (IfOk (Held g)) g (open_confined root resolved flags mode)
  unfolding open_confined
  open_confined-Safe resolved flags mode =
      bind-Safe root (OpeningHeld root resolved g) (IfOk (Held g)) g
        (openat2_beneath root resolved flags mode)
        (λ o. elim o [
          | missing ↦ open_plain resolved flags mode
          | opened d ↦ done (ok d)
          | refused k ↦ done (err k)
        ])
        (openat2_beneath-Safe root g resolved flags mode)
        (λ h o q. opening-Safe root g resolved flags mode h o q)

split_last-All :
    (path dir : FilePath) (name : Name)
    → split_last path ≡ some (dir, name)
    → All IsEntry path
    → IsEntry name
unfolding split_last
split_last-All [] dir name e h = absurd (cc)
split_last-All (c ∷ path) dir name e h = elim (Option-cases (split_last path)) [
  | inl z ↦ ground (arith, z, h)
  | inr ((d, n), z) ↦ ground (arith, z, split_last-All path d n z h.1)
]

-- The directory is held, the name is an entry, and no descriptor is lost.
abbrev pub Located : List Grant → List Grant → ℕ × Name → Type 0
Located g h p = ((has_inner p.0 h ≡ true) × IsEntry p.1) × Keeps g h

module _ (root : FilePath) (g : List Grant) where
  -- A path of entries: its directory is opened beneath the root.
  pub confined_parent-Safe :
      (resolved : FilePath)
      → All IsEntry resolved
      → Safe root (IfOk (Located g)) g (confined_parent root resolved)
  unfolding confined_parent
  confined_parent-Safe resolved h = elim (Option-cases (split_last resolved)) [
    | inl e ↦ rw (e, confined_parent) tt
    | inr ((dir, name), e) ↦ elim (Bool-cases (has_byte 0 name)) [
      | inl z ↦ rw (e, confined_parent, z) tt
      | inr z ↦
          let entry : IsEntry name = split_last-All resolved dir name e h in
          rw (e, confined_parent, z)
            (and_then-Safe root (Held g) (Located g) g
              (open_confined root dir (o_path + o_directory) 0) (λ d. done (ok (d, name)))
              (open_confined-Safe root g dir (o_path + o_directory) 0)
              (λ k d q. ((q.0, entry), q.1)))
    ]
  ]

pub unit_reply :
    (root : FilePath) (Q : List Grant → Unit {0} → Type 0) (g : List Grant) (r : Reply)
    → Q g tt
    → Safe root (IfOk Q) g (done (ok_or_errno r))
unit_reply root Q g (value d) q = q
unit_reply root Q g (text t) q = q
unit_reply root Q g (attributes a) q = q
unit_reply root Q g (usage a) q = q
unit_reply root Q g (listing l) q = q
unit_reply root Q g (failed k) q = tt
unit_reply root Q g no_sys q = tt

abbrev pub Always {ℓ} : {A : Type ℓ} → List Grant → A → Type 0
Always g a = Unit

text_reply :
    (root : FilePath) (g : List Grant) (r : Reply) → Safe root (IfOk Always) g (done (as_text r))
text_reply root g (value d) = tt
text_reply root g (text t) = tt
text_reply root g (attributes a) = tt
text_reply root g (usage a) = tt
text_reply root g (listing l) = tt
text_reply root g (failed k) = tt
text_reply root g no_sys = tt

module _ (root : FilePath) (g : List Grant) where
  -- Each of these operations acts beneath the export root only, on entries of directories there.
  pub mkdir_confined-Safe :
      (resolved : FilePath) (mode : ℕ)
      → All IsEntry resolved
      → Safe root (IfOk Always) g (mkdir_confined root resolved mode)
  unfolding mkdir_confined learn
  mkdir_confined-Safe resolved mode h =
      and_then-Safe root (Located g) Always g (confined_parent root resolved) _
        (confined_parent-Safe root g resolved h)
        (λ k p q.
          and_then-Safe root (λ i _. has_inner p.0 i ≡ true) Always k
            (call (mkdirat p.0 p.1 (permissions mode)) (λ r. done (ok_or_errno r))) _
            (q.0, λ r. unit_reply root (λ i _. has_inner p.0 i ≡ true) k r q.0.0)
            (λ i _ held. ((held, q.0.1), λ r. unit_reply root Always i r tt)))

  pub remove_confined-Safe :
      (resolved : FilePath) (is_dir : Bool)
      → All IsEntry resolved
      → Safe root (IfOk Always) g (remove_confined root resolved is_dir)
  unfolding remove_confined learn
  remove_confined-Safe resolved is_dir h =
      and_then-Safe root (Located g) Always g (confined_parent root resolved) _
        (confined_parent-Safe root g resolved h)
        (λ k p q. (q.0, λ r. unit_reply root Always k r tt))

  pub symlink_confined-Safe :
      (link : FilePath) (target : Name)
      → All IsEntry link
      → Safe root (IfOk Always) g (symlink_confined root link target)
  unfolding symlink_confined learn
  symlink_confined-Safe link target h =
      and_then-Safe root (Located g) Always g (confined_parent root link) _
        (confined_parent-Safe root g link h)
        (λ k p q. elim (Bool-cases (has_byte 0 target)) [
          | inl z ↦ rw z tt
          | inr z ↦ rw z (q.0, λ r. unit_reply root Always k r tt)
        ])

  pub link_confined-Safe :
      (src dst : FilePath)
      → All IsEntry src
      → All IsEntry dst
      → Safe root (IfOk Always) g (link_confined root src dst)
  unfolding link_confined learn
  link_confined-Safe src dst hs hd =
      and_then-Safe root (Located g) Always g (confined_parent root src) _
        (confined_parent-Safe root g src hs)
        (λ k s q.
          and_then-Safe root (Located k) Always k (confined_parent root dst) _
            (confined_parent-Safe root k dst hd)
            (λ i d t. (((t.1 s.0 q.0.0, q.0.1), t.0), λ r. unit_reply root Always i r tt)))

  pub rename_confined-Safe :
      (old new : FilePath)
      → All IsEntry old
      → All IsEntry new
      → Safe root (IfOk Always) g (rename_confined root old new)
  unfolding rename_confined learn
  rename_confined-Safe old new ho hn =
      and_then-Safe root (Located g) Always g (confined_parent root old) _
        (confined_parent-Safe root g old ho)
        (λ k s q.
          and_then-Safe root (Located k) Always k (confined_parent root new) _
            (confined_parent-Safe root k new hn)
            (λ i d t. (((t.1 s.0 q.0.0, q.0.1), t.0), λ r. unit_reply root Always i r tt)))

  pub readlink_confined-Safe :
      (resolved : FilePath)
      → All IsEntry resolved
      → Safe root (IfOk Always) g (readlink_confined root resolved)
  unfolding readlink_confined learn
  readlink_confined-Safe resolved h =
      and_then-Safe root (Located g) Always g (confined_parent root resolved) _
        (confined_parent-Safe root g resolved h) (λ k p q. (q.0, λ r. text_reply root k r))
