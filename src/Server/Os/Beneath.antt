-- ===== src/Server/Os/Beneath.antt =====
-- Programs that act beneath the export root only, whatever the replies are.
use quicfs.Base.{
  ℕ, ◌≡◌, ◌≢◌, refl, Bool, true, false, ◌||◌, List, [], ◌∷◌, ◌++◌, ◌==◌, ==_refl, arith,
}
use quicfs.Server.Sanitize.{Name, FilePath, slash, dot_dot}
use quicfs.Server.Sanitize.Split.{Lacks}
use quicfs.Server.Os.{
  Syscall, open_root, openat2, close, open_path, mkdirat, fchmodat, unlinkat, symlinkat, linkat,
  renameat, readlinkat, fsync, fdatasync, fstat, fchmod, ftruncate, chmod_proc, utimens_proc, stat,
  lstat, statvfs, read_dir, Reply, value, no_sys, Prog, done, call, ◌>>=◌, Outcome, ok, err,
  and_then,
}

-- What the program has got: a descriptor of the export root, one of something beneath it, or a reply
-- ENOSYS to the open of the root or to `openat2`.
pub data Grant : Type 0 where
  root_fd inner_fd : ℕ → Grant
  legacy : Grant

unfoldable pub has_root : ℕ → List Grant → Bool
has_root d [] = false
has_root d (root_fd e ∷ g) = d == e || has_root d g
has_root d (inner_fd e ∷ g) = has_root d g
has_root d (legacy ∷ g) = has_root d g

unfoldable pub has_inner : ℕ → List Grant → Bool
has_inner d [] = false
has_inner d (root_fd e ∷ g) = has_inner d g
has_inner d (inner_fd e ∷ g) = d == e || has_inner d g
has_inner d (legacy ∷ g) = has_inner d g

unfoldable pub is_legacy : List Grant → Bool
is_legacy [] = false
is_legacy (root_fd e ∷ g) = is_legacy g
is_legacy (inner_fd e ∷ g) = is_legacy g
is_legacy (legacy ∷ g) = true

-- A name of an entry of a directory: no step up, and no way further down.
abbrev pub IsEntry : Name → Type 0
IsEntry n = Lacks slash n × (n ≢ dot_dot)

abbrev pub Under : FilePath → FilePath → Type 0
Under root p = (names : FilePath) × (p ≡ root ++ names)

-- `openat2` resolves from the root; a file is opened by a path, which is under the root, only after an
-- ENOSYS to the open of the root or to `openat2`; every other call on names acts on a descriptor that
-- was opened in one of these ways and on a single entry there; the calls by path, which only look and
-- list, do so under the root.
abbrev pub Allowed : FilePath → List Grant → Syscall → Type 0
Allowed root g (open_root p) = p ≡ root
Allowed root g (openat2 d rel flags mode) = has_root d g ≡ true
Allowed root g (close d) = has_root d g ≡ true
Allowed root g (open_path p flags mode) = (is_legacy g ≡ true) × Under root p
Allowed root g (mkdirat d n mode) = (has_inner d g ≡ true) × IsEntry n
Allowed root g (fchmodat d n mode) = (has_inner d g ≡ true) × IsEntry n
Allowed root g (unlinkat d n is_dir) = (has_inner d g ≡ true) × IsEntry n
Allowed root g (symlinkat target d n) = (has_inner d g ≡ true) × IsEntry n
Allowed root g (linkat d n e m) =
    ((has_inner d g ≡ true) × IsEntry n) × ((has_inner e g ≡ true) × IsEntry m)
Allowed root g (renameat d n e m) =
    ((has_inner d g ≡ true) × IsEntry n) × ((has_inner e g ≡ true) × IsEntry m)
Allowed root g (readlinkat d n size) = (has_inner d g ≡ true) × IsEntry n
Allowed root g (fsync d) = has_inner d g ≡ true
Allowed root g (fdatasync d) = has_inner d g ≡ true
Allowed root g (fstat d) = has_inner d g ≡ true
Allowed root g (fchmod d mode) = has_inner d g ≡ true
Allowed root g (ftruncate d len) = has_inner d g ≡ true
Allowed root g (chmod_proc d mode) = has_inner d g ≡ true
Allowed root g (utimens_proc d atime mtime) = has_inner d g ≡ true
Allowed root g (stat p) = Under root p
Allowed root g (statvfs p) = Under root p
Allowed root g (lstat p) = Under root p
Allowed root g (read_dir p) = Under root p

-- What the program has after a reply.
unfoldable pub learn : Syscall → Reply → List Grant → List Grant
learn (open_root p) (value d) g = root_fd d ∷ g
learn (open_root p) no_sys g = legacy ∷ g
learn (openat2 e rel flags mode) (value d) g = inner_fd d ∷ g
learn (openat2 e rel flags mode) no_sys g = legacy ∷ g
learn (open_path p flags mode) (value d) g = inner_fd d ∷ g
learn _ _ g = g

-- Every call of the program is allowed, whatever the replies, and what it ends with satisfies `Q` with
-- what it has got by then.
abbrev pub Safe {ℓ} :
    {A : Type ℓ} → FilePath → (List Grant → A → Type 0) → List Grant → Prog A → Type 0
Safe root Q g (done a) = Q g a
Safe root Q g (call c next) = Allowed root g c × ((r : Reply) → Safe root Q (learn c r g) (next r))

module _ {ℓ κ} {A : Type ℓ} {B : Type κ} (root : FilePath) (Q : List Grant → A → Type 0)
    (R : List Grant → B → Type 0) where
  pub bind-Safe :
      (g : List Grant) (m : Prog A) (f : A → Prog B)
      → Safe root Q g m
      → ((h : List Grant) (a : A) → Q h a → Safe root R h (f a))
      → Safe root R g (m >>= f)
  unfolding ◌>>=◌
  bind-Safe g (done a) f s k = k g a s
  bind-Safe g (call c next) f s k = (s.0, λ r. bind-Safe (learn c r g) (next r) f (s.1 r) k)

-- What a success satisfies; an error is all right.
abbrev pub IfOk {ℓ} : {A : Type ℓ} → (List Grant → A → Type 0) → List Grant → Outcome A → Type 0
IfOk Q g (ok a) = Q g a
IfOk Q g (err k) = Unit

module _ {ℓ κ} {A : Type ℓ} {B : Type κ} (root : FilePath) (Q : List Grant → A → Type 0)
    (R : List Grant → B → Type 0) where
  rest-Safe :
      (f : A → Prog (Outcome B)) (h : List Grant) (o : Outcome A)
      → ((a : A) → Q h a → Safe root (IfOk R) h (f a))
      → IfOk Q h o
      → Safe root (IfOk R) h (elim o [ ok a ↦ f a | err e ↦ done (err e) ])
  rest-Safe f h (ok a) k s = k a s
  rest-Safe f h (err e) k s = tt

  pub and_then-Safe :
      (g : List Grant) (m : Prog (Outcome A)) (f : A → Prog (Outcome B))
      → Safe root (IfOk Q) g m
      → ((h : List Grant) (a : A) → Q h a → Safe root (IfOk R) h (f a))
      → Safe root (IfOk R) g (and_then m f)
  unfolding and_then
  and_then-Safe g m f s k =
      bind-Safe root (IfOk Q) (IfOk R) g m (λ o. elim o [ ok a ↦ f a | err e ↦ done (err e) ]) s
        (λ h o q. rest-Safe f h o (k h) q)

-- No descriptor of an entry is lost.
abbrev pub Keeps : List Grant → List Grant → Type 0
Keeps g h = (e : ℕ) → has_inner e g ≡ true → has_inner e h ≡ true

pub has_root-cons : (d : ℕ) (g : List Grant) → has_root d (root_fd d ∷ g) ≡ true
unfolding has_root
has_root-cons d g = rw (==_refl d) refl

pub has_inner-cons : (d : ℕ) (g : List Grant) → has_inner d (inner_fd d ∷ g) ≡ true
unfolding has_inner
has_inner-cons d g = rw (==_refl d) refl

pub Keeps-cons_inner : (d : ℕ) (g : List Grant) → Keeps g (inner_fd d ∷ g)
unfolding has_inner
Keeps-cons_inner d g e h = ground (arith, h)

pub Keeps-cons_root : (d : ℕ) (g : List Grant) → Keeps g (root_fd d ∷ g)
unfolding has_inner
Keeps-cons_root d g e h = h

pub Keeps-cons_legacy : (g : List Grant) → Keeps g (legacy ∷ g)
unfolding has_inner
Keeps-cons_legacy g e h = h

learn-Keeps : (c : Syscall) (r : Reply) (g : List Grant) → Keeps g (learn c r g)
unfolding learn
learn-Keeps (open_root p) (value d) g = Keeps-cons_root d g
learn-Keeps (open_root p) no_sys g = Keeps-cons_legacy g
learn-Keeps (openat2 e rel flags mode) (value d) g = Keeps-cons_inner d g
learn-Keeps (openat2 e rel flags mode) no_sys g = Keeps-cons_legacy g
learn-Keeps (open_path p flags mode) (value d) g = Keeps-cons_inner d g
learn-Keeps _ _ g = λ e h. h

module _ {ℓ} {A : Type ℓ} (root : FilePath) (Q R : List Grant → A → Type 0) where
  pub Safe-mono :
      (g : List Grant) (m : Prog A)
      → Safe root Q g m
      → ((h : List Grant) (a : A) → Keeps g h → Q h a → R h a)
      → Safe root R g m
  Safe-mono g (done a) s k = k g a (λ e h. h) s
  Safe-mono g (call c next) s k = (
    s.0,
    λ r.
        Safe-mono (learn c r g) (next r) (s.1 r)
          (λ h a keeps q. k h a (λ e held. keeps e (learn-Keeps c r g e held)) q),
  )

module _ {ℓ κ} {A : Type ℓ} {B : Type κ} (root : FilePath) (Q : List Grant → A → Type 0)
    (R : List Grant → B → Type 0) where
  -- What follows a program may also use that no descriptor was lost meanwhile.
  pub bind_keeping-Safe :
      (g : List Grant) (m : Prog A) (f : A → Prog B)
      → Safe root Q g m
      → ((h : List Grant) (a : A) → Keeps g h → Q h a → Safe root R h (f a))
      → Safe root R g (m >>= f)
  bind_keeping-Safe g m f s k =
      bind-Safe root (λ h a. Keeps g h × Q h a) R g m f
        (Safe-mono root Q (λ h a. Keeps g h × Q h a) g m s (λ h a keeps q. (keeps, q)))
        (λ h a p. k h a p.0 p.1)
