-- ===== src/Server/Files/Descriptors.antt =====
-- server/src/ops: every descriptor in the table of open handles is of a file beneath the export root.
use quicfs.Base.{
  ℕ, ◌≡◌, Bool, true, false, Option, none, some, List, leb, if◌then◌else◌, length, inl, inr,
  Option-cases, lookup, lookup-insert, lookup-without, arith,
}
use quicfs.Common.Status.{Status, no_space, from_io}
use quicfs.Server.Sanitize.{Name, FilePath, Fs, resolve}
use quicfs.Server.Handles.{OpenHandle, HandleTable, ino_key_of, try_insert, remove, get_handle}
use quicfs.Server.Os.{fstat, fchmod, Prog, done, call, ◌>>=◌, Outcome, ok, err}
use quicfs.Server.Os.Beneath.{
  Grant, has_inner, learn, Safe, bind-Safe, bind_keeping-Safe, IfOk, Keeps,
}
use quicfs.Server.Confined.{open_confined, permissions}
use quicfs.Server.Confined.Jail.{Held, Always, open_confined-Safe}
use quicfs.Server.Meta.{Session, Stat, as_attributes, stat_after, sync_if}
use quicfs.Server.Meta.Steps.{Result-cases, sync_if-Safe}
use quicfs.Server.Files.{
  OpenResponse, dev_ino, insert_file, open_flags, create_flags, handle_open, handle_create,
  handle_release,
}

-- The file of every handle is held.
abbrev pub TableHeld : List Grant → HandleTable → Type 0
TableHeld g t = (id : ℕ) (h : OpenHandle) → get_handle id t ≡ some h → has_inner h.file g ≡ true

-- A program that ends with a table whose files are held.
abbrev pub Tables : {A : Type 0} → List Grant → HandleTable × A → Type 0
Tables g p = TableHeld g p.0

kept_table : (g h : List Grant) (t : HandleTable) → Keeps g h → TableHeld g t → TableHeld h t
kept_table g h t k held id e z = k e.file (held id e z)

try_insert-TableHeld :
    (g : List Grant) (e : OpenHandle) (t : HandleTable)
    → has_inner e.file g ≡ true
    → TableHeld g t
    → TableHeld g (try_insert e t).0
unfolding try_insert get_handle
try_insert-TableHeld g e t new held id h z =
    ground (arith, lookup-insert t.counter id e t.inner, held id h)

if-Safe {ℓ} :
    {A : Type ℓ} (root : FilePath) (Q : List Grant → A → Type 0) (g : List Grant) (b : Bool)
    (m n : Prog A)
    → Safe root Q g m
    → Safe root Q g n
    → Safe root Q g (if b then m else n)
if-Safe root Q g true m n s t = s
if-Safe root Q g false m n s t = t

insert_file-Safe :
    (root : FilePath) (hash : FilePath → ℕ) (path : FilePath) (flags fd : ℕ) (g : List Grant)
    (t : HandleTable)
    → has_inner fd g ≡ true
    → TableHeld g t
    → Safe root Tables g (insert_file hash path flags fd t)
unfolding insert_file learn
insert_file-Safe root hash path flags fd g t new held =
    if-Safe root Tables g (leb t.max_handles (length t.inner)) (done (t, none)) _ held (
      new,
      λ r.
          try_insert-TableHeld g
            (record {
              path = path;
              flags = flags;
              file = fd;
              ino_key = ino_key_of hash (dev_ino (as_attributes r)) path;
            })
            t new held,
    )

-- The answer to an open.
answer_open :
    (root : FilePath) (g : List Grant) (seq : ℕ) (s : Option Stat) (p : HandleTable × Option ℕ)
    → TableHeld g p.0
    → Safe {A = HandleTable × OpenResponse} root Tables g (elim p.1 [
      | none ↦ done (p.0, record { seq = seq; status = no_space; handle = 0; stat = none })
      | some id ↦ done (p.0, record { seq = seq; status = Status.ok; handle = id; stat = s })
    ])
answer_open root g seq s (t, none) held = held
answer_open root g seq s (t, some id) held = held

answer_create :
    (session : Session) (root resolved : FilePath) (g : List Grant) (seq : ℕ) (s : Option Stat)
    (p : HandleTable × Option ℕ)
    → TableHeld g p.0
    → Safe {A = HandleTable × OpenResponse} root Tables g (elim p.1 [
      | none ↦ done (p.0, record { seq = seq; status = no_space; handle = 0; stat = none })
      | some id ↦ sync_if session.sync_metadata root resolved >>= λ _.
          done (p.0, record { seq = seq; status = Status.ok; handle = id; stat = s })
    ])
answer_create session root resolved g seq s (t, none) held = held
answer_create session root resolved g seq s (t, some id) held =
    bind_keeping-Safe root Always Tables g (sync_if session.sync_metadata root resolved) _
      (sync_if-Safe root g session.sync_metadata resolved) (λ h u k v. kept_table g h t k held)

module _ (fs : Fs) (session : Session) (root : FilePath) (hash : FilePath → ℕ) where
  opened_file :
      (resolved : FilePath) (seq flags : ℕ) (g : List Grant) (t : HandleTable) (o : Outcome ℕ)
      → IfOk (λ h fd. has_inner fd h ≡ true) g o
      → TableHeld g t
      → Safe {A = HandleTable × OpenResponse} root Tables g (elim o [
        | err k ↦ done (t, record { seq = seq; status = from_io k; handle = 0; stat = none })
        | ok fd ↦ stat_after true (fstat fd) >>= λ s. insert_file hash resolved flags fd t >>= λ p.
            elim p.1 [
              | none ↦ done (p.0, record { seq = seq; status = no_space; handle = 0; stat = none })
              | some id ↦
                  done (p.0, record { seq = seq; status = Status.ok; handle = id; stat = s })
            ]
      ])
  unfolding stat_after learn
  opened_file resolved seq flags g t (err k) new held = held
  opened_file resolved seq flags g t (ok fd) new held =
      bind_keeping-Safe root (λ h s. has_inner fd h ≡ true) Tables g (stat_after true (fstat fd)) _
        (new, λ r. new)
        (λ h s k fd_held.
          bind-Safe root Tables Tables h (insert_file hash resolved flags fd t) _
            (insert_file-Safe root hash resolved flags fd h t fd_held (kept_table g h t k held))
            (λ i p q. answer_open root i seq s p q))

  created_file :
      (resolved : FilePath) (seq flags mode : ℕ) (g : List Grant) (t : HandleTable) (o : Outcome ℕ)
      → IfOk (λ h fd. has_inner fd h ≡ true) g o
      → TableHeld g t
      → Safe {A = HandleTable × OpenResponse} root Tables g (elim o [
        | err k ↦ done (t, record { seq = seq; status = from_io k; handle = 0; stat = none })
        | ok fd ↦ call (fchmod fd (permissions mode)) (λ _. stat_after true (fstat fd) >>= λ s.
            insert_file hash resolved flags fd t >>= λ p. elim p.1 [
              | none ↦ done (p.0, record { seq = seq; status = no_space; handle = 0; stat = none })
              | some id ↦ sync_if session.sync_metadata root resolved >>= λ _.
                  done (p.0, record { seq = seq; status = Status.ok; handle = id; stat = s })
            ])
      ])
  unfolding stat_after learn
  created_file resolved seq flags mode g t (err k) new held = held
  created_file resolved seq flags mode g t (ok fd) new held = (
    new,
    λ r₀.
        bind_keeping-Safe root (λ h s. has_inner fd h ≡ true) Tables g (stat_after true (fstat fd))
          _ (new, λ r. new)
          (λ h s k fd_held.
            bind-Safe root Tables Tables h (insert_file hash resolved flags fd t) _
              (insert_file-Safe root hash resolved flags fd h t fd_held (kept_table g h t k held))
              (λ i p q. answer_create session root resolved i seq s p q)),
  )

  just-Held :
      (g h : List Grant) (o : Outcome ℕ)
      → IfOk (Held g) h o
      → IfOk (λ i fd. has_inner fd i ≡ true) h o
  just-Held g h (ok fd) q = q.0
  just-Held g h (err k) q = tt

  pub handle_open-Safe :
      (seq : ℕ) (path : Name) (flags : ℕ) (g : List Grant) (t : HandleTable)
      → TableHeld g t
      → Safe root Tables g (handle_open fs root hash seq path flags t)
  unfolding handle_open
  handle_open-Safe seq path flags g t held = elim (Result-cases (resolve fs root path)) [
    | inl (e, z) ↦ rw (z, handle_open) held
    | inr (p, z) ↦
        rw (z, handle_open)
          (bind_keeping-Safe root (IfOk (Held g)) Tables g
            (open_confined root p (open_flags flags) 0) _
            (open_confined-Safe root g p (open_flags flags) 0)
            (λ h o k q.
              opened_file p seq flags h t o (just-Held g h o q) (kept_table g h t k held)))
  ]

  pub handle_create-Safe :
      (seq : ℕ) (path : Name) (flags mode : ℕ) (g : List Grant) (t : HandleTable)
      → TableHeld g t
      → Safe root Tables g (handle_create fs session root hash seq path flags mode t)
  unfolding handle_create
  handle_create-Safe seq path flags mode g t held = elim (Result-cases (resolve fs root path)) [
    | inl (e, z) ↦ rw (z, handle_create) held
    | inr (p, z) ↦
        rw (z, handle_create)
          (bind_keeping-Safe root (IfOk (Held g)) Tables g
            (open_confined root p (create_flags flags) (permissions mode)) _
            (open_confined-Safe root g p (create_flags flags) (permissions mode))
            (λ h o k q.
              created_file p seq flags mode h t o (just-Held g h o q) (kept_table g h t k held)))
  ]

  remove-TableHeld :
      (g : List Grant) (handle : ℕ) (t : HandleTable)
      → TableHeld g t
      → TableHeld g (remove handle t).0
  unfolding remove get_handle
  remove-TableHeld g handle t held id h z =
      ground (arith, lookup-without handle id t.inner, held id h)

  pub handle_release-Safe :
      (seq handle : ℕ) (g : List Grant) (t : HandleTable)
      → TableHeld g t
      → Safe root Tables g (handle_release session seq handle t)
  unfolding handle_release learn get_handle remove
  handle_release-Safe seq handle g t held =
      let left : TableHeld g (remove handle t).0 = remove-TableHeld g handle t held in
      if-Safe root Tables g session.sync_on_close _
        (done ((remove handle t).0, record { seq = seq; status = Status.ok }))
        (elim (Option-cases (lookup handle t.inner)) [
          | inl e ↦ rw e left
          | inr (h, e) ↦ rw e (held handle h e, λ r. left)
        ])
        left
