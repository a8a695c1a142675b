-- ===== src/Server/Files/Sessions.antt =====
-- server/src/ops: the requests of one session on open files, one after another.
use quicfs.Base.{
  ℕ, ◌≡◌, Bool, true, false, List, [], ◌∷◌, inl, inr, Option-cases, lookup, if◌then◌else◌,
}
use quicfs.Server.Sanitize.{Name, FilePath, Fs}
use quicfs.Server.Handles.{HandleTable, with_limit, get_handle, get_file}
use quicfs.Server.Os.{Prog, done, ◌>>=◌, fsync, fdatasync, Reply}
use quicfs.Server.Os.Beneath.{Grant, has_inner, Allowed, learn, Safe, bind-Safe}
use quicfs.Server.Meta.{Session}
use quicfs.Server.Files.{handle_open, handle_create, handle_release, handle_fsync}
use quicfs.Server.Files.Descriptors.{
  TableHeld, Tables, handle_open-Safe, handle_create-Safe, handle_release-Safe,
}

pub data FileRequest : Type 0 where
  open_file : Name → ℕ → FileRequest
  create_file : Name → ℕ → ℕ → FileRequest
  release_file : ℕ → FileRequest
  sync_file : ℕ → Bool → FileRequest

module _ (fs : Fs) (session : Session) (root : FilePath) (hash : FilePath → ℕ) where
  unfoldable pub serve_one : FileRequest → HandleTable → Prog HandleTable
  unfolding ◌>>=◌ handle_open handle_create handle_release handle_fsync
  serve_one (open_file path flags) t = handle_open fs root hash 0 path flags t >>= λ p. done p.0
  serve_one (create_file path flags mode) t =
      handle_create fs session root hash 0 path flags mode t >>= λ p. done p.0
  serve_one (release_file handle) t = handle_release session 0 handle t >>= λ p. done p.0
  serve_one (sync_file handle datasync) t = handle_fsync 0 handle datasync t >>= λ p. done t

  unfoldable pub serve : List FileRequest → HandleTable → Prog HandleTable
  unfolding ◌>>=◌ serve_one
  serve [] t = done t
  serve (request ∷ requests) t = serve_one request t >>= λ t'. serve requests t'

  fsync-Allowed :
      (fd : ℕ) (datasync : Bool) (g : List Grant)
      → has_inner fd g ≡ true
      → Allowed root g (if datasync then fdatasync fd else fsync fd)
  fsync-Allowed fd true g h = h
  fsync-Allowed fd false g h = h

  fsync_keeps :
      (fd : ℕ) (datasync : Bool) (r : Reply) (g : List Grant) (t : HandleTable)
      → TableHeld g t
      → TableHeld (learn (if datasync then fdatasync fd else fsync fd) r g) t
  unfolding learn
  fsync_keeps fd true r g t h = h
  fsync_keeps fd false r g t h = h

  handle_fsync-Safe :
      (seq handle : ℕ) (datasync : Bool) (g : List Grant) (t : HandleTable)
      → TableHeld g t
      → Safe root (λ h r. TableHeld h t) g (handle_fsync seq handle datasync t)
  unfolding handle_fsync get_file get_handle
  handle_fsync-Safe seq handle datasync g t held = elim (Option-cases (lookup handle t.inner)) [
    | inl e ↦ rw (e, handle_fsync) held
    | inr (h, e) ↦
        rw (e, handle_fsync)
          (
            fsync-Allowed h.file datasync g (held handle h e),
            λ r. fsync_keeps h.file datasync r g t held,
          )
  ]

  serve_one-Safe :
      (request : FileRequest) (g : List Grant) (t : HandleTable)
      → TableHeld g t
      → Safe root TableHeld g (serve_one request t)
  unfolding serve_one
  serve_one-Safe (open_file path flags) g t held =
      bind-Safe root Tables TableHeld g (handle_open fs root hash 0 path flags t) _
        (handle_open-Safe fs session root hash 0 path flags g t held) (λ h p q. q)
  serve_one-Safe (create_file path flags mode) g t held =
      bind-Safe root Tables TableHeld g (handle_create fs session root hash 0 path flags mode t) _
        (handle_create-Safe fs session root hash 0 path flags mode g t held) (λ h p q. q)
  serve_one-Safe (release_file handle) g t held =
      bind-Safe root Tables TableHeld g (handle_release session 0 handle t) _
        (handle_release-Safe fs session root hash 0 handle g t held) (λ h p q. q)
  serve_one-Safe (sync_file handle datasync) g t held =
      bind-Safe root (λ h r. TableHeld h t) TableHeld g (handle_fsync 0 handle datasync t) _
        (handle_fsync-Safe 0 handle datasync g t held) (λ h p q. q)

  serve_from-Safe :
      (requests : List FileRequest) (g : List Grant) (t : HandleTable)
      → TableHeld g t
      → Safe root TableHeld g (serve requests t)
  unfolding serve
  serve_from-Safe [] g t held = held
  serve_from-Safe (request ∷ requests) g t held =
      bind-Safe root TableHeld TableHeld g (serve_one request t) _ (serve_one-Safe request g t held)
        (λ h t' q. serve_from-Safe requests h t' q)

  -- Whatever files a session opens, creates, releases and syncs, one after another from its new
  -- table, and whatever the kernel replies: files are opened beneath the export root only, by
  -- `openat2` or, after an ENOSYS to it or to the open of the root, by a path under the root; the
  -- other calls act on descriptors that were opened so; and so is every file in the table at the end.
  pub session-Safe :
      (uuid max_handles : ℕ) (requests : List FileRequest)
      → Safe root TableHeld [] (serve requests (with_limit uuid max_handles))
  unfolding with_limit get_handle lookup
  session-Safe uuid max_handles requests =
      serve_from-Safe requests [] (with_limit uuid max_handles) (λ id h e. absurd (cc))
