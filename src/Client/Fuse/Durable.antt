-- ===== src/Client/Fuse/Durable.antt =====
-- client/src/fuse_ops.rs: what a successful fsync means, and what a release leaves behind.
use quicfs.Base.{
  ℕ, ◌%◌, ◌≡◌, refl, sym, ◌∙◌, ap, ◌⊎◌, inl, inr, Bool, true, false, Option, none, some, [], arith,
  Option-cases, lookup, lookup-without,
}
use quicfs.Client.Errno.{flush_reply}
use quicfs.Client.WriteBuf.{chunk_bytes, word_mod}
use quicfs.Client.WriteBuf.Queue.{queue, queue-drop_handle}
use quicfs.Client.Mount.{Conn, Mount, as_errno, ensure_live, flush_handle_drain, flush}
use quicfs.Client.Mount.Account.{Delivered, Account, ensure_live-Account}
use quicfs.Client.Mount.Close.{flush_reported}
use quicfs.Client.Cache.{Lru}
use quicfs.Server.Meta.{Stat}
use quicfs.Client.Fuse.{Answer, got, failed, Told, answered, Remote, QuicFs}
use quicfs.Client.Fuse.Handles.{fsync, fsync_live, release, told_errno}

got_unit : (a : Answer (Unit {0})) → told_errno a ≡ answered tt → a ≡ got tt
got_unit (got u) h = refl
got_unit (failed e) h = absurd (cc)

module _ {conn : Conn} (remote : Remote conn) (fh : ℕ) (datasync : Bool) where
  -- The server was asked to sync a handle, and has answered with success.
  abbrev pub Synced : conn.State → Type 0
  Synced link = (h : ℕ) × (before : conn.State) × (remote.fsync h datasync before ≡ (link, got tt))

module _ (conn : Conn) (fh : ℕ) where
  stays_empty :
      (m m' : Mount conn)
      → Account conn fh m m'
      → queue fh m.write_buf ≡ []
      → queue fh m'.write_buf ≡ []
  stays_empty m m' (inl same, keep) e = same ∙ e
  stays_empty m m' (inr settled, keep) e = settled.0

module _ {conn : Conn} {lru : Lru Stat} (remote : Remote conn) (fh : ℕ) (datasync : Bool) where
  live-Synced :
      (fs : QuicFs conn lru) (r : Mount conn × Option ℕ)
      → (fsync_live remote datasync fs r).1 ≡ answered tt
      → Synced remote fh datasync (fsync_live remote datasync fs r).0.mount.link
        × ((fsync_live remote datasync fs r).0.mount.write_buf ≡ r.0.write_buf)
  unfolding fsync_live
  live-Synced fs (m, none) h = absurd (cc)
  live-Synced fs (m, some handle) h = (
    (
      handle,
      m.link,
      λ i. (
        (remote.fsync handle datasync m.link).0,
        got_unit (remote.fsync handle datasync m.link).1 h i,
      ),
    ),
    refl,
  )

  -- The mount after the part of `fsync` that is that of `flush`.
  fsync_as_flush :
      (fs : QuicFs conn lru)
      → (fsync remote fh datasync fs).1 ≡ answered tt
      → ((flush fh fs.mount).1 ≡ none)
        × (fsync remote fh datasync fs
            ≡ fsync_live remote datasync fs (ensure_live true fh (flush fh fs.mount).0))
  unfolding fsync flush
  fsync_as_flush fs h =
      elim (Option-cases (
        flush_reply (as_errno (flush_handle_drain fh fs.mount).1)
          ((flush_handle_drain fh fs.mount).0.write_errors fh))) [
            | inr (errno, e) ↦ absurd (ground (arith, e, h))
            | inl e ↦ (e, rw (e, fsync) refl)
          ]

  -- An fsync that is answered with success has lost nothing, with no other flush of the handle running
  -- meanwhile: nothing is buffered for the handle any more, and what was buffered was nothing, or had
  -- no bytes in it, or was sent as one batch whose every write the server answered with success; and
  -- the last thing the server was asked was to sync a handle, which it answered with success.
  pub fsync_reported :
      (fs : QuicFs conn lru)
      → (fsync remote fh datasync fs).1 ≡ answered tt
      → (queue fh (fsync remote fh datasync fs).0.mount.write_buf ≡ [])
        × ((queue fh fs.mount.write_buf ≡ [])
            ⊎ (Delivered conn fh (queue fh fs.mount.write_buf)
                ⊎ (chunk_bytes (queue fh fs.mount.write_buf) % word_mod ≡ 0)))
        × Synced remote fh datasync (fsync remote fh datasync fs).0.mount.link
  fsync_reported fs h =
      let (fine, same) = fsync_as_flush fs h in
      let (empty, why) = flush_reported conn fh fs.mount fine in
      let (synced, kept) =
        live-Synced fs (ensure_live true fh (flush fh fs.mount).0)
          (sym (ap (λ (r : QuicFs conn lru × Told (Unit {0})). r.1) same) ∙ h) in
      rw same (
        ap (queue fh) kept
            ∙ stays_empty conn fh (flush fh fs.mount).0
                (ensure_live true fh (flush fh fs.mount).0).0
                (ensure_live-Account conn fh true (flush fh fs.mount).0) empty,
        why,
        synced,
      )

module _ {conn : Conn} {lru : Lru Stat} (remote : Remote conn) (fh : ℕ) where
  -- After a release nothing is left of the handle: no open file, no chunks and no sticky error.
  pub release_forgets :
      (fs : QuicFs conn lru)
      → (lookup fh (release remote fh fs).mount.open_files ≡ none)
        × (queue fh (release remote fh fs).mount.write_buf ≡ [])
        × ((release remote fh fs).mount.write_errors fh ≡ false)
  unfolding release
  release_forgets fs =
      let m : Mount conn = (flush_handle_drain fh fs.mount).0 in
      ground (arith, lookup-without fh fh m.open_files, queue-drop_handle fh m.write_buf fh)
