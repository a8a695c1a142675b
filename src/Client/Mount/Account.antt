-- ===== src/Client/Mount/Account.antt =====
-- client/src/fuse_ops.rs: a flush accounts for every buffered chunk.
use quicfs.Base.{
  ℕ, ◌%◌, ◌≡◌, refl, ◌∙◌, ◌⊎◌, inl, inr, Bool, true, ◌&&◌, not, Option, none, some, List, [], ◌∷◌,
  ltb, ◌==◌, ==_refl, lookup, insert, Bool-cases, Option-cases, arith, drop, length,
}
use quicfs.Client.WriteBuf.{
  WriteBuffer, PendingWrite, FlushBatch, chunk_bytes, word_mod, bytes, batch_of, begin_flush,
  ack_flush, drop_handle, has_buffered,
}
use quicfs.Client.WriteBuf.Queue.{
  queue, queue-begin_flush, queue-ack_flush, queue-drop_handle, begin_flush_lem,
}
use quicfs.Client.Mount.{
  Conn, OpenFile, Mount, reopen_flags, send_chunks, drop_append, reopened, ensure_live,
}

pub dropped_bytes :
    (fh : ℕ) (wb : WriteBuffer) → (drop_handle fh wb).1 ≡ chunk_bytes (queue fh wb) % word_mod
unfolding drop_handle queue bytes
dropped_bytes fh wb = elim (Option-cases (lookup fh wb.per_handle)) [
  | inl e ↦ rw (e, drop_handle, queue) refl
  | inr (hb, e) ↦ rw (e, drop_handle, queue) refl
]

pub emptied : (fh : ℕ) (wb : WriteBuffer) → queue fh (drop_handle fh wb).0 ≡ []
emptied fh wb = queue-drop_handle fh wb fh ∙ rw (==_refl fh) refl

module _ (conn : Conn) (fh : ℕ) where
  -- The chunks of the handle were all sent with success, in one batch, to one server handle.
  abbrev pub Delivered : List PendingWrite → Type 0
  Delivered chunks =
      (h : ℕ) × (before : conn.State) × (after : conn.State) × (send_chunks conn h
          (batch_of chunks).chunks before
        ≡ (after, none))

  -- The queue is empty now, and it was delivered, had no bytes in it, or a sticky error tells.
  abbrev pub Settled : Mount conn → Mount conn → Type 0
  Settled m m' =
      (queue fh m'.write_buf ≡ [])
      × ((m'.write_errors fh ≡ true)
          ⊎ (Delivered (queue fh m.write_buf)
              ⊎ (chunk_bytes (queue fh m.write_buf) % word_mod ≡ 0)))

  -- The queue is as before or settled, and a sticky error stays.
  abbrev pub Account : Mount conn → Mount conn → Type 0
  Account m m' =
      ((queue fh m'.write_buf ≡ queue fh m.write_buf) ⊎ Settled m m')
      × (m.write_errors fh ≡ true → m'.write_errors fh ≡ true)

  pub same_Account :
      (m m' : Mount conn)
      → queue fh m'.write_buf ≡ queue fh m.write_buf
      → m'.write_errors ≡ m.write_errors
      → Account m m'
  same_Account m m' q e = (inl q, λ h. rw e h)

  pub then_Account : (m n o : Mount conn) → Account m n → Account n o → Account m o
  then_Account m n o (inl q, keep) (inl r, keep') = (inl (r ∙ q), λ h. keep' (keep h))
  then_Account m n o (inl q, keep) (inr (r, why), keep') =
      (inr (r, rw q at why), λ h. keep' (keep h))
  then_Account m n o (inr (q, inl told), keep) (inl r, keep') =
      (inr (r ∙ q, inl (keep' told)), λ h. keep' (keep h))
  then_Account m n o (inr (q, inr why), keep) (inl r, keep') =
      (inr (r ∙ q, inr why), λ h. keep' (keep h))
  then_Account m n o (inr (q, inl told), keep) (inr (r, why'), keep') =
      (inr (r, inl (keep' told)), λ h. keep' (keep h))
  then_Account m n o (inr (q, inr why), keep) (inr (r, why'), keep') =
      (inr (r, inr why), λ h. keep' (keep h))

  drop_append-Account : (is_append : Bool) (m : Mount conn) → Account m (drop_append fh is_append m)
  unfolding drop_append
  drop_append-Account is_append m = elim (Bool-cases (is_append && has_buffered fh m.write_buf)) [
    | inr e ↦ rw (e, drop_append) (inl refl, λ h. h)
    | inl e ↦ elim (Bool-cases (ltb 0 (drop_handle fh m.write_buf).1)) [
      | inl some_bytes ↦
          rw (e, some_bytes, drop_append)
            (inr (emptied fh m.write_buf, inl (rw (==_refl fh) refl)), λ h. rw (==_refl fh) refl)
      | inr no_bytes ↦
          rw (e, no_bytes, drop_append)
            (
              inr (
                emptied fh m.write_buf,
                inr (inr (ground (arith, no_bytes, dropped_bytes fh m.write_buf))),
              ),
              λ h. h,
            )
    ]
  ]

  reopened_live-Account :
      (file : OpenFile) (cur : ℕ) (opened : conn.State × Option ℕ) (m : Mount conn)
      → Account m (reopened fh file cur opened m).0
  unfolding reopened
  reopened_live-Account file cur (link, none) m = (inl refl, λ h. h)
  reopened_live-Account file cur (link, some h) m =
      let m' : Mount conn = record m {
        open_files = insert fh (record file { server_handle = h; opened_gen = cur }) m.open_files;
        link = link;
      } in
      drop_append-Account file.is_append m'

  pub ensure_live-Account :
      (allow_reopen : Bool) (m : Mount conn) → Account m (ensure_live allow_reopen fh m).0
  unfolding ensure_live
  ensure_live-Account allow_reopen m = elim (Option-cases (lookup fh m.open_files)) [
    | inl e ↦ rw (e, ensure_live) (inl refl, λ h. h)
    | inr (file, e) ↦ elim (Bool-cases (file.opened_gen == conn.reconnect_gen m.link)) [
      | inl same ↦ rw (e, same, ensure_live) (inl refl, λ h. h)
      | inr other ↦ elim (Bool-cases (not allow_reopen)) [
        | inl refuses ↦ rw (e, other, refuses, ensure_live) (inl refl, λ h. h)
        | inr allows ↦
            rw (e, other, allows, ensure_live)
              (reopened_live-Account file (conn.reconnect_gen m.link)
                (conn.open_rpc file.path (reopen_flags file.flags) m.link) m)
      ]
    ]
  ]

  drop-all : (ws : List PendingWrite) → drop (length ws) ws ≡ []
  drop-all [] = refl
  drop-all (w ∷ ws) = drop-all ws

  -- The batch of a flush: of the whole queue, which the start of the flush leaves as it is.
  pub batch_found :
      (wb : WriteBuffer) (batch : FlushBatch)
      → (begin_flush fh wb).1 ≡ some batch
      → batch ≡ batch_of (queue fh wb)
  batch_found wb batch e = ground (arith, begin_flush_lem fh wb)

  pub acknowledged :
      (wb : WriteBuffer) (batch : FlushBatch)
      → (begin_flush fh wb).1 ≡ some batch
      → queue fh (ack_flush fh batch.sent_count (begin_flush fh wb).0) ≡ []
  unfolding batch_of
  acknowledged wb batch e = ground (
    arith,
    batch_found wb batch e,
    queue-begin_flush fh wb fh,
    queue-ack_flush fh batch.sent_count (begin_flush fh wb).0 fh,
    drop-all (queue fh wb),
  )
