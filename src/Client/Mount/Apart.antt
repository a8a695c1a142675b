-- ===== src/Client/Mount/Apart.antt =====
-- client/src/fuse_ops.rs: a flush of one handle leaves the chunks and the errors of the others alone.
use quicfs.Base.{
  ℕ, ◌≡◌, refl, ◌∙◌, inl, inr, String, Bool, false, ◌&&◌, not, Option, none, some, ltb, ◌==◌,
  lookup, insert, Bool-cases, Option-cases,
}
use quicfs.Client.WriteBuf.{FlushBatch, begin_flush, drop_handle, has_buffered}
use quicfs.Client.WriteBuf.Queue.{
  queue, queue-begin_flush, queue-ack_flush, queue-fail_flush, queue-drop_handle,
}
use quicfs.Client.Mount.{
  Conn, OpenFile, Mount, reopen_flags, send_chunks, appends, drop_append, reopened, ensure_live,
  sent, flush_live, attempt, flush_one,
}
use quicfs.Client.Mount.Close.{Attempt-cases}

module _ (conn : Conn) (fh k : ℕ) (apart : (fh == k) ≡ false) where
  abbrev pub Kept : Mount conn → Mount conn → Type 0
  Kept m m' = (queue k m'.write_buf ≡ queue k m.write_buf) × (m'.write_errors k ≡ m.write_errors k)

  then_Kept : (m n o : Mount conn) → Kept m n → Kept n o → Kept m o
  then_Kept m n o (q, e) (q', e') = (q' ∙ q, e' ∙ e)

  queue-dropped : (m : Mount conn) → queue k (drop_handle fh m.write_buf).0 ≡ queue k m.write_buf
  queue-dropped m = queue-drop_handle fh m.write_buf k ∙ rw apart refl

  drop_append-Kept : (is_append : Bool) (m : Mount conn) → Kept m (drop_append fh is_append m)
  unfolding drop_append
  drop_append-Kept is_append m = elim (Bool-cases (is_append && has_buffered fh m.write_buf)) [
    | inr e ↦ rw (e, drop_append) (refl, refl)
    | inl e ↦ elim (Bool-cases (ltb 0 (drop_handle fh m.write_buf).1)) [
      | inl some_bytes ↦ rw (e, some_bytes, drop_append) (queue-dropped m, rw apart refl)
      | inr no_bytes ↦ rw (e, no_bytes, drop_append) (queue-dropped m, refl)
    ]
  ]

  reopened-Kept :
      (file : OpenFile) (cur : ℕ) (opened : conn.State × Option ℕ) (m : Mount conn)
      → Kept m (reopened fh file cur opened m).0
  unfolding reopened
  reopened-Kept file cur (link, none) m = (refl, refl)
  reopened-Kept file cur (link, some h) m = drop_append-Kept file.is_append (record m {
    open_files = insert fh (record file { server_handle = h; opened_gen = cur }) m.open_files;
    link = link;
  })

  ensure_live-Kept :
      (allow_reopen : Bool) (m : Mount conn) → Kept m (ensure_live allow_reopen fh m).0
  unfolding ensure_live
  ensure_live-Kept allow_reopen m = elim (Option-cases (lookup fh m.open_files)) [
    | inl e ↦ rw (e, ensure_live) (refl, refl)
    | inr (file, e) ↦ elim (Bool-cases (file.opened_gen == conn.reconnect_gen m.link)) [
      | inl same ↦ rw (e, same, ensure_live) (refl, refl)
      | inr other ↦ elim (Bool-cases (not allow_reopen)) [
        | inl refuses ↦ rw (e, other, refuses, ensure_live) (refl, refl)
        | inr allows ↦
            rw (e, other, allows, ensure_live)
              (reopened-Kept file (conn.reconnect_gen m.link)
                (conn.open_rpc file.path (reopen_flags file.flags) m.link) m)
      ]
    ]
  ]

  sent-Kept :
      (allow_reopen : Bool) (gen : ℕ) (batch : FlushBatch) (result : conn.State × Option String)
      (m : Mount conn)
      → Kept m (sent allow_reopen fh gen batch result m).0
  unfolding sent
  sent-Kept allow_reopen gen batch (link, none) m =
      (queue-ack_flush fh batch.sent_count m.write_buf k ∙ rw apart refl, refl)
  sent-Kept allow_reopen gen batch (link, some x) m =
      elim (Bool-cases (appends (lookup fh m.open_files))) [
        | inl a ↦ rw (a, sent) (queue-dropped m, rw apart refl)
        | inr a ↦ rw (a, sent) (queue-fail_flush fh m.write_buf k, refl)
      ]

  flush_live-Kept :
      (allow_reopen : Bool) (m : Mount conn) (live : Option ℕ)
      → Kept m (flush_live allow_reopen fh (m, live)).0
  unfolding flush_live
  flush_live-Kept allow_reopen m none = (refl, refl)
  flush_live-Kept allow_reopen m (some h) = elim (Option-cases (begin_flush fh m.write_buf).1) [
    | inl e ↦ rw (e, flush_live) (refl, refl)
    | inr (batch, e) ↦
        let begun : Mount conn = record m { write_buf = (begin_flush fh m.write_buf).0 } in
        let result = send_chunks conn h batch.chunks m.link in
        rw (e, flush_live)
          (then_Kept m begun (sent allow_reopen fh (conn.reconnect_gen m.link) batch result begun).0
            (queue-begin_flush fh m.write_buf k, refl)
            (sent-Kept allow_reopen (conn.reconnect_gen m.link) batch result begun))
  ]

  attempt-Kept : (allow_reopen : Bool) (m : Mount conn) → Kept m (attempt allow_reopen fh m).0
  unfolding attempt
  attempt-Kept allow_reopen m =
      let live : Mount conn × Option ℕ = ensure_live allow_reopen fh m in
      then_Kept m live.0 (flush_live allow_reopen fh live).0 (ensure_live-Kept allow_reopen m)
        (flush_live-Kept allow_reopen live.0 live.1)

  pub flush_one-Kept :
      (allow_reopen : Bool) (m : Mount conn) → Kept m (flush_one allow_reopen fh m).0
  unfolding flush_one
  flush_one-Kept allow_reopen m =
      let once : Mount conn = (attempt allow_reopen fh m).0 in
      elim (Attempt-cases conn fh (attempt allow_reopen fh m).1) [
        | inl e ↦ rw (e, flush_one) (attempt-Kept allow_reopen m)
        | inr (inl (x, e)) ↦ rw (e, flush_one) (attempt-Kept allow_reopen m)
        | inr (inr (x, e)) ↦
            rw (e, flush_one)
              (then_Kept m once (attempt allow_reopen fh once).0 (attempt-Kept allow_reopen m)
                (attempt-Kept allow_reopen once))
      ]
