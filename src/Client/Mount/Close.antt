-- ===== src/Client/Mount/Close.antt =====
-- client/src/fuse_ops.rs: what a successful close means.
use quicfs.Base.{
  ℕ, zero, suc, ◌%◌, ◌≡◌, refl, sym, ◌∙◌, ◌⊎◌, inl, inr, String, Bool, true, false, not, Option,
  none, some, List, [], ◌∷◌, ==_refl, lookup, Bool-cases, Option-cases,
}
use quicfs.Client.Errno.{flush_reply-ok}
use quicfs.Client.WriteBuf.{
  WriteBuffer, PendingWrite, FlushBatch, chunk_bytes, word_mod, begin_flush, has_buffered, is_empty,
}
use quicfs.Client.WriteBuf.Queue.{queue, queue-begin_flush, queue-fail_flush}
use quicfs.Client.Mount.{
  Conn, Mount, Attempt, finished, stopped, again, send_chunks, appends, as_errno, ensure_live, sent,
  flush_live, attempt, flush_one, drain, flush_handle_drain, flush,
}
use quicfs.Client.Mount.Account.{
  Delivered, Account, then_Account, ensure_live-Account, batch_found, acknowledged, emptied,
}

no_chunks : (ws : List PendingWrite) → not (is_empty ws) ≡ false → ws ≡ []
no_chunks [] h = refl
no_chunks (w ∷ ws) h = absurd (cc)

module _ (conn : Conn) (fh : ℕ) where
  -- What follows the sends of a batch accounts for the queue.
  sent-Account :
      (allow_reopen : Bool) (gen h : ℕ) (batch : FlushBatch) (m : Mount conn)
      (result : conn.State × Option String)
      → (begin_flush fh m.write_buf).1 ≡ some batch
      → send_chunks conn h batch.chunks m.link ≡ result
      → Account conn fh m
          (sent allow_reopen fh gen batch result
            (record m { write_buf = (begin_flush fh m.write_buf).0 })).0
  unfolding sent
  sent-Account allow_reopen gen h batch m (link, none) e s = (
    inr (
      acknowledged conn fh m.write_buf batch e,
      inr (inl (h, m.link, link, rw (batch_found conn fh m.write_buf batch e) at s)),
    ),
    λ k. k,
  )
  sent-Account allow_reopen gen h batch m (link, some x) e s =
      elim (Bool-cases (appends (lookup fh m.open_files))) [
        | inl a ↦
            rw (a, sent)
              (
                inr (emptied fh (begin_flush fh m.write_buf).0, inl (rw (==_refl fh) refl)),
                λ k. rw (==_refl fh) refl,
              )
        | inr a ↦
            rw (a, sent)
              (
                inl (
                    queue-fail_flush fh (begin_flush fh m.write_buf).0 fh
                    ∙ queue-begin_flush fh m.write_buf fh),
                λ k. k,
              )
      ]

  flush_live-Account :
      (allow_reopen : Bool) (m : Mount conn) (live : Option ℕ)
      → Account conn fh m (flush_live allow_reopen fh (m, live)).0
  unfolding flush_live
  flush_live-Account allow_reopen m none = (inl refl, λ h. h)
  flush_live-Account allow_reopen m (some h) = elim (Option-cases (begin_flush fh m.write_buf).1) [
    | inl e ↦ rw (e, flush_live) (inl refl, λ k. k)
    | inr (batch, e) ↦
        rw (e, flush_live)
          (sent-Account allow_reopen (conn.reconnect_gen m.link) h batch m
            (send_chunks conn h batch.chunks m.link) e refl)
  ]

  attempt-Account :
      (allow_reopen : Bool) (m : Mount conn) → Account conn fh m (attempt allow_reopen fh m).0
  unfolding attempt
  attempt-Account allow_reopen m =
      let live : Mount conn × Option ℕ = ensure_live allow_reopen fh m in
      then_Account conn fh m live.0 (flush_live allow_reopen fh live).0
        (ensure_live-Account conn fh allow_reopen m) (flush_live-Account allow_reopen live.0 live.1)

  pub Attempt-cases :
      (a : Attempt)
      → (a ≡ finished) ⊎ (((e : String) × (a ≡ stopped e)) ⊎ ((e : String) × (a ≡ again e)))
  Attempt-cases finished = inl refl
  Attempt-cases (stopped e) = inr (inl (e, refl))
  Attempt-cases (again e) = inr (inr (e, refl))

  pub flush_one-Account :
      (allow_reopen : Bool) (m : Mount conn) → Account conn fh m (flush_one allow_reopen fh m).0
  unfolding flush_one
  flush_one-Account allow_reopen m = elim (Attempt-cases (attempt allow_reopen fh m).1) [
    | inl e ↦ rw (e, flush_one) (attempt-Account allow_reopen m)
    | inr (inl (x, e)) ↦ rw (e, flush_one) (attempt-Account allow_reopen m)
    | inr (inr (x, e)) ↦
        rw (e, flush_one)
          (then_Account conn fh m (attempt allow_reopen fh m).0
            (attempt allow_reopen fh (attempt allow_reopen fh m).0).0
            (attempt-Account allow_reopen m)
            (attempt-Account allow_reopen (attempt allow_reopen fh m).0))
  ]

  -- The drain accounts for the queue, and it returns without an error only if the queue is empty.
  drain-Account :
      (rounds : ℕ) (m : Mount conn)
      → Account conn fh m (drain rounds fh m).0
        × ((drain rounds fh m).1 ≡ none → has_buffered fh (drain rounds fh m).0.write_buf ≡ false)
  unfolding drain
  drain-Account zero m = ((inl refl, λ h. h), λ h. absurd (cc))
  drain-Account (suc rounds) m =
      let once : Mount conn = (flush_one true fh m).0 in
      let first : Account conn fh m once = flush_one-Account true m in
      elim (Option-cases (flush_one true fh m).1) [
        | inr (x, e) ↦ rw (e, drain) (first, λ h. absurd (cc))
        | inl e ↦ elim (Bool-cases (has_buffered fh once.write_buf)) [
          | inr empty ↦ rw (e, empty, drain) (first, λ h. empty)
          | inl more ↦
              let later = drain-Account rounds once in
              rw (e, more, drain)
                (then_Account conn fh m once (drain rounds fh once).0 first later.0, later.1)
        ]
      ]

  not_buffered : (wb : WriteBuffer) → has_buffered fh wb ≡ false → queue fh wb ≡ []
  unfolding has_buffered queue
  not_buffered wb h = elim (Option-cases (lookup fh wb.per_handle)) [
    | inl e ↦ rw (e, queue) refl
    | inr (hb, e) ↦ rw (e, queue) (no_chunks hb.chunks (rw (e, has_buffered) at h))
  ]

  no_errno : (o : Option String) → as_errno o ≡ none → o ≡ none
  no_errno none h = refl
  no_errno (some e) h = absurd (cc)

  why_empty :
      (m m' : Mount conn)
      → Account conn fh m m'
      → queue fh m'.write_buf ≡ []
      → m'.write_errors fh ≡ false
      → (queue fh m.write_buf ≡ [])
        ⊎ (Delivered conn fh (queue fh m.write_buf)
            ⊎ (chunk_bytes (queue fh m.write_buf) % word_mod ≡ 0))
  why_empty m m' (inl q, keep) e quiet = inl (sym q ∙ e)
  why_empty m m' (inr (q, inl told), keep) e quiet = absurd (cc)
  why_empty m m' (inr (q, inr why), keep) e quiet = inr why

  -- A close that is answered with success has lost nothing, with no other flush of the handle running
  -- meanwhile: nothing is buffered for it any more, and what was buffered before the close was
  -- nothing, or had no bytes in it, or was sent as one batch whose every write was answered with
  -- success by the server. So a chunk that could not be sent makes the close fail.
  pub flush_reported :
      (m : Mount conn)
      → (flush fh m).1 ≡ none
      → (queue fh (flush fh m).0.write_buf ≡ [])
        × ((queue fh m.write_buf ≡ [])
            ⊎ (Delivered conn fh (queue fh m.write_buf)
                ⊎ (chunk_bytes (queue fh m.write_buf) % word_mod ≡ 0)))
  unfolding flush flush_handle_drain
  flush_reported m h =
      let m' : Mount conn = (drain 500 fh m).0 in
      let (fine, quiet) = flush_reply-ok (as_errno (drain 500 fh m).1) (m'.write_errors fh) h in
      let (account, drained) = drain-Account 500 m in
      let empty : queue fh m'.write_buf ≡ [] =
        not_buffered m'.write_buf (drained (no_errno (drain 500 fh m).1 fine)) in
      (empty, why_empty m m' account empty quiet)
