-- ===== src/Client/WriteBuf/Flight.antt =====
-- client/src/writebuf.rs over runs of its methods: what a flush sends, and what an acknowledgement
-- leaves behind.
use quicfs.Base.{
  ℕ, ◌≡◌, ◌≢◌, refl, sym, ap, ◌∙◌, false, some, List, [], ◌∷◌, ◌++◌, append_assoc, append-nil,
  arith, ◌==◌, if◌then◌else◌, drop-append, All,
}
use quicfs.File.{File}
use quicfs.Client.WriteBuf.{
  WriteBuffer, PendingWrite, FlushBatch, runs, push, begin_flush, ack_flush, fail_flush,
  drop_handle, batch_of, is_empty,
}
use quicfs.Client.WriteBuf.Coalesce.{Fits, Replayable, replay, replay-batch_of}
use quicfs.Client.WriteBuf.Queue.{
  queue, accepted, queue-push, queue-begin_flush, queue-fail_flush, queue-ack_flush,
  queue-drop_handle, begin_flush_lem, in_flight-fail_flush,
}

-- A call of a method that changes the buffer.
pub data Call : Type 0 where
  push_chunk : ℕ → ℕ → ℕ → List ℕ → Call
  begin fail discard : ℕ → Call
  ack : ℕ → ℕ → Call

unfoldable pub step : Call → WriteBuffer → WriteBuffer
step (push_chunk now h offset payload) wb = (push now h offset payload wb).0
step (begin h) wb = (begin_flush h wb).0
step (fail h) wb = fail_flush h wb
step (discard h) wb = (drop_handle h wb).0
step (ack h n) wb = ack_flush h n wb

unfoldable pub run : List Call → WriteBuffer → WriteBuffer
unfolding step
run [] wb = wb
run (c ∷ cs) wb = run cs (step c wb)

-- What one call adds to the queue of `h`: the chunk of an accepted push.
unfoldable pub arrival : ℕ → Call → WriteBuffer → List PendingWrite
arrival h (push_chunk now k offset payload) wb =
    if k == h
    then (if accepted (push now k offset payload wb).1
        then record { offset = offset; payload = payload; queued_at = now } ∷ []
        else [])
    else []
arrival h (begin k) wb = []
arrival h (fail k) wb = []
arrival h (discard k) wb = []
arrival h (ack k n) wb = []

unfoldable pub arrivals : ℕ → List Call → WriteBuffer → List PendingWrite
unfolding step arrival
arrivals h [] wb = []
arrivals h (c ∷ cs) wb = arrival h c wb ++ arrivals h cs (step c wb)

-- The call is neither an acknowledgement nor a discard of `h`.
abbrev pub Spares : ℕ → Call → Type 0
Spares h (push_chunk now k offset payload) = Unit
Spares h (begin k) = Unit
Spares h (fail k) = Unit
Spares h (discard k) = k ≢ h
Spares h (ack k n) = k ≢ h

queue-step :
    (h : ℕ) (c : Call) (wb : WriteBuffer)
    → Spares h c
    → queue h (step c wb) ≡ queue h wb ++ arrival h c wb
unfolding step arrival
queue-step h (push_chunk now k offset payload) wb s =
    ground (arith, queue-push now k offset payload wb h, append-nil (queue h wb))
queue-step h (begin k) wb s = queue-begin_flush k wb h ∙ sym (append-nil (queue h wb))
queue-step h (fail k) wb s = queue-fail_flush k wb h ∙ sym (append-nil (queue h wb))
queue-step h (discard k) wb s = ground (arith, queue-drop_handle k wb h, append-nil (queue h wb))
queue-step h (ack k n) wb s = ground (arith, queue-ack_flush k n wb h, append-nil (queue h wb))

-- Through any calls that spare the handle, failed flushes included, its queue only grows, by the
-- chunks of its accepted pushes and in their order.
pub queue-run :
    (h : ℕ) (cs : List Call) (wb : WriteBuffer)
    → All (Spares h) cs
    → queue h (run cs wb) ≡ queue h wb ++ arrivals h cs wb
unfolding run arrivals
queue-run h [] wb s = sym (append-nil (queue h wb))
queue-run h (c ∷ cs) wb s =
    queue-run h cs (step c wb) s.1
    ∙ ap (λ (q : List PendingWrite). q ++ arrivals h cs (step c wb)) (queue-step h c wb s.0)
    ∙ append_assoc (queue h wb) (arrival h c wb) (arrivals h cs (step c wb))

module _ (h : ℕ) (wb : WriteBuffer) (b : FlushBatch) (begun : (begin_flush h wb).1 ≡ some b) where
  batch-begin_flush : b ≡ batch_of (queue h wb)
  batch-begin_flush = ground (arith, begin_flush_lem h wb)

  -- The flush is acknowledged after any calls that spare the handle: what is left in its queue is
  -- exactly the chunks that were pushed and accepted since the flush began.
  pub keep_until_ack :
      (cs : List Call)
      → All (Spares h) cs
      → queue h (ack_flush h b.sent_count (run cs (begin_flush h wb).0))
        ≡ arrivals h cs (begin_flush h wb).0
  unfolding batch_of
  keep_until_ack cs s =
      let later : List PendingWrite = arrivals h cs (begin_flush h wb).0 in
      let all : queue h (run cs (begin_flush h wb).0) ≡ queue h wb ++ later =
        queue-run h cs (begin_flush h wb).0 s
        ∙ ap (λ (q : List PendingWrite). q ++ later) (queue-begin_flush h wb h) in
      ground (
        arith,
        all,
        batch-begin_flush,
        queue-ack_flush h b.sent_count (run cs (begin_flush h wb).0) h,
        drop-append (queue h wb) later,
      )

  -- The batch leaves in the file what the queued chunks leave when they are written in the order in
  -- which they were pushed, where no chunk meets an earlier one that begins behind it.
  pub flush_replay :
      (f : File)
      → All Fits (runs (queue h wb))
      → Replayable (runs (queue h wb))
      → replay b.chunks f ≡ replay (runs (queue h wb)) f
  flush_replay f fits r = rw batch-begin_flush (replay-batch_of (queue h wb) f fits r)

is_empty-append : (q l : List PendingWrite) → q ≢ [] → is_empty (q ++ l) ≡ false
is_empty-append [] l h = absurd (h refl)
is_empty-append (w ∷ q) l h = refl

-- A retry loses nothing: after a failed flush and any calls that spare the handle, the next flush
-- sends the batch of the chunks that were queued at first and those pushed since.
pub retry_resends :
    (h : ℕ) (cs : List Call) (wb : WriteBuffer)
    → All (Spares h) cs
    → queue h wb ≢ []
    → (begin_flush h (fail_flush h (run cs wb))).1
      ≡ some (batch_of (queue h wb ++ arrivals h cs wb))
retry_resends h cs wb s ne = ground (
  arith,
  begin_flush_lem h (fail_flush h (run cs wb)),
  in_flight-fail_flush h (run cs wb),
  queue-fail_flush h (run cs wb) h,
  queue-run h cs wb s,
  is_empty-append (queue h wb) (arrivals h cs wb) ne,
)
