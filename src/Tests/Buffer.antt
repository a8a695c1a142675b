-- ===== src/Tests/Buffer.antt =====
-- client/src/writebuf.rs on one handle with a few small chunks.
use quicfs.Base.{
  ℕ, ◌+◌, ◌-◌, ◌<◌, ◌^◌, ◌≡◌, ◌≢◌, refl, Bool, true, false, none, some, List, [], ◌∷◌, ◌++◌, arith,
  length, All, inl, inr, get_or,
}
use quicfs.File.{empty}
use quicfs.Client.WriteBuf.{
  WriteBuffer, PendingWrite, FlushBatch, runs, new, push, begin_flush, ack_flush, fail_flush,
  batch_of,
}
use quicfs.Client.WriteBuf.Coalesce.{Fits, Replayable, replay, replay-batch_of}
use quicfs.Client.WriteBuf.Queue.{queue, in_flight}
use quicfs.Client.WriteBuf.Flight.{
  Call, push_chunk, begin, run, arrivals, keep_until_ack, flush_replay, retry_resends,
}
use quicfs.Client.WriteBuf.Overlap.{wrote, flush_reorders_overlap}
use quicfs.Client.WriteBuf.Valid.{IsValid, total_bytes_exact}
use quicfs.Client.WriteBuf.Decide.{Justified, push-Justified}

abbrev two_writes : List Call
two_writes = push_chunk 0 1 4 (7 ∷ 8 ∷ []) ∷ push_chunk 1 1 0 (3 ∷ 4 ∷ []) ∷ []

fresh_IsValid : IsValid (run two_writes (new 100 1000 50))
fresh_IsValid =
    total_bytes_exact 100 1000 50 two_writes (omega arith) (omega arith, (omega arith, tt))

total_bytes_exact_example : IsValid (run two_writes (new 100 1000 50))
total_bytes_exact_example =
    total_bytes_exact 100 1000 50 two_writes (omega arith) (omega arith, (omega arith, tt))

push-Justified_example :
    Justified
      (run two_writes (new 100 1000 50))
      (push 2 1 9 (5 ∷ []) (run two_writes (new 100 1000 50))).0
      1
      1
      (push 2 1 9 (5 ∷ []) (run two_writes (new 100 1000 50))).1
push-Justified_example =
    push-Justified 2 1 9 (5 ∷ []) (run two_writes (new 100 1000 50)) fresh_IsValid (omega arith)

abbrev waiting : List PendingWrite
waiting =
    record { offset = 4; payload = 7 ∷ 8 ∷ []; queued_at = 0 }
    ∷ record { offset = 0; payload = 3 ∷ 4 ∷ []; queued_at = 1 }
    ∷ []

abbrev pub filled : WriteBuffer
filled = record {
  per_handle = (1, record { chunks = waiting; sending = false }) ∷ [];
  total_bytes = 4;
  max_per_handle_bytes = 100;
  max_total_bytes = 1000;
  hard_total_bytes = 2000;
  window = 50;
}

fits : All Fits (runs waiting)
fits = (omega arith, (omega arith, tt))

replayable : Replayable (runs waiting)
replayable = ((inr (omega arith), tt), (tt, tt))

replay-batch_of_example : replay (batch_of waiting).chunks empty ≡ replay (runs waiting) empty
replay-batch_of_example = replay-batch_of waiting empty fits replayable

begins : (begin_flush 1 filled).1 ≡ some (batch_of waiting)
unfolding begin_flush batch_of quicfs.Base.lookup
begins = refl

keep_until_ack_example :
    queue 1 (ack_flush 1 (batch_of waiting).sent_count (run two_writes (begin_flush 1 filled).0))
    ≡ arrivals 1 two_writes (begin_flush 1 filled).0
keep_until_ack_example = keep_until_ack 1 filled (batch_of waiting) begins two_writes (tt, (tt, tt))

waits : queue 1 filled ≡ waiting
unfolding queue quicfs.Base.lookup
waits = refl

waits-ne-nil : queue 1 filled ≢ []
waits-ne-nil = λ e. cc (rw waits at e)

retry_resends_example :
    (begin_flush 1 (fail_flush 1 (run (begin 1 ∷ two_writes) filled))).1
    ≡ some (batch_of (queue 1 filled ++ arrivals 1 (begin 1 ∷ two_writes) filled))
retry_resends_example =
    retry_resends 1 (begin 1 ∷ two_writes) filled (tt, (tt, (tt, tt))) waits-ne-nil

-- A write of four bytes at 2 after one at 4.
abbrev overlapping : WriteBuffer
overlapping = record filled {
  per_handle =
      (1, record { chunks = wrote 0 4 7 [] 1 2 (1 ∷ 2 ∷ 3 ∷ 4 ∷ []); sending = false }) ∷ [];
}

overlaps : queue 1 overlapping ≡ wrote 0 4 7 [] 1 2 (1 ∷ 2 ∷ 3 ∷ 4 ∷ [])
unfolding queue quicfs.Base.lookup
overlaps = refl

rests : in_flight 1 overlapping ≡ false
unfolding in_flight quicfs.Base.lookup
rests = refl

flush_reorders_overlap_example :
    (batch : FlushBatch) × ((begin_flush 1 overlapping).1 ≡ some batch)
    × ((replay batch.chunks empty).byte 4 ≡ 7)
    × ((replay (runs (queue 1 overlapping)) empty).byte 4 ≡ get_or (1 ∷ 2 ∷ 3 ∷ 4 ∷ []) (4 - 2) 0)
flush_reorders_overlap_example =
    flush_reorders_overlap 0 4 7 [] 1 2 (1 ∷ 2 ∷ 3 ∷ 4 ∷ []) empty (omega arith) (omega arith)
      (omega arith) 1 overlapping overlaps rests

flush_replay_example : replay (batch_of waiting).chunks empty ≡ replay (runs (queue 1 filled)) empty
flush_replay_example =
    flush_replay 1 filled (batch_of waiting) begins empty (rw waits fits) (rw waits replayable)
