-- ===== src/Client/WriteBuf/Overlap.antt =====
-- client/src/writebuf.rs, `begin_flush`, on chunks that overlap: the sort by offset can move a later
-- write in front of an earlier one.
use quicfs.Base.{ℕ, ◌+◌, ◌-◌, ◌<◌, ◌≡◌, refl, some, List, [], ◌∷◌, arith, length, get_or, false}
use quicfs.File.{File, write, byte-write}
use quicfs.Client.WriteBuf.{
  WriteBuffer, PendingWrite, FlushBatch, runs, word_mod, sort_runs, coalesce, batch_of, begin_flush,
}
use quicfs.Client.WriteBuf.Queue.{queue, in_flight, begin_flush_lem}
use quicfs.Client.WriteBuf.Coalesce.{replay}

-- The queue of a handle that wrote `y ∷ ys` at `b` and then `xs` at `a`.
abbrev pub wrote : ℕ → ℕ → ℕ → List ℕ → ℕ → ℕ → List ℕ → List PendingWrite
wrote t b y ys u a xs =
    record { offset = b; payload = y ∷ ys; queued_at = t }
    ∷ record { offset = a; payload = xs; queued_at = u }
    ∷ []

get_or_self : (y b : ℕ) (ys : List ℕ) → get_or (y ∷ ys) (b - b) 0 ≡ y
get_or_self y b ys = let e : b - b ≡ 0 = omega arith in rw e refl

module _ (t b y : ℕ) (ys : List ℕ) (u a : ℕ) (xs : List ℕ) (f : File) (behind : a < b)
    (meets : b < a + length xs) (fits : a + length xs < word_mod) where
  batch_overlap : (batch_of (wrote t b y ys u a xs)).chunks ≡ (a, xs) ∷ (b, y ∷ ys) ∷ []
  unfolding batch_of sort_runs coalesce
  batch_overlap = ground arith

  -- A write at `b` and then one that begins in front of it and reaches over it: written in order,
  -- the file holds the later write's byte at `b`; after the flush, it holds the earlier one's.
  pub flush_reorders_overlap :
      (h : ℕ) (wb : WriteBuffer)
      → queue h wb ≡ wrote t b y ys u a xs
      → in_flight h wb ≡ false
      → (batch : FlushBatch) × ((begin_flush h wb).1 ≡ some batch)
        × ((replay batch.chunks f).byte b ≡ y)
        × ((replay (runs (queue h wb)) f).byte b ≡ get_or xs (b - a) 0)
  unfolding replay
  flush_reorders_overlap h wb q idle = (
    batch_of (queue h wb),
    ground (arith, begin_flush_lem h wb, q, idle),
    rw (q, batch_overlap)
        (ground (arith, byte-write b (y ∷ ys) (write a xs f) b, get_or_self y b ys)),
    rw q (ground (arith, byte-write a xs (write b (y ∷ ys) f) b)),
  )
