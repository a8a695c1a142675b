-- ===== src/Client/WriteBuf.antt =====
-- client/src/writebuf.rs: the coalescing write buffer that keeps a chunk until it is acknowledged.
-- A method that takes `&mut self` returns the new buffer, with its result where it has one; the
-- clock `Instant::now()` is the argument `now`.
pub mod Coalesce
pub mod Valid
pub mod Queue
pub mod Decide
pub mod Flight
pub mod Overlap
use quicfs.Base.{
  ℕ, zero, suc, ◌+◌, ◌-◌, ◌*◌, ◌%◌, ◌^◌, min, Bool, true, false, ◌&&◌, ◌||◌, not, Option, none,
  some, List, [], ◌∷◌, ◌++◌, map, foldl, ltb, leb, ◌==◌, if◌then◌else◌, length, take, drop, Map,
  lookup, insert, without,
}

-- The range of `usize` and of `u64` on the 64-bit targets that the program is built for.
abbrev pub word_mod : ℕ
word_mod = 2 ^ 64

pub record PendingWrite : Type 0 where
  pub offset : ℕ
  pub payload : List ℕ
  pub queued_at : ℕ

pub record HandleBuf : Type 0 where
  pub chunks : List PendingWrite
  pub sending : Bool

-- `HandleBuf::default()`
abbrev pub idle : HandleBuf
idle = record { chunks = []; sending = false }

abbrev pub chunk_bytes : List PendingWrite → ℕ
chunk_bytes [] = 0
chunk_bytes (w ∷ ws) = length w.payload + chunk_bytes ws

unfoldable pub bytes : HandleBuf → ℕ
bytes hb = chunk_bytes hb.chunks % word_mod

pub record WriteBuffer : Type 0 where
  pub per_handle : Map HandleBuf
  pub total_bytes : ℕ
  pub max_per_handle_bytes : ℕ
  pub max_total_bytes : ℕ
  pub hard_total_bytes : ℕ
  pub window : ℕ

-- `saturating_mul(2)` on the hard limit
unfoldable pub new : ℕ → ℕ → ℕ → WriteBuffer
new max_per_handle max_total window_ms = record {
  per_handle = [];
  total_bytes = 0;
  max_per_handle_bytes = max_per_handle;
  max_total_bytes = max_total;
  hard_total_bytes = min (max_total * 2) (word_mod - 1);
  window = window_ms;
}

pub data PushDecision : Type 0 where
  buffered reject : PushDecision
  flush_this flush_other : ℕ → PushDecision

-- `self.per_handle.entry(handle).or_default()`
abbrev pub or_default : Option HandleBuf → HandleBuf
or_default none = idle
or_default (some hb) = hb

-- `iter().max_by_key(|(_, v)| v.bytes())` from a first entry on: the last of the largest.
unfoldable pub max_by_bytes : ℕ → HandleBuf → Map HandleBuf → ℕ × HandleBuf
max_by_bytes h hb [] = (h, hb)
max_by_bytes h hb ((k, v) ∷ m) =
    let keep = ltb (bytes v) (bytes hb) in
    max_by_bytes (if keep then h else k) (if keep then hb else v) m

-- `.map(|(h, _)| *h).unwrap_or(handle)`
unfoldable pub biggest : ℕ → Map HandleBuf → ℕ
unfolding max_by_bytes
biggest handle [] = handle
biggest handle ((k, v) ∷ m) = (max_by_bytes k v m).0

-- The soft limits, tested after the chunk is in.
unfoldable pub decide_flush : ℕ → HandleBuf → WriteBuffer → PushDecision
decide_flush handle entry wb =
    if leb wb.max_per_handle_bytes (bytes entry)
    then flush_this handle
    else if leb wb.max_total_bytes wb.total_bytes
    then flush_other (biggest handle wb.per_handle)
    else buffered

-- `entry.chunks.push(PendingWrite { … })` on the handle's entry
abbrev pub with_chunk : ℕ → ℕ → List ℕ → Option HandleBuf → HandleBuf
with_chunk now offset payload found = record (or_default found) {
  chunks =
      (or_default found).chunks
      ++ record { offset = offset; payload = payload; queued_at = now } ∷ [];
}

-- The buffer with the chunk in it and the bytes counted.
abbrev pub enqueue : ℕ → ℕ → ℕ → List ℕ → WriteBuffer → WriteBuffer
enqueue now handle offset payload wb = record wb {
  per_handle =
      insert handle (with_chunk now offset payload (lookup handle wb.per_handle)) wb.per_handle;
  total_bytes = (wb.total_bytes + length payload) % word_mod;
}

unfoldable pub push : ℕ → ℕ → ℕ → List ℕ → WriteBuffer → WriteBuffer × PushDecision
push now handle offset payload wb =
    if ltb wb.hard_total_bytes ((wb.total_bytes + length payload) % word_mod)
    then (wb, reject)
    else (
      enqueue now handle offset payload wb,
      decide_flush handle (with_chunk now offset payload (lookup handle wb.per_handle))
          (enqueue now handle offset payload wb),
    )

-- The `(offset, data)` pairs of a batch.
abbrev pub Run : Type 0
Run = ℕ × List ℕ

-- `pairs.sort_by_key(|(off, _)| *off)`, which is stable.
unfoldable pub insert_run : Run → List Run → List Run
insert_run p [] = p ∷ []
insert_run p (q ∷ qs) = if leb p.0 q.0 then p ∷ q ∷ qs else q ∷ insert_run p qs

unfoldable pub sort_runs : List Run → List Run
unfolding insert_run
sort_runs [] = []
sort_runs (p ∷ ps) = insert_run p (sort_runs ps)

-- One round of the loop over the sorted pairs: extend the last run of `merged`, or push a new one.
unfoldable pub append_run : List Run → Run → List Run
append_run [] p = p ∷ []
append_run (q ∷ []) p =
    if (q.0 + length q.1) % word_mod == p.0 then (q.0, q.1 ++ p.1) ∷ [] else q ∷ p ∷ []
append_run (q ∷ r ∷ rs) p = q ∷ append_run (r ∷ rs) p

unfoldable pub coalesce : List Run → List Run
unfolding append_run
coalesce ps = foldl append_run [] ps

pub record FlushBatch : Type 0 where
  pub chunks : List Run
  pub sent_count : ℕ

abbrev pub runs : List PendingWrite → List Run
runs = map (λ w. (w.offset, w.payload))

abbrev pub is_empty : List PendingWrite → Bool
is_empty [] = true
is_empty (w ∷ ws) = false

unfoldable pub batch_of : List PendingWrite → FlushBatch
unfolding sort_runs coalesce
batch_of ws = record { chunks = coalesce (sort_runs (runs ws)); sent_count = length ws }

unfoldable pub begin_flush : ℕ → WriteBuffer → WriteBuffer × Option FlushBatch
begin_flush handle wb = elim (lookup handle wb.per_handle) [
  | none ↦ (wb, none)
  | some hb ↦ if hb.sending || is_empty hb.chunks then (wb, none) else (
    record wb { per_handle = insert handle (record hb { sending = true }) wb.per_handle },
    some (batch_of hb.chunks),
  )
]

unfoldable pub ack_flush : ℕ → ℕ → WriteBuffer → WriteBuffer
ack_flush handle sent_count wb = elim (lookup handle wb.per_handle) [
  | none ↦ wb
  | some hb ↦
      let n : ℕ = min sent_count (length hb.chunks) in
      let removed : ℕ = chunk_bytes (take n hb.chunks) % word_mod in
      let kept : List PendingWrite = drop n hb.chunks in
      record wb {
        per_handle =
            if is_empty kept
            then without handle wb.per_handle
            else insert handle (record { chunks = kept; sending = false }) wb.per_handle;
        total_bytes = wb.total_bytes - removed;
      }
]

unfoldable pub fail_flush : ℕ → WriteBuffer → WriteBuffer
fail_flush handle wb = elim (lookup handle wb.per_handle) [
  | none ↦ wb
  | some hb ↦ record wb { per_handle = insert handle (record hb { sending = false }) wb.per_handle }
]

unfoldable pub drop_handle : ℕ → WriteBuffer → WriteBuffer × ℕ
drop_handle handle wb = elim (lookup handle wb.per_handle) [
  | none ↦ (wb, 0)
  | some hb ↦ (
    record wb {
      per_handle = without handle wb.per_handle;
      total_bytes = wb.total_bytes - bytes hb;
    },
    bytes hb,
  )
]

-- `now.duration_since(w.queued_at) >= deadline` for the oldest chunk
abbrev pub is_older : ℕ → ℕ → List PendingWrite → Bool
is_older now deadline [] = false
is_older now deadline (w ∷ ws) = leb deadline (now - w.queued_at)

unfoldable pub older_in : ℕ → ℕ → Map HandleBuf → List ℕ
older_in now deadline [] = []
older_in now deadline ((h, hb) ∷ m) =
    let rest = older_in now deadline m in if is_older now deadline hb.chunks then h ∷ rest else rest

unfoldable pub older_than : ℕ → ℕ → WriteBuffer → List ℕ
unfolding older_in
older_than now deadline wb = older_in now deadline wb.per_handle

unfoldable pub expired_handles : ℕ → WriteBuffer → List ℕ
unfolding older_than
expired_handles now wb = older_than now wb.window wb

unfoldable pub handles : WriteBuffer → List ℕ
handles wb = map (λ e. e.0) wb.per_handle

unfoldable pub has_buffered : ℕ → WriteBuffer → Bool
has_buffered handle wb = elim (lookup handle wb.per_handle) [
  | none ↦ false
  | some hb ↦ not (is_empty hb.chunks)
]
