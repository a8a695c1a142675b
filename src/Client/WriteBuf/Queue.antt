-- ===== src/Client/WriteBuf/Queue.antt =====
-- client/src/writebuf.rs as its callers see it: a queue of chunks for each handle, to which each
-- method does one simple thing.
use quicfs.Base.{
  ℕ, zero, suc, min, ◌≡◌, refl, Bool, true, false, ◌||◌, not, inl, inr, none, some, List, [], ◌∷◌,
  ◌++◌, arith, ◌==◌, if◌then◌else◌, length, drop, lookup, lookup-insert, lookup-without,
  Option-cases,
}
use quicfs.Client.WriteBuf.{
  WriteBuffer, PendingWrite, HandleBuf, PushDecision, buffered, reject, flush_this, flush_other,
  or_default, with_chunk, enqueue, is_empty, push, begin_flush, ack_flush, fail_flush, drop_handle,
  decide_flush, batch_of,
}

-- The chunks that wait for the handle, oldest first.
unfoldable pub queue : ℕ → WriteBuffer → List PendingWrite
queue k wb = (or_default (lookup k wb.per_handle)).chunks

-- A flush of the handle is in flight.
unfoldable pub in_flight : ℕ → WriteBuffer → Bool
in_flight k wb = (or_default (lookup k wb.per_handle)).sending

abbrev pub accepted : PushDecision → Bool
accepted reject = false
accepted buffered = true
accepted (flush_this h) = true
accepted (flush_other h) = true

decide_flush-accepted :
    (h : ℕ) (e : HandleBuf) (wb : WriteBuffer) → accepted (decide_flush h e wb) ≡ true
unfolding decide_flush
decide_flush-accepted h e wb = ground arith

-- A push appends its chunk to its own handle's queue, unless it is refused; other queues stay.
pub queue-push :
    (now handle offset : ℕ) (payload : List ℕ) (wb : WriteBuffer) (k : ℕ)
    → queue k (push now handle offset payload wb).0 ≡ (
        if accepted (push now handle offset payload wb).1
        then (if handle == k
            then queue k wb ++ record { offset = offset; payload = payload; queued_at = now } ∷ []
            else queue k wb)
        else queue k wb)
unfolding push queue
queue-push now handle offset payload wb k =
    let e : HandleBuf = with_chunk now offset payload (lookup handle wb.per_handle) in
    ground (
      arith,
      lookup-insert handle k e wb.per_handle,
      decide_flush-accepted handle e (enqueue now handle offset payload wb),
    )

-- Beginning a flush takes nothing out of any queue.
pub queue-begin_flush :
    (handle : ℕ) (wb : WriteBuffer) (k : ℕ) → queue k (begin_flush handle wb).0 ≡ queue k wb
unfolding begin_flush queue
queue-begin_flush handle wb k = elim (Option-cases (lookup handle wb.per_handle)) [
  | inl e ↦ rw (e, begin_flush) refl
  | inr (hb, e) ↦
      ground (arith, e, lookup-insert handle k (record hb { sending = true }) wb.per_handle)
]

-- A failed flush takes nothing out of any queue.
pub queue-fail_flush :
    (handle : ℕ) (wb : WriteBuffer) (k : ℕ) → queue k (fail_flush handle wb) ≡ queue k wb
unfolding fail_flush queue
queue-fail_flush handle wb k = elim (Option-cases (lookup handle wb.per_handle)) [
  | inl e ↦ ground (arith, e)
  | inr (hb, e) ↦
      ground (arith, e, lookup-insert handle k (record hb { sending = false }) wb.per_handle)
]

drop-min {ℓ} : {A : Type ℓ} (n : ℕ) (xs : List A) → drop (min n (length xs)) xs ≡ drop n xs
drop-min zero xs = let e : min 0 (length xs) ≡ 0 = omega arith in rw e refl
drop-min (suc n) [] = let e : min (suc n) 0 ≡ 0 = omega arith in rw e refl
drop-min (suc n) (x ∷ xs) =
    let e : min (suc n) (suc (length xs)) ≡ suc (min n (length xs)) = omega arith in
    rw e (drop-min n xs)

is_empty-nil : (ws : List PendingWrite) → is_empty ws ≡ true → ws ≡ []
is_empty-nil [] h = refl
is_empty-nil (w ∷ ws) h = cc

drop-nil {ℓ} : {A : Type ℓ} (n : ℕ) → drop {A = A} n [] ≡ []
drop-nil zero = refl
drop-nil (suc n) = refl

-- An acknowledgement drops the `n` oldest chunks of its handle, and no other queue changes.
pub queue-ack_flush :
    (handle n : ℕ) (wb : WriteBuffer) (k : ℕ)
    → queue k (ack_flush handle n wb) ≡ (if handle == k then drop n (queue k wb) else queue k wb)
unfolding ack_flush queue
queue-ack_flush handle n wb k = elim (Option-cases (lookup handle wb.per_handle)) [
  | inl e ↦ ground (arith, e, drop-nil {A = PendingWrite} n)
  | inr (hb, e) ↦
      let kept : List PendingWrite = drop (min n (length hb.chunks)) hb.chunks in
      ground (
        arith,
        e,
        drop-min n hb.chunks,
        is_empty-nil kept,
        lookup-without handle k wb.per_handle,
        lookup-insert handle k (record { chunks = kept; sending = false }) wb.per_handle,
      )
]

-- Dropping a handle empties its queue, and no other.
pub queue-drop_handle :
    (handle : ℕ) (wb : WriteBuffer) (k : ℕ)
    → queue k (drop_handle handle wb).0 ≡ (if handle == k then [] else queue k wb)
unfolding drop_handle queue
queue-drop_handle handle wb k = ground (arith, lookup-without handle k wb.per_handle)

-- A push does not touch the guard of any handle.
pub in_flight-push :
    (now handle offset : ℕ) (payload : List ℕ) (wb : WriteBuffer) (k : ℕ)
    → in_flight k (push now handle offset payload wb).0 ≡ in_flight k wb
unfolding push in_flight
in_flight-push now handle offset payload wb k =
    let e : HandleBuf = with_chunk now offset payload (lookup handle wb.per_handle) in
    ground (arith, lookup-insert handle k e wb.per_handle)

-- Exactly when a flush can begin, the batch it sends, and that it then holds the guard: the handle
-- has chunks and no flush in flight.
pub begin_flush_lem :
    (handle : ℕ) (wb : WriteBuffer)
    → ((begin_flush handle wb).1 ≡ (
        if in_flight handle wb || is_empty (queue handle wb)
        then none
        else some (batch_of (queue handle wb))))
      × (in_flight handle (begin_flush handle wb).0
          ≡ in_flight handle wb || not (is_empty (queue handle wb)))
unfolding begin_flush queue in_flight
begin_flush_lem handle wb = elim (Option-cases (lookup handle wb.per_handle)) [
  | inl e ↦ ground (arith, e)
  | inr (hb, e) ↦
      ground (arith, e, lookup-insert handle handle (record hb { sending = true }) wb.per_handle)
]

-- A failed flush gives the guard of its handle back.
pub in_flight-fail_flush :
    (handle : ℕ) (wb : WriteBuffer) → in_flight handle (fail_flush handle wb) ≡ false
unfolding fail_flush in_flight
in_flight-fail_flush handle wb = elim (Option-cases (lookup handle wb.per_handle)) [
  | inl e ↦ ground (arith, e)
  | inr (hb, e) ↦
      ground (arith, e, lookup-insert handle handle (record hb { sending = false }) wb.per_handle)
]
