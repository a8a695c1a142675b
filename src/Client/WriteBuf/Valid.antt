-- ===== src/Client/WriteBuf/Valid.antt =====
-- client/src/writebuf.rs: `total_bytes` counts exactly the buffered bytes, and stays under the hard
-- limit, through every method.
use quicfs.Base.{
  ℕ, zero, suc, ◌+◌, ◌-◌, ◌%◌, ◌≤◌, ◌<◌, ◌^◌, min, ◌≡◌, refl, sym, inl, inr, ◌∙◌, Bool, true, false,
  Option, none, some, List, [], ◌∷◌, ◌++◌, arith, ltb, if◌then◌else◌, length, take, drop, lookup,
  insert, without, IsDistinct, total, weight, total-insert, total-without, insert-IsDistinct,
  without-IsDistinct, Option-cases, Bool-cases, All,
}
use quicfs.Client.WriteBuf.{
  WriteBuffer, HandleBuf, PendingWrite, or_default, with_chunk, chunk_bytes, bytes, word_mod, new,
  push, begin_flush, ack_flush, fail_flush, drop_handle, is_empty,
}
use quicfs.Client.WriteBuf.Flight.{Call, push_chunk, begin, fail, discard, ack, step, run}

abbrev pub buffered_bytes : HandleBuf → ℕ
buffered_bytes hb = chunk_bytes hb.chunks

pub record IsValid (wb : WriteBuffer) : Type 0 where
  pub distinct : IsDistinct wb.per_handle
  pub counted : wb.total_bytes ≡ total buffered_bytes wb.per_handle
  pub bounded : wb.total_bytes ≤ wb.hard_total_bytes
  pub addressable : wb.hard_total_bytes < 2 ^ 63

-- The payload of a `Vec<u8>` is at most `isize::MAX` bytes long.
abbrev pub Allocates : Call → Type 0
Allocates (push_chunk now h offset payload) = length payload < 2 ^ 63
Allocates (begin h) = Unit
Allocates (fail h) = Unit
Allocates (discard h) = Unit
Allocates (ack h n) = Unit

chunk_bytes-append :
    (xs ys : List PendingWrite) → chunk_bytes (xs ++ ys) ≡ chunk_bytes xs + chunk_bytes ys
chunk_bytes-append [] ys = omega arith
chunk_bytes-append (x ∷ xs) ys = omega (arith, chunk_bytes-append xs ys)

chunk_bytes-split :
    (n : ℕ) (xs : List PendingWrite)
    → chunk_bytes (take n xs) + chunk_bytes (drop n xs) ≡ chunk_bytes xs
chunk_bytes-split zero xs = omega arith
chunk_bytes-split (suc n) [] = omega arith
chunk_bytes-split (suc n) (x ∷ xs) = omega (arith, chunk_bytes-split n xs)

chunk_bytes-is_empty : (xs : List PendingWrite) → is_empty xs ≡ true → chunk_bytes xs ≡ 0
chunk_bytes-is_empty [] h = refl
chunk_bytes-is_empty (x ∷ xs) h = cc

weight-or_default :
    (o : Option HandleBuf) → weight buffered_bytes o ≡ chunk_bytes (or_default o).chunks
weight-or_default none = refl
weight-or_default (some hb) = refl

grown_by :
    (now offset : ℕ) (payload : List ℕ) (o : Option HandleBuf)
    → chunk_bytes (with_chunk now offset payload o).chunks
      ≡ weight buffered_bytes o + length payload
grown_by now offset payload o = omega (
  arith,
  weight-or_default o,
  chunk_bytes-append (or_default o).chunks
      (record { offset = offset; payload = payload; queued_at = now } ∷ []),
)

push-IsValid :
    (now h offset : ℕ) (payload : List ℕ) (wb : WriteBuffer)
    → length payload < 2 ^ 63
    → IsValid wb
    → IsValid (push now h offset payload wb).0
unfolding push
push-IsValid now h offset payload wb fits v =
    elim (Bool-cases (ltb wb.hard_total_bytes ((wb.total_bytes + length payload) % word_mod))) [
      | inl e ↦ rw e v
      | inr e ↦
          let found : Option HandleBuf = lookup h wb.per_handle in
          let entry : HandleBuf = with_chunk now offset payload found in
          let grown : chunk_bytes entry.chunks ≡ weight buffered_bytes found + length payload =
            grown_by now offset payload found in
          rw e (record {
            distinct = insert-IsDistinct h entry wb.per_handle v.distinct;
            counted = omega (
              arith,
              total-insert buffered_bytes h entry wb.per_handle,
              v.counted,
              v.bounded,
              v.addressable,
            );
            bounded = ground arith;
            addressable = v.addressable;
          })
    ]

-- An entry that changes nothing but its guard.
guard-IsValid :
    (h : ℕ) (hb : HandleBuf) (b : Bool) (wb : WriteBuffer)
    → lookup h wb.per_handle ≡ some hb
    → IsValid wb
    → IsValid (record wb { per_handle = insert h (record hb { sending = b }) wb.per_handle })
guard-IsValid h hb b wb e v =
    let hb' : HandleBuf = record hb { sending = b } in
    let same : total buffered_bytes (insert h hb' wb.per_handle)
        ≡ total buffered_bytes wb.per_handle =
      ground (arith, e, total-insert buffered_bytes h hb' wb.per_handle) in
    record {
      distinct = insert-IsDistinct h hb' wb.per_handle v.distinct;
      counted = v.counted ∙ sym same;
      bounded = v.bounded;
      addressable = v.addressable;
    }

begin_flush-IsValid : (h : ℕ) (wb : WriteBuffer) → IsValid wb → IsValid (begin_flush h wb).0
unfolding begin_flush
begin_flush-IsValid h wb v = elim (Option-cases (lookup h wb.per_handle)) [
  | inl e ↦ rw (e, begin_flush) v
  | inr (hb, e) ↦ ground (arith, e, guard-IsValid h hb true wb e v)
]

fail_flush-IsValid : (h : ℕ) (wb : WriteBuffer) → IsValid wb → IsValid (fail_flush h wb)
unfolding fail_flush
fail_flush-IsValid h wb v = elim (Option-cases (lookup h wb.per_handle)) [
  | inl e ↦ ground (arith, e, v)
  | inr (hb, e) ↦ ground (arith, e, guard-IsValid h hb false wb e v)
]

-- What the bytes of a handle are, with no wrap, and what is left when it is dropped.
counted_under :
    (h : ℕ) (wb : WriteBuffer) {hb : HandleBuf}
    → lookup h wb.per_handle ≡ some hb
    → IsValid wb
    → (chunk_bytes hb.chunks % word_mod ≡ chunk_bytes hb.chunks)
      × (total buffered_bytes (without h wb.per_handle) + chunk_bytes hb.chunks ≡ wb.total_bytes)
counted_under h wb e v =
    let split : total buffered_bytes (without h wb.per_handle)
          + weight buffered_bytes (lookup h wb.per_handle)
        ≡ total buffered_bytes wb.per_handle =
      total-without buffered_bytes h wb.per_handle v.distinct in
    let split' = rw e at split in (omega arith, omega arith)

drop_handle-IsValid : (h : ℕ) (wb : WriteBuffer) → IsValid wb → IsValid (drop_handle h wb).0
unfolding drop_handle bytes
drop_handle-IsValid h wb v = elim (Option-cases (lookup h wb.per_handle)) [
  | inl e ↦ ground (arith, e, v)
  | inr (hb, e) ↦
      let (wraps, left) = counted_under h wb e v in
      rw (e, drop_handle)
        (record {
          distinct = without-IsDistinct h wb.per_handle v.distinct;
          counted = omega arith;
          bounded = omega arith;
          addressable = v.addressable;
        })
]

-- The chunks of a handle are replaced by a part of them, and the rest is counted off.
kept-IsValid :
    (h : ℕ) (wb : WriteBuffer) {hb : HandleBuf} (kept : List PendingWrite) (removed : ℕ)
    → lookup h wb.per_handle ≡ some hb
    → removed + chunk_bytes kept ≡ chunk_bytes hb.chunks
    → IsValid wb
    → IsValid (record wb {
      per_handle =
          if is_empty kept
          then without h wb.per_handle
          else insert h (record { chunks = kept; sending = false }) wb.per_handle;
      total_bytes = wb.total_bytes - removed % word_mod;
    })
kept-IsValid h wb kept removed e s v =
    let (wraps, left) = counted_under h wb e v in
    elim (Bool-cases (is_empty kept)) [
      | inl z ↦ rw z (record {
        distinct = without-IsDistinct h wb.per_handle v.distinct;
        counted = omega (arith, chunk_bytes-is_empty kept z);
        bounded = omega arith;
        addressable = v.addressable;
      })
      | inr z ↦
          let hb' : HandleBuf = record { chunks = kept; sending = false } in
          let put : total buffered_bytes (insert h hb' wb.per_handle)
                + weight buffered_bytes (lookup h wb.per_handle)
              ≡ total buffered_bytes wb.per_handle + chunk_bytes kept =
            total-insert buffered_bytes h hb' wb.per_handle in
          let put' = rw e at put in
          rw z (record {
            distinct = insert-IsDistinct h hb' wb.per_handle v.distinct;
            counted = omega arith;
            bounded = omega arith;
            addressable = v.addressable;
          })
    ]

ack_flush-IsValid : (h n : ℕ) (wb : WriteBuffer) → IsValid wb → IsValid (ack_flush h n wb)
unfolding ack_flush
ack_flush-IsValid h n wb v = elim (Option-cases (lookup h wb.per_handle)) [
  | inl e ↦ ground (arith, e, v)
  | inr (hb, e) ↦
      let m : ℕ = min n (length hb.chunks) in
      rw (e, ack_flush)
        (kept-IsValid h wb (drop m hb.chunks) (chunk_bytes (take m hb.chunks)) e
          (chunk_bytes-split m hb.chunks) v)
]

step-IsValid : (c : Call) (wb : WriteBuffer) → Allocates c → IsValid wb → IsValid (step c wb)
unfolding step
step-IsValid (push_chunk now h offset payload) wb a v = push-IsValid now h offset payload wb a v
step-IsValid (begin h) wb a v = begin_flush-IsValid h wb v
step-IsValid (fail h) wb a v = fail_flush-IsValid h wb v
step-IsValid (discard h) wb a v = drop_handle-IsValid h wb v
step-IsValid (ack h n) wb a v = ack_flush-IsValid h n wb v

run-IsValid :
    (cs : List Call) (wb : WriteBuffer) → All Allocates cs → IsValid wb → IsValid (run cs wb)
unfolding run
run-IsValid [] wb a v = v
run-IsValid (c ∷ cs) wb a v = run-IsValid cs (step c wb) a.1 (step-IsValid c wb a.0 v)

-- After any calls on a new buffer, its byte count is exactly the bytes of the chunks that it holds,
-- under distinct handles, and at most the hard limit.
pub total_bytes_exact :
    (per_handle max_total window : ℕ) (cs : List Call)
    → max_total < 2 ^ 62
    → All Allocates cs
    → IsValid (run cs (new per_handle max_total window))
unfolding new total
total_bytes_exact per_handle max_total window cs small a =
    run-IsValid cs (new per_handle max_total window) a
      (record { distinct = tt; counted = refl; bounded = omega arith; addressable = omega arith })
