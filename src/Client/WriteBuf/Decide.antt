-- ===== src/Client/WriteBuf/Decide.antt =====
-- client/src/writebuf.rs, `push`: what each decision tells the caller.
use quicfs.Base.{
  ℕ, ◌+◌, ◌%◌, ◌≤◌, ◌<◌, ◌^◌, ◌≡◌, refl, none, some, List, [], ◌∷◌, arith, ltb, leb, length, Map,
  lookup, IsDistinct, weight, insert-IsDistinct, lookup-insert, Bool-cases, inl, inr,
}
use quicfs.Client.WriteBuf.{
  WriteBuffer, HandleBuf, PushDecision, buffered, reject, flush_this, flush_other, with_chunk,
  enqueue, bytes, max_by_bytes, biggest, decide_flush, push, word_mod,
}
use quicfs.Client.WriteBuf.Valid.{IsValid}

-- The bytes that the handle holds.
abbrev pub held : ℕ → WriteBuffer → ℕ
held k wb = weight bytes (lookup k wb.per_handle)

max_by_bytes-lookup :
    (h : ℕ) (hb : HandleBuf) (m : Map HandleBuf)
    → lookup h m ≡ none
    → IsDistinct m
    → lookup (max_by_bytes h hb m).0 ((h, hb) ∷ m) ≡ some (max_by_bytes h hb m).1
unfolding lookup max_by_bytes
max_by_bytes-lookup h hb [] a d = ground arith
max_by_bytes-lookup h hb ((k, v) ∷ m) a d =
    ground (arith, max_by_bytes-lookup h hb m, max_by_bytes-lookup k v m)

max_by_bytes-le :
    (h : ℕ) (hb : HandleBuf) (m : Map HandleBuf) (k : ℕ)
    → (bytes hb ≤ bytes (max_by_bytes h hb m).1)
      × (weight bytes (lookup k m) ≤ bytes (max_by_bytes h hb m).1)
unfolding lookup max_by_bytes
max_by_bytes-le h hb [] k = ground arith
max_by_bytes-le h hb ((j, v) ∷ m) k =
    ground (arith, max_by_bytes-le h hb m k, max_by_bytes-le j v m k)

biggest-le :
    (h k : ℕ) (m : Map HandleBuf)
    → IsDistinct m
    → weight bytes (lookup k m) ≤ weight bytes (lookup (biggest h m) m)
unfolding biggest lookup
biggest-le h k [] d = omega arith
biggest-le h k ((j, v) ∷ m) d = ground (arith, max_by_bytes-le j v m k, max_by_bytes-lookup j v m)

-- What a decision on a push of `n` bytes to `h` means, from the buffer before it and after it.
abbrev pub Justified : WriteBuffer → WriteBuffer → ℕ → ℕ → PushDecision → Type 0
Justified before after h n reject =
    (before.hard_total_bytes < before.total_bytes + n) × (after ≡ before)
Justified before after h n buffered =
    (after.total_bytes ≡ before.total_bytes + n)
    × (after.total_bytes ≤ before.hard_total_bytes)
    × (held h after < before.max_per_handle_bytes)
    × (after.total_bytes < before.max_total_bytes)
Justified before after h n (flush_this k) =
    (after.total_bytes ≡ before.total_bytes + n)
    × (after.total_bytes ≤ before.hard_total_bytes)
    × (k ≡ h)
    × (before.max_per_handle_bytes ≤ held h after)
Justified before after h n (flush_other k) =
    (after.total_bytes ≡ before.total_bytes + n)
    × (after.total_bytes ≤ before.hard_total_bytes)
    × (before.max_total_bytes ≤ after.total_bytes)
    × ((j : ℕ) → held j after ≤ held k after)

decide_flush-Justified :
    (before after : WriteBuffer) (h n : ℕ) (e : HandleBuf)
    → IsDistinct after.per_handle
    → held h after ≡ bytes e
    → after.max_per_handle_bytes ≡ before.max_per_handle_bytes
    → after.max_total_bytes ≡ before.max_total_bytes
    → after.total_bytes ≡ before.total_bytes + n
    → after.total_bytes ≤ before.hard_total_bytes
    → Justified before after h n (decide_flush h e after)
unfolding decide_flush
decide_flush-Justified before after h n e d he p q r s =
    elim (Bool-cases (leb after.max_per_handle_bytes (bytes e))) [
      | inl t ↦ rw t (r, s, refl, ground arith)
      | inr t ↦ rw t (elim (Bool-cases (leb after.max_total_bytes after.total_bytes)) [
        | inl u ↦ rw u (r, s, ground arith, λ j. biggest-le h j after.per_handle d)
        | inr u ↦ rw u (r, s, ground arith, ground arith)
      ])
    ]

module _ (now h offset : ℕ) (payload : List ℕ) (wb : WriteBuffer) where
  -- Each decision of a push on a buffer in order is justified: a refusal means that the hard limit
  -- would be passed and nothing changed; otherwise the bytes are counted, within the hard limit, and
  -- the handle to flush is the one over its own limit, or, over the global limit, one that holds
  -- at least as much as any other.
  pub push-Justified :
      IsValid wb
      → length payload < 2 ^ 63
      → Justified wb
          (push now h offset payload wb).0
          h
          (length payload)
          (push now h offset payload wb).1
  unfolding push
  push-Justified v fits =
      let entry : HandleBuf = with_chunk now offset payload (lookup h wb.per_handle) in
      elim (Bool-cases (ltb wb.hard_total_bytes ((wb.total_bytes + length payload) % word_mod))) [
        | inl e ↦ rw e (ground arith, refl)
        | inr e ↦ rw e (
            decide_flush-Justified wb (enqueue now h offset payload wb) h (length payload) entry
              (insert-IsDistinct h entry wb.per_handle v.distinct)
              (ground (arith, lookup-insert h h entry wb.per_handle)) refl refl (omega arith)
              (ground arith))
      ]
