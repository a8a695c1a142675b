-- ===== src/Server/Handles/Ids.antt =====
-- server/src/handles.rs: handle numbers are fresh, bounded in number, and of their session's epoch.
use quicfs.Base.{
  ℕ, suc, ◌+◌, ◌*◌, ◌%◌, ◌≤◌, ◌<◌, ◌≡◌, ◌≢◌, refl, none, some, List, [], ◌∷◌, arith, leb, ◌==◌,
  if◌then◌else◌, length, lookup, without, lookup-insert, lookup-without, length-insert_new,
  length-without-le, Bool-cases, Option-cases, inl, inr, ◌⊎◌,
}
use quicfs.Server.Handles.{
  OpenHandle, HandleTable, u64_mod, u32_mod, with_limit, try_insert, remove, get_handle, len,
}

-- A call of a method that changes the table.
pub data Call : Type 0 where
  open_handle : OpenHandle → Call
  close_handle : ℕ → Call

unfoldable pub step : Call → HandleTable → HandleTable
step (open_handle h) t = (try_insert h t).0
step (close_handle id) t = (remove id t).0

unfoldable pub run : List Call → HandleTable → HandleTable
unfolding step
run [] t = t
run (c ∷ cs) t = run cs (step c t)

-- The table of an epoch that has handed out fewer than `n` handles: it holds no more handles than
-- its limit, every number in it was handed out, and the counter is in the epoch.
pub record IsValid (epoch n : ℕ) (t : HandleTable) : Type 0 where
  pub capacity : length t.inner ≤ t.max_handles
  pub issued :
      (id : ℕ) (h : OpenHandle)
      → lookup id t.inner ≡ some h
      → (epoch * u32_mod < id) × (id < t.counter)
  pub low : epoch * u32_mod < t.counter
  pub high : t.counter ≤ epoch * u32_mod + n

module _ {epoch n : ℕ} {t : HandleTable} (v : IsValid epoch n t) where
  counter_fresh : lookup t.counter t.inner ≡ none
  counter_fresh = elim (Option-cases (lookup t.counter t.inner)) [
    | inl e ↦ e
    | inr (h, e) ↦ absurd (omega (arith, v.issued t.counter h e))
  ]

  try_insert-IsValid :
      (h : OpenHandle)
      → epoch < u32_mod
      → suc n < u32_mod
      → IsValid epoch (suc n) (try_insert h t).0
  unfolding try_insert
  try_insert-IsValid h he hn = elim (Bool-cases (leb t.max_handles (length t.inner))) [
    | inl e ↦ rw e (record {
      capacity = v.capacity;
      issued = v.issued;
      low = v.low;
      high = omega (arith, v.high);
    })
    | inr e ↦
        let fits : (t.counter + 1) % u64_mod ≡ t.counter + 1 = omega (arith, v.high) in
        rw (e, fits)
          (record {
            capacity = ground (arith, length-insert_new t.counter h t.inner counter_fresh);
            issued = λ id h' p.
                ground (arith, v.low, v.issued id h', lookup-insert t.counter id h t.inner);
            low = omega (arith, v.low);
            high = omega (arith, v.high);
          })
  ]

  remove-IsValid : (id : ℕ) → IsValid epoch n (remove id t).0
  unfolding remove
  remove-IsValid id = record {
    capacity = omega (arith, v.capacity, length-without-le id t.inner);
    issued = λ j h p. ground (arith, v.issued j h, lookup-without id j t.inner);
    low = v.low;
    high = v.high;
  }

-- The opens among the calls, each counted whether or not it succeeds.
unfoldable pub opens : List Call → ℕ
opens [] = 0
opens (open_handle h ∷ cs) = suc (opens cs)
opens (close_handle id ∷ cs) = opens cs

run-IsValid :
    (epoch n : ℕ) (cs : List Call) (t : HandleTable)
    → epoch < u32_mod
    → n + opens cs < u32_mod
    → IsValid epoch n t
    → IsValid epoch (n + opens cs) (run cs t)
unfolding run step opens
run-IsValid epoch n [] t he hn v = let e : n + 0 ≡ n = omega arith in rw e v
run-IsValid epoch n (open_handle h ∷ cs) t he hn v =
    let e : n + suc (opens cs) ≡ suc n + opens cs = omega arith in
    rw e (
      run-IsValid epoch (suc n) cs (try_insert h t).0 he (omega arith)
        (try_insert-IsValid v h he (omega arith)))
run-IsValid epoch n (close_handle id ∷ cs) t he hn v =
    run-IsValid epoch n cs (remove id t).0 he hn (remove-IsValid v id)

with_limit-IsValid :
    (uuid max_handles : ℕ) → IsValid (uuid % u32_mod) 1 (with_limit uuid max_handles)
unfolding with_limit lookup
with_limit-IsValid uuid max_handles = record {
  capacity = omega arith;
  issued = λ id h p. cc;
  low = omega arith;
  high = omega arith;
}

-- A new table, through any calls with fewer than 2 ^ 32 - 1 opens among them, holds no more handles
-- than its limit, and every number in it lies in the epoch of the table and below its counter.
pub session-IsValid :
    (uuid max_handles : ℕ) (cs : List Call)
    → 1 + opens cs < u32_mod
    → IsValid (uuid % u32_mod) (1 + opens cs) (run cs (with_limit uuid max_handles))
session-IsValid uuid max_handles cs few =
    run-IsValid (uuid % u32_mod) 1 cs (with_limit uuid max_handles) (omega arith) few
      (with_limit-IsValid uuid max_handles)

max_handles-run : (cs : List Call) (t : HandleTable) → (run cs t).max_handles ≡ t.max_handles
unfolding run step try_insert remove
max_handles-run [] t = refl
max_handles-run (open_handle h ∷ cs) t = ground (arith, max_handles-run cs (try_insert h t).0)
max_handles-run (close_handle id ∷ cs) t = max_handles-run cs (remove id t).0

limit-run :
    (uuid max_handles : ℕ) (cs : List Call)
    → (run cs (with_limit uuid max_handles)).max_handles ≡ max_handles
unfolding with_limit
limit-run uuid max_handles cs = max_handles-run cs (with_limit uuid max_handles)

-- Opening in such a session: at the limit it fails and changes nothing; below it, it gives a number
-- that was not in the table, finds the new handle under it, and moves no other handle.
pub open_fresh :
    (uuid max_handles : ℕ) (cs : List Call) (h : OpenHandle)
    → 1 + opens cs < u32_mod
    → let t : HandleTable = run cs (with_limit uuid max_handles) in
      ((max_handles ≤ len t) × (try_insert h t ≡ (t, none)))
      ⊎ ((id : ℕ) × (len t < max_handles)
          × ((try_insert h t).1 ≡ some id)
          × (get_handle id t ≡ none)
          × ((j : ℕ)
              → get_handle j (try_insert h t).0 ≡ (if id == j then some h else get_handle j t)))
unfolding get_handle try_insert len
open_fresh uuid max_handles cs h few =
    let t : HandleTable = run cs (with_limit uuid max_handles) in
    let limit : t.max_handles ≡ max_handles = limit-run uuid max_handles cs in
    let fresh : lookup t.counter t.inner ≡ none =
      counter_fresh (session-IsValid uuid max_handles cs few) in
    elim (Bool-cases (leb t.max_handles (length t.inner))) [
      | inl e ↦ inl (ground arith, rw e refl)
      | inr e ↦ inr (
        t.counter,
        ground arith,
        rw e refl,
        fresh,
        λ j. rw e (lookup-insert t.counter j h t.inner),
      )
    ]

-- Two sessions of different epochs, each with fewer than 2 ^ 32 - 1 opens: a handle that is open in
-- one is stale in the other.
pub no_cross_session :
    (uuid uuid' max_handles max_handles' : ℕ) (cs cs' : List Call) (id : ℕ) (h : OpenHandle)
    → 1 + opens cs < u32_mod
    → 1 + opens cs' < u32_mod
    → uuid % u32_mod ≢ uuid' % u32_mod
    → get_handle id (run cs (with_limit uuid max_handles)) ≡ some h
    → get_handle id (run cs' (with_limit uuid' max_handles')) ≡ none
unfolding get_handle
no_cross_session uuid uuid' max_handles max_handles' cs cs' id h few few' ne found =
    let t' : HandleTable = run cs' (with_limit uuid' max_handles') in
    let v = session-IsValid uuid max_handles cs few in
    let v' = session-IsValid uuid' max_handles' cs' few' in
    let here = v.issued id h found in
    elim (Option-cases (lookup id t'.inner)) [
      | inl e ↦ e
      | inr (h', e) ↦
          let there = v'.issued id h' e in absurd (ne (omega (arith, here, there, v.high, v'.high)))
    ]

-- A number below the counter that names nothing.
abbrev IsStale : ℕ → HandleTable → Type 0
IsStale id t = (lookup id t.inner ≡ none) × (id < t.counter)

try_insert-IsStale :
    {epoch n : ℕ} {t : HandleTable} (v : IsValid epoch n t) (h : OpenHandle) (id : ℕ)
    → epoch < u32_mod
    → suc n < u32_mod
    → IsStale id t
    → IsStale id (try_insert h t).0
unfolding try_insert
try_insert-IsStale {epoch} {n} {t} v h id he hn s =
    let fits : (t.counter + 1) % u64_mod ≡ t.counter + 1 = omega (arith, v.high) in
    ground (arith, fits, lookup-insert t.counter id h t.inner)

remove-IsStale : (k id : ℕ) (t : HandleTable) → IsStale id t → IsStale id (remove k t).0
unfolding remove
remove-IsStale k id t s = ground (arith, lookup-without k id t.inner)

run-IsStale :
    (epoch n : ℕ) (cs : List Call) (t : HandleTable) (id : ℕ)
    → epoch < u32_mod
    → n + opens cs < u32_mod
    → IsValid epoch n t
    → IsStale id t
    → IsStale id (run cs t)
unfolding run step opens
run-IsStale epoch n [] t id he hn v s = s
run-IsStale epoch n (open_handle h ∷ cs) t id he hn v s =
    run-IsStale epoch (suc n) cs (try_insert h t).0 id he (omega arith)
      (try_insert-IsValid v h he (omega arith)) (try_insert-IsStale v h id he (omega arith) s)
run-IsStale epoch n (close_handle k ∷ cs) t id he hn v s =
    run-IsStale epoch n cs (remove k t).0 id he hn (remove-IsValid v k) (remove-IsStale k id t s)

-- A handle that is released in a session stays stale through any later calls: its number is not
-- given out again, with fewer than 2 ^ 32 - 1 opens in all.
pub released_stays_stale :
    (uuid max_handles : ℕ) (cs cs' : List Call) (id : ℕ) (h : OpenHandle)
    → 1 + opens cs + opens cs' < u32_mod
    → get_handle id (run cs (with_limit uuid max_handles)) ≡ some h
    → get_handle id (run cs' (remove id (run cs (with_limit uuid max_handles))).0) ≡ none
unfolding get_handle remove
released_stays_stale uuid max_handles cs cs' id h few found =
    let t : HandleTable = run cs (with_limit uuid max_handles) in
    let v : IsValid (uuid % u32_mod) (1 + opens cs) t =
      session-IsValid uuid max_handles cs (omega arith) in
    let below : id < t.counter = (v.issued id h found).1 in
    let gone : lookup id (without id t.inner) ≡ none =
      ground (arith, lookup-without id id t.inner) in
    (run-IsStale (uuid % u32_mod) (1 + opens cs) cs' (remove id t).0 id (omega arith) few
      (remove-IsValid v id) (gone, below)).0
