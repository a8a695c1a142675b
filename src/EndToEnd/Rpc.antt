-- ===== src/EndToEnd/Rpc.antt =====
-- client/src/conn.rs, `write`, answered by server/src/ops/data.rs, `handle_write`, over the table of
-- open handles of server/src/handles.rs.
use quicfs.Base.{
  Bool, ℕ, ◌+◌, ◌*◌, max, ◌<◌, ◌≡◌, ◌≢◌, refl, sym, subst, ◌∙◌, Option, none, some, ◌⊎◌, inl, inr,
  List, [], ◌∷◌, length, arith,
}
use quicfs.File.{File, write}
use quicfs.Io.{Io, WriteLaws}
use quicfs.Common.Status.{ok, stale}
use quicfs.Client.WriteBuf.{word_mod}
use quicfs.Client.Send.{chunks_of, chunks, frames_from, write_rpc}
use quicfs.Client.Errno.{told, told-meaning, estale}
use quicfs.Server.Handles.{
  OpenHandle, HandleTable, u32_mod, with_limit, remove, get_handle, get_write_ctx,
}
use quicfs.Server.Handles.Ids.{Call, run, opens, released_stays_stale}
use quicfs.Server.Write.{
  WriteRequest, WriteResponse, write_frames, Disk, store, handle_write, is_append,
}
use quicfs.EndToEnd.Writing.{Lands, position, frames_land}

-- The answer of the server, and the disk afterwards.
abbrev pub served : Io → HandleTable → ℕ → ℕ → ℕ → ℕ → List ℕ → Disk → Disk × Option WriteResponse
served io table configured seq handle offset payload disk =
    handle_write io table (write_rpc configured seq handle offset payload) disk

-- The RPC is answered; no other file changes; and unless the answer is an error, the file holds the
-- payload at its position and the answer tells its length.
abbrev pub Answered : Disk × Option WriteResponse → ℕ → ℕ → List ℕ → Disk → Type 0
Answered result ino_key pos payload disk =
    (r : WriteResponse) × (result.1 ≡ some r)
    × ((j : ℕ) → ino_key ≢ j → result.0 j ≡ disk j)
    × ((r.status ≢ ok)
        ⊎ ((r.status ≡ ok)
            × (result.0 ino_key ≡ write pos payload (disk ino_key))
            × (r.written ≡ length payload)))

store-same : (disk : Disk) (k : ℕ) (f : File) → store disk k f k ≡ f
store-same disk k f = ground arith

store-other : (disk : Disk) (k j : ℕ) (f : File) → k ≢ j → store disk k f j ≡ disk j
store-other disk k j f h = ground arith

stored :
    (frames : File × Option WriteResponse) (ino_key pos : ℕ) (payload : List ℕ) (disk : Disk)
    → Lands frames pos payload (disk ino_key) (length payload)
    → Answered (store disk ino_key frames.0, frames.1) ino_key pos payload disk
stored frames ino_key pos payload disk (r, answered, inl wrong) =
    (r, answered, λ j h. store-other disk ino_key j frames.0 h, inl wrong)
stored frames ino_key pos payload disk (r, answered, inr (fine, landed, counted)) = (
  r,
  answered,
  λ j h. store-other disk ino_key j frames.0 h,
  inr (fine, store-same disk ino_key frames.0 ∙ landed, counted),
)

-- What the server does with a first frame whose handle it knows.
handle_write-known :
    (io : Io) (table : HandleTable) (first : WriteRequest) (rest : List WriteRequest) (disk : Disk)
    (file flags ino_key : ℕ)
    → get_write_ctx first.handle table ≡ some (file, flags, ino_key)
    → handle_write io table (first ∷ rest) disk ≡ (
      store disk ino_key
          (write_frames io (is_append flags) first.seq (first ∷ rest) 0 (disk ino_key)).0,
      (write_frames io (is_append flags) first.seq (first ∷ rest) 0 (disk ino_key)).1,
    )
unfolding handle_write
handle_write-known io table first rest disk file flags ino_key e = rw (e, handle_write) refl

-- All the frames, from the first on.
all_land :
    (io : Io) (laws : WriteLaws io) (append : Bool) (seq handle offset n : ℕ) (xs : List ℕ)
    (f : File)
    → 0 < n
    → xs ≢ []
    → offset + length xs < word_mod
    → Lands
        (write_frames io append seq
          (frames_from seq handle offset n (length (chunks n xs)) 0 (chunks n xs))
          0
          f)
        (position append offset f)
        xs
        f
        (length xs)
unfolding chunks
all_land io laws append seq handle offset n xs f pos ne fits =
    let frames : List WriteRequest =
      frames_from seq handle offset n (length (chunks n xs)) 0 (chunks n xs) in
    let start : offset + 0 * n ≡ offset = omega arith in
    let sum : 0 + length xs ≡ length xs = omega arith in
    subst
      (λ o. Lands (write_frames io append seq frames 0 f) (position append o f) xs f (length xs))
      start
      (subst
        (λ k.
          Lands (write_frames io append seq frames 0 f) (position append (offset + 0 * n) f) xs f k)
        sum
        (frames_land io laws append seq handle offset n pos (length xs) 0 (length (chunks n xs)) xs
          0 f ne (omega arith) (omega arith) (omega arith) (omega arith)))

-- The frames of a write of any number of bytes but none, which ends below 2 ^ 64, at any chunk size, to
-- a handle that the server knows, on a system that keeps the laws of its writes: they are answered; no
-- file but that of the handle changes; and unless the answer is an error, the file holds the payload
-- at the offset, or at its end if it was opened for appending, and nothing else is changed in it, and
-- the answer tells how many bytes were written: all of them.
pub write_rpc_lands :
    (io : Io) (configured seq handle offset : ℕ) (payload : List ℕ) (table : HandleTable)
    (disk : Disk) (file flags ino_key : ℕ)
    → WriteLaws io
    → payload ≢ []
    → offset + length payload < word_mod
    → get_write_ctx handle table ≡ some (file, flags, ino_key)
    → Answered
        (served io table configured seq handle offset payload disk)
        ino_key
        (position (is_append flags) offset (disk ino_key))
        payload
        disk
unfolding write_rpc chunks chunks_of frames_from
write_rpc_lands io configured seq handle offset [] table disk file flags ino_key laws ne fits
      known =
    absurd (ne refl)
write_rpc_lands io configured seq handle offset (x ∷ xs) table disk file flags ino_key laws ne fits
      known =
    let n : ℕ = max configured 1 in
    let frames : List WriteRequest = write_rpc configured seq handle offset (x ∷ xs) in
    let done : File × Option WriteResponse =
      write_frames io (is_append flags) seq frames 0 (disk ino_key) in
    let pos : ℕ = position (is_append flags) offset (disk ino_key) in
    subst (λ (o : Disk × Option WriteResponse). Answered o ino_key pos (x ∷ xs) disk)
      (sym (handle_write-known io table _ _ disk file flags ino_key known))
      (stored done ino_key pos (x ∷ xs) disk (
        all_land io laws (is_append flags) seq handle offset n (x ∷ xs) (disk ino_key) (omega arith)
          ne fits))

-- Any bytes but none are answered as stale for a handle that the server does not know.
stale_answer :
    (io : Io) (configured seq handle offset : ℕ) (payload : List ℕ) (table : HandleTable)
    (disk : Disk)
    → payload ≢ []
    → get_handle handle table ≡ none
    → served io table configured seq handle offset payload disk
      ≡ (disk, some (record { seq = seq; status = stale; written = 0 }))
unfolding write_rpc chunks chunks_of frames_from handle_write get_write_ctx get_handle
stale_answer io configured seq handle offset [] table disk ne unknown = absurd (ne refl)
stale_answer io configured seq handle offset (x ∷ xs) table disk ne unknown =
    rw (unknown, handle_write, get_write_ctx) refl

-- A write of any bytes but none through a handle that the session has released, whatever was opened
-- and released before and since, with fewer than 2 ^ 32 - 1 opens in all: no file changes, the answer
-- counts no bytes, and the client makes ESTALE of it. So such a write never lands in a file that was
-- opened later.
pub write_rpc_released :
    (io : Io) (uuid max_handles : ℕ) (cs cs' : List Call) (id : ℕ) (h : OpenHandle)
    (configured seq offset : ℕ) (payload : List ℕ) (disk : Disk)
    → 1 + opens cs + opens cs' < u32_mod
    → get_handle id (run cs (with_limit uuid max_handles)) ≡ some h
    → payload ≢ []
    → let result : Disk × Option WriteResponse =
        served io
          (run cs' (remove id (run cs (with_limit uuid max_handles))).0)
          configured
          seq
          id
          offset
          payload
          disk in
      (result.0 ≡ disk)
      × (r : WriteResponse) × (result.1 ≡ some r)
      × (r.written ≡ 0)
      × (told r.status ≡ some estale)
write_rpc_released io uuid max_handles cs cs' id h configured seq offset payload disk few found ne =
    let table : HandleTable = run cs' (remove id (run cs (with_limit uuid max_handles))).0 in
    rw
      (stale_answer io configured seq id offset payload table disk ne
        (released_stays_stale uuid max_handles cs cs' id h few found))
      (refl, record { seq = seq; status = stale; written = 0 }, refl, refl, told-meaning stale)
