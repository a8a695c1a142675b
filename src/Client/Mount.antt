-- ===== src/Client/Mount.antt =====
-- client/src/fuse_ops.rs: `ensure_live`, `flush_one`, `flush_handle_drain` and the FUSE callbacks
-- `write` and `flush`, over the write buffer, the open files and the connection. The connection is an
-- interface of functions on its own state; the background task does not run in between.
pub mod Account
pub mod Apart
pub mod Background
pub mod Close
use quicfs.Base.{
  ℕ, zero, suc, ◌+◌, ◌%◌, String, Bool, true, false, ◌&&◌, not, Option, none, some, List, [], ◌∷◌,
  ltb, ◌==◌, if◌then◌else◌, Map, lookup, insert, map,
}
use quicfs.Client.Errno.{Errno, eio, rpc_to_errno, flush_reply}
use quicfs.Client.WriteBuf.{
  WriteBuffer, Run, FlushBatch, PushDecision, buffered, reject, flush_this, flush_other, push,
  begin_flush, ack_flush, fail_flush, drop_handle, has_buffered,
}
use quicfs.Server.Write.{has_flag}

-- `ConnManager`: the text of an error, or `none` for `Ok`.
pub record Conn : Type 1 where
  pub State : Type 0
  pub reconnect_gen : State → ℕ
  pub open_rpc : List ℕ → ℕ → State → State × Option ℕ
  pub write_rpc : ℕ → ℕ → List ℕ → State → State × Option String

pub record OpenFile : Type 0 where
  pub path : List ℕ
  pub flags : ℕ
  pub server_handle : ℕ
  pub opened_gen : ℕ
  pub is_append : Bool

module _ (conn : Conn) where
  pub record Mount : Type 0 where
    pub write_buf : WriteBuffer
    pub write_errors : ℕ → Bool
    pub open_files : Map OpenFile
    pub link : conn.State

abbrev pub with_error : ℕ → Bool → (ℕ → Bool) → ℕ → Bool
with_error fh b errors k = if fh == k then b else errors k

-- `(flags & 0x3) | (flags & O_APPEND)`
unfoldable pub reopen_flags : ℕ → ℕ
reopen_flags flags = flags % 4 + (if has_flag flags 10 then 0x400 else 0)

-- How an attempt of `flush_one` ends: it returns, or the loop goes on.
pub data Attempt : Type 0 where
  finished : Attempt
  stopped again : String → Attempt

unfoldable pub send_chunks : (conn : Conn) → ℕ → List Run → conn.State → conn.State × Option String
send_chunks conn handle [] link = (link, none)
send_chunks conn handle (p ∷ ps) link = elim (conn.write_rpc handle p.0 p.1 link).1 [
  | some e ↦ ((conn.write_rpc handle p.0 p.1 link).0, some e)
  | none ↦ send_chunks conn handle ps (conn.write_rpc handle p.0 p.1 link).0
]

abbrev pub appends : Option OpenFile → Bool
appends none = false
appends (some file) = file.is_append

abbrev pub outcome : Attempt → Option String
outcome finished = none
outcome (stopped e) = some e
outcome (again e) = some e

abbrev pub as_errno : Option String → Option Errno
as_errno none = none
as_errno (some e) = some (rpc_to_errno e)

module _ {conn : Conn} where
  -- The unacknowledged appends of a reopened file are dropped, with a sticky error.
  unfoldable pub drop_append : ℕ → Bool → Mount conn → Mount conn
  unfolding has_buffered drop_handle
  drop_append fh is_append m =
      if is_append && has_buffered fh m.write_buf
      then record m {
        write_buf = (drop_handle fh m.write_buf).0;
        write_errors =
            if ltb 0 (drop_handle fh m.write_buf).1
            then with_error fh true m.write_errors
            else m.write_errors;
      }
      else m

  unfoldable pub reopened :
      ℕ → OpenFile → ℕ → conn.State × Option ℕ → Mount conn → Mount conn × Option ℕ
  unfolding drop_append
  reopened fh file cur (link, none) m = (record m { link = link }, none)
  reopened fh file cur (link, some h) m = (
    drop_append fh file.is_append (record m {
      open_files = insert fh (record file { server_handle = h; opened_gen = cur }) m.open_files;
      link = link;
    }),
    some h,
  )

  unfoldable pub ensure_live : Bool → ℕ → Mount conn → Mount conn × Option ℕ
  unfolding reopened reopen_flags
  ensure_live allow_reopen fh m = elim (lookup fh m.open_files) [
    | none ↦ (m, none)
    | some file ↦
        if file.opened_gen == conn.reconnect_gen m.link
        then (m, some file.server_handle)
        else if not allow_reopen
        then (m, none)
        else reopened fh file (conn.reconnect_gen m.link)
            (conn.open_rpc file.path (reopen_flags file.flags) m.link) m
  ]

  -- What follows the sends.
  unfoldable pub sent :
      Bool → ℕ → ℕ → FlushBatch → conn.State × Option String → Mount conn → Mount conn × Attempt
  unfolding ack_flush fail_flush drop_handle
  sent allow_reopen fh gen_before batch (link, none) m =
      (record m { write_buf = ack_flush fh batch.sent_count m.write_buf; link = link }, finished)
  sent allow_reopen fh gen_before batch (link, some e) m =
      if appends (lookup fh m.open_files)
      then (
        record m {
          write_buf = (drop_handle fh m.write_buf).0;
          write_errors = with_error fh true m.write_errors;
          link = link;
        },
        stopped e,
      )
      else (
        record m { write_buf = fail_flush fh m.write_buf; link = link },
        if allow_reopen && not (conn.reconnect_gen link == gen_before) then again e else stopped e,
      )

  -- With a live handle, or none.
  unfoldable pub flush_live : Bool → ℕ → Mount conn × Option ℕ → Mount conn × Attempt
  unfolding has_buffered begin_flush send_chunks sent
  flush_live allow_reopen fh (m, none) =
      (m, if has_buffered fh m.write_buf then stopped "not live for flush" else finished)
  flush_live allow_reopen fh (m, some h) = elim (begin_flush fh m.write_buf).1 [
    | none ↦ (m, finished)
    | some batch ↦
        sent allow_reopen fh (conn.reconnect_gen m.link) batch
          (send_chunks conn h batch.chunks m.link)
          (record m { write_buf = (begin_flush fh m.write_buf).0 })
  ]

  unfoldable pub attempt : Bool → ℕ → Mount conn → Mount conn × Attempt
  unfolding ensure_live flush_live
  attempt allow_reopen fh m = flush_live allow_reopen fh (ensure_live allow_reopen fh m)

  -- Two attempts at most.
  unfoldable pub flush_one : Bool → ℕ → Mount conn → Mount conn × Option String
  unfolding attempt
  flush_one allow_reopen fh m = elim (attempt allow_reopen fh m).1 [
    | again e ↦ (
      (attempt allow_reopen fh (attempt allow_reopen fh m).0).0,
      outcome (attempt allow_reopen fh (attempt allow_reopen fh m).0).1,
    )
    | finished ↦ ((attempt allow_reopen fh m).0, none)
    | stopped e ↦ ((attempt allow_reopen fh m).0, some e)
  ]

  -- `for _ in 0..500`; the sleeps are left out.
  unfoldable pub drain : ℕ → ℕ → Mount conn → Mount conn × Option String
  unfolding flush_one has_buffered
  drain zero fh m = (m, some "flush did not drain")
  drain (suc rounds) fh m = elim (flush_one true fh m).1 [
    | some e ↦ ((flush_one true fh m).0, some e)
    | none ↦ elim (has_buffered fh (flush_one true fh m).0.write_buf) [
      | false ↦ ((flush_one true fh m).0, none)
      | true ↦ drain rounds fh (flush_one true fh m).0
    ]
  ]

  unfoldable pub flush_handle_drain : ℕ → Mount conn → Mount conn × Option String
  unfolding drain
  flush_handle_drain fh m = drain 500 fh m

  -- The callback of `close`: `none` is success.
  unfoldable pub flush : ℕ → Mount conn → Mount conn × Option Errno
  unfolding flush_handle_drain flush_reply
  flush fh m =
      let drained : Mount conn × Option String = flush_handle_drain fh m in
      (
        record drained.0 { write_errors = with_error fh false drained.0.write_errors },
        flush_reply (as_errno drained.1) (drained.0.write_errors fh),
      )

  -- The callback of `write`, without the invalidation of the cache: the number of bytes, or an error.
  unfoldable pub write : ℕ → ℕ → ℕ → List ℕ → Mount conn → Mount conn × Option Errno
  unfolding ensure_live push flush_one
  write now fh offset payload m =
      let live : Mount conn = (ensure_live true fh m).0 in
      let pushed : WriteBuffer × PushDecision = push now fh offset payload live.write_buf in
      let m' : Mount conn = record live { write_buf = pushed.0 } in
      elim pushed.1 [
        | buffered ↦ (m', none)
        | flush_this h ↦ ((flush_one true h m').0, none)
        | flush_other h ↦ ((flush_one true h m').0, none)
        | reject ↦ (record m' { write_errors = with_error fh true m'.write_errors }, some eio)
      ]
