-- ===== src/Server/Write.antt =====
-- server/src/ops/data.rs, `handle_write` and `write_at`: the frames of one Write RPC onto the file
-- that its handle retains. The frames that arrive are a list, which ends where the stream does.
use quicfs.Base.{
  ℕ, ◌+◌, ◌-◌, ◌/◌, ◌%◌, ◌^◌, min, Bool, true, false, Option, none, some, List, [], ◌∷◌, ◌==◌,
  if◌then◌else◌, length,
}
use quicfs.File.{File}
use quicfs.Io.{Io}
use quicfs.Common.Status.{Status, ok, stale, from_io, ErrorKind}
use quicfs.Server.Handles.{HandleTable, u64_mod, get_write_ctx}

pub record WriteRequest : Type 0 where
  pub seq : ℕ
  pub handle : ℕ
  pub offset : ℕ
  pub payload : List ℕ
  pub done : Bool

pub record WriteResponse : Type 0 where
  pub seq : ℕ
  pub status : Status
  pub written : ℕ

-- `flags & (1 << bit) != 0`
abbrev pub has_flag : ℕ → ℕ → Bool
has_flag flags bit = flags / 2 ^ bit % 2 == 1

-- `flags & 0x400 != 0`
unfoldable pub is_append : ℕ → Bool
is_append flags = has_flag flags 10

-- A file that is open for appending is written at its end, whatever the offset.
unfoldable pub write_at : Io → Bool → ℕ → List ℕ → File → File × Option ErrorKind
write_at io append offset payload f = io.write_all (if append then f.size else offset) payload f

-- `total.saturating_add(data.len() as u64)`
unfoldable pub add_total : ℕ → ℕ → ℕ
add_total total n = min (total + n) (u64_mod - 1)

-- The first frame and the loop over the others; `none` is an end of the stream before the last
-- frame, at which the RPC has no answer.
unfoldable pub write_frames :
    Io → Bool → ℕ → List WriteRequest → ℕ → File → File × Option WriteResponse
unfolding write_at add_total
write_frames io append seq [] total f = (f, none)
write_frames io append seq (w ∷ ws) total f =
    let (f', failure) = write_at io append w.offset w.payload f in
    elim failure [
      | some k ↦ (f', some (record { seq = seq; status = from_io k; written = total }))
      | none ↦ elim w.done [
        | true ↦ (
          f',
          some (record { seq = seq; status = ok; written = add_total total (length w.payload) }),
        )
        | false ↦ write_frames io append seq ws (add_total total (length w.payload)) f'
      ]
    ]

-- The disk: the content of each inode, by the key under which writes to it are serialized.
abbrev pub Disk : Type 0
Disk = ℕ → File

abbrev pub store : Disk → ℕ → File → Disk
store disk k f j = if k == j then f else disk j

-- The whole RPC: its first frame names the handle, a stale one is answered at once.
unfoldable pub handle_write :
    Io → HandleTable → List WriteRequest → Disk → Disk × Option WriteResponse
unfolding write_frames is_append get_write_ctx
handle_write io table [] disk = (disk, none)
handle_write io table (first ∷ rest) disk = elim (get_write_ctx first.handle table) [
  | none ↦ (disk, some (record { seq = first.seq; status = stale; written = 0 }))
  | some (file, flags, ino_key) ↦
      let (f, reply) =
        write_frames io (is_append flags) first.seq (first ∷ rest) 0 (disk ino_key) in
      (store disk ino_key f, reply)
]
