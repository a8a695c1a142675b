-- ===== src/Server/Read.antt =====
-- server/src/ops/data.rs, `handle_read`: the frames that answer one Read RPC. The content behind a
-- retained file is that of its inode, which the disk holds under the inode's key.
use quicfs.Base.{
  ℕ, zero, suc, ◌+◌, ◌*◌, ◌-◌, ◌%◌, min, Bool, true, ◌||◌, none, some, List, [], ◌∷◌, ltb, ◌==◌,
  if◌then◌else◌,
}
use quicfs.File.{File, slice}
use quicfs.Io.{Io, got, failed}
use quicfs.Common.Status.{Status, ok, stale, invalid_arg, from_io}
use quicfs.Server.Handles.{HandleTable, get_handle, u64_mod}
use quicfs.Server.Write.{Disk}

abbrev pub chunk : ℕ
chunk = 256 * 1024

abbrev pub max_read_request : ℕ
max_read_request = 16 * 1024 * 1024

pub record ReadRequest : Type 0 where
  pub seq : ℕ
  pub handle : ℕ
  pub offset : ℕ
  pub length : ℕ

pub record ReadResponse : Type 0 where
  pub seq : ℕ
  pub status : Status
  pub offset : ℕ
  pub payload : List ℕ
  pub eof : Bool

-- `send_read_err`
unfoldable pub read_err : ℕ → ℕ → Status → ReadResponse
read_err seq offset status = record {
  seq = seq;
  status = status;
  offset = offset;
  payload = [];
  eof = true;
}

-- The `while remaining > 0` loop. A read of no bytes ends it, and any other lowers `remaining`, so
-- that `remaining` rounds are enough.
unfoldable pub read_loop : Io → ℕ → ℕ → ℕ → ℕ → File → List ReadResponse
unfolding read_err
read_loop io zero seq remaining offset f = []
read_loop io (suc fuel) seq zero offset f = []
read_loop io (suc fuel) seq (suc r) offset f = elim (io.read f offset (min (suc r) chunk)) [
  | failed k ↦ read_err seq offset (from_io k) ∷ []
  | got n ↦
      let rest : List ReadResponse = read_loop io fuel seq (suc r - n) ((offset + n) % u64_mod) f in
      record {
        seq = seq;
        status = ok;
        offset = offset;
        payload = slice offset n f;
        eof = (n == 0) || (suc r - n == 0);
      }
      ∷ (if n == 0 then [] else rest)
]

unfoldable pub handle_read : Io → HandleTable → ReadRequest → Disk → List ReadResponse
unfolding read_loop read_err get_handle
handle_read io table req disk =
    if ltb max_read_request req.length
    then read_err req.seq req.offset invalid_arg ∷ []
    else elim (get_handle req.handle table) [
      | none ↦ read_err req.seq req.offset stale ∷ []
      | some h ↦ read_loop io req.length req.seq req.length req.offset (disk h.ino_key)
    ]
