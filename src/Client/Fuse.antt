-- ===== src/Client/Fuse.antt =====
-- client/src/fuse_ops.rs, `QuicFs`: its state, and what its callbacks have in common. The RPCs of
-- client/src/conn.rs are an interface of functions on the state of the connection. Names are UTF-8,
-- so that the text of a path is that path. `Instant::now()` is an argument, the same throughout a
-- callback; the background task does not run in between.
pub mod Names
pub mod Handles
pub mod Fresh
pub mod Durable
pub mod Reconnected
use quicfs.Base.{
  ℕ, ◌+◌, ◌/◌, ◌%◌, ◌^◌, String, Bool, true, false, Option, none, some, List, [], ◌∷◌, ◌++◌, ltb,
  ◌==◌, if◌then◌else◌, insert,
}
use quicfs.Common.Status.{ErrorKind}
use quicfs.Client.Errno.{Errno, contains, enoent, io_to_errno}
use quicfs.Client.WriteBuf.{WriteBuffer, handles, word_mod}
use quicfs.Client.Mount.{Conn, Mount, OpenFile, flush_one, ensure_live}
use quicfs.Client.Inodes.{InodeTable, path_of, get_or_alloc}
use quicfs.Client.Cache.{CacheConfig, Lru, get, invalidate, clear, insert_negative}
use quicfs.Server.Sanitize.{Name, FilePath, slash}
use quicfs.Server.Write.{has_flag}
use quicfs.Server.Meta.{Stat}

-- `anyhow::Result`, by the text of the error.
pub data Answer {ℓ} (A : Type ℓ) : Type ℓ where
  got : A → Answer A
  failed : String → Answer A

-- What the kernel is told.
pub data Told {ℓ} (A : Type ℓ) : Type ℓ where
  answered : A → Told A
  error : Errno → Told A

-- `setattr` of the connection: mode, uid, gid, size, atime and mtime, each if it is to be set.
pub record Changes : Type 0 where
  pub mode : Option ℕ
  pub uid : Option ℕ
  pub gid : Option ℕ
  pub size : Option ℕ
  pub atime : Option ℕ
  pub mtime : Option ℕ

-- The other methods of `ConnManager`.
pub record Remote (conn : Conn) : Type 0 where
  pub getattr : Name → conn.State → conn.State × Answer Stat
  pub setattr : Name → ℕ → Changes → conn.State → conn.State × Answer Stat
  pub mkdir : Name → ℕ → conn.State → conn.State × Answer Stat
  pub unlink : Name → conn.State → conn.State × Answer (Unit {0})
  pub rmdir : Name → conn.State → conn.State × Answer (Unit {0})
  pub symlink : Name → Name → conn.State → conn.State × Answer Stat
  pub rename : Name → Name → ℕ → conn.State → conn.State × Answer (Unit {0})
  pub link : Name → Name → conn.State → conn.State × Answer Stat
  pub readlink : Name → conn.State → conn.State × Answer Name
  pub open_file : Name → ℕ → conn.State → conn.State × Answer ℕ
  pub create : Name → ℕ → ℕ → conn.State → conn.State × Answer (ℕ × Stat)
  pub release : ℕ → conn.State → conn.State × Answer (Unit {0})
  pub read : ℕ → ℕ → ℕ → conn.State → conn.State × Answer (List ℕ)
  pub fsync : ℕ → Bool → conn.State → conn.State × Answer (Unit {0})

pub data FileType : Type 0 where
  directory regular_file symlink_type named_pipe char_device block_device socket : FileType

unfoldable pub mode_to_file_type : ℕ → FileType
mode_to_file_type mode =
    let kind : ℕ = mode / 4096 % 16 in
    if kind == 4
    then directory
    else if kind == 8
    then regular_file
    else if kind == 10
    then symlink_type
    else if kind == 1
    then named_pipe
    else if kind == 2
    then char_device
    else if kind == 6
    then block_device
    else if kind == 12
    then socket
    else regular_file

pub record FileAttr : Type 0 where
  pub ino : ℕ
  pub size : ℕ
  pub blocks : ℕ
  pub atime : ℕ
  pub mtime : ℕ
  pub ctime : ℕ
  pub crtime : ℕ
  pub kind : FileType
  pub perm : ℕ
  pub nlink : ℕ
  pub uid : ℕ
  pub gid : ℕ
  pub blksize : ℕ

-- The times of a `Stat` are not below zero, as the server makes them.
unfoldable pub stat_to_file_attr : Stat → ℕ → FileAttr
unfolding mode_to_file_type
stat_to_file_attr stat ino = record {
  ino = ino;
  size = stat.size;
  blocks = stat.blocks;
  atime = stat.atime;
  mtime = stat.mtime;
  ctime = stat.ctime;
  crtime = stat.ctime;
  kind = mode_to_file_type stat.mode;
  perm = stat.mode % 4096;
  nlink = stat.nlink;
  uid = stat.uid;
  gid = stat.gid;
  blksize = stat.blksz;
}

-- The text of a path.
abbrev pub join_names : FilePath → Name
join_names [] = []
join_names (n ∷ names) = slash ∷ (n ++ join_names names)

unfoldable pub path_text : FilePath → Name
path_text [] = slash ∷ []
path_text (n ∷ names) = join_names (n ∷ names)

unfoldable pub child_path : FilePath → Name → FilePath
child_path parent name = parent ++ name ∷ []

abbrev pub or_own : Option ℕ → ℕ → ℕ
or_own none own = own
or_own (some n) own = n

module _ (conn : Conn) (lru : Lru Stat) where
  pub record QuicFs : Type 0 where
    pub mount : Mount conn
    pub cache : lru.State
    pub inodes : InodeTable
    pub next_client_fh : ℕ
    pub last_reconnect_gen : ℕ
    pub uid_override : Option ℕ
    pub gid_override : Option ℕ

abbrev pub first_error : Option String → Option String → Option String
first_error none e = e
first_error (some e) e' = some e

-- The loop over the handles; it goes on after an error, and returns the first.
unfoldable pub flush_each : {conn : Conn} → List ℕ → Mount conn → Mount conn × Option String
unfolding flush_one
flush_each {conn} [] m = (m, none)
flush_each {conn} (fh ∷ fhs) m =
    let rest : Mount conn × Option String = flush_each fhs (flush_one true fh m).0 in
    (rest.0, first_error (flush_one true fh m).1 rest.1)

abbrev pub told_stat : Option Stat → Told Stat
told_stat none = error (io_to_errno ErrorKind.not_found_kind)
told_stat (some s) = answered s

module _ {conn : Conn} {lru : Lru Stat} where
  -- After a call on the connection.
  abbrev pub with_link : conn.State → QuicFs conn lru → QuicFs conn lru
  with_link link fs = record fs { mount = record fs.mount { link = link } }

  unfoldable pub path_for : ℕ → QuicFs conn lru → Option FilePath
  unfolding path_of
  path_for ino fs = path_of ino fs.inodes

  unfoldable pub make_file_attr : FilePath → Stat → QuicFs conn lru → QuicFs conn lru × FileAttr
  unfolding get_or_alloc stat_to_file_attr
  make_file_attr path stat fs =
      let numbered : InodeTable × ℕ = get_or_alloc path fs.inodes in
      let attr : FileAttr = stat_to_file_attr stat numbered.1 in
      (
        record fs { inodes = numbered.0 },
        record attr {
          uid = or_own fs.uid_override attr.uid;
          gid = or_own fs.gid_override attr.gid;
        },
      )

  unfoldable pub register_open : Name → ℕ → ℕ → QuicFs conn lru → QuicFs conn lru × ℕ
  unfolding insert
  register_open path flags server_handle fs = (
    record fs {
      mount = record fs.mount {
        open_files =
            insert fs.next_client_fh
              (record {
                path = path;
                flags = flags;
                server_handle = server_handle;
                opened_gen = conn.reconnect_gen fs.mount.link;
                is_append = has_flag flags 10;
              })
              fs.mount.open_files;
      };
      next_client_fh = (fs.next_client_fh + 1) % word_mod;
    },
    fs.next_client_fh,
  )

  unfoldable pub flush_all_handles : QuicFs conn lru → QuicFs conn lru × Option String
  unfolding flush_each handles
  flush_all_handles fs =
      let flushed : Mount conn × Option String = flush_each (handles fs.mount.write_buf) fs.mount in
      (record fs { mount = flushed.0 }, flushed.1)

  -- O_TRUNC is 0x200.
  unfoldable pub fence_truncating_open : ℕ → QuicFs conn lru → QuicFs conn lru × Option String
  unfolding flush_all_handles
  fence_truncating_open flags fs =
      if has_flag flags 9
      then if fs.mount.write_buf.total_bytes == 0 then (fs, none) else flush_all_handles fs
      else (fs, none)

  module _ (cfg : CacheConfig) where
    unfoldable pub check_reconnect : QuicFs conn lru → QuicFs conn lru
    unfolding clear
    check_reconnect fs =
        if conn.reconnect_gen fs.mount.link == fs.last_reconnect_gen then fs else record fs {
          cache = clear lru cfg fs.cache;
          last_reconnect_gen = conn.reconnect_gen fs.mount.link;
        }

    -- `(stat.mode >> 12) & 0xF == 0x4`
    unfoldable pub cache_stat : ℕ → Name → Stat → QuicFs conn lru → QuicFs conn lru
    unfolding quicfs.Client.Cache.insert
    cache_stat now path stat fs = record fs {
      cache =
          quicfs.Client.Cache.insert lru cfg now path stat (stat.mode / 4096 % 16 == 4) fs.cache;
    }

    unfoldable pub cache_negative : ℕ → Name → QuicFs conn lru → QuicFs conn lru
    unfolding insert_negative
    cache_negative now path fs = record fs { cache = insert_negative lru cfg now path fs.cache }

    unfoldable pub invalidate_cache : Name → QuicFs conn lru → QuicFs conn lru
    unfolding invalidate
    invalidate_cache path fs = record fs { cache = invalidate lru cfg path fs.cache }

    -- The buffered writes are flushed before the stat; `true` if all of them were.
    unfoldable pub flush_pending : QuicFs conn lru → QuicFs conn lru × Bool
    unfolding flush_all_handles
    flush_pending fs =
        if ltb 0 fs.mount.write_buf.total_bytes
        then (
          (flush_all_handles fs).0,
          elim (flush_all_handles fs).1 [ none ↦ true | some e ↦ false ],
        )
        else (fs, true)

    -- The answer of the server; it is kept only if nothing was left buffered.
    unfoldable pub stat_replied :
        ℕ → Name → Bool → QuicFs conn lru → Answer Stat → QuicFs conn lru × Told Stat
    unfolding cache_stat cache_negative io_to_errno
    stat_replied now path flush_ok fs (got s) =
        (if flush_ok then cache_stat now path s fs else fs, answered s)
    stat_replied now path flush_ok fs (failed msg) =
        if contains msg "NotFound"
        then (cache_negative now path fs, error (io_to_errno ErrorKind.not_found_kind))
        else (fs, error (io_to_errno ErrorKind.other))

    unfoldable pub cached_getattr :
        ℕ → Name → QuicFs conn lru → QuicFs conn lru × Option (Option Stat)
    unfolding get
    cached_getattr now path fs =
        (record fs { cache = (get lru cfg now path fs.cache).0 }, (get lru cfg now path fs.cache).1)

    -- With what the cache has for the path, or nothing.
    unfoldable pub stat_seen :
        Remote conn
        → ℕ
        → Name
        → Bool
        → QuicFs conn lru × Option (Option Stat)
        → QuicFs conn lru × Told Stat
    unfolding stat_replied
    stat_seen remote now path flush_ok (fs, some r) = (fs, told_stat r)
    stat_seen remote now path flush_ok (fs, none) =
        let reply : conn.State × Answer Stat = remote.getattr path fs.mount.link in
        stat_replied now path flush_ok (with_link reply.0 fs) reply.1

    unfoldable pub get_stat : Remote conn → ℕ → Name → QuicFs conn lru → QuicFs conn lru × Told Stat
    unfolding check_reconnect flush_pending cached_getattr stat_seen
    get_stat remote now path fs =
        let flushed : QuicFs conn lru × Bool = flush_pending (check_reconnect fs) in
        stat_seen remote now path flushed.1 (cached_getattr now path flushed.0)
