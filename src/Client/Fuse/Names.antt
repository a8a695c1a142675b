-- ===== src/Client/Fuse/Names.antt =====
-- client/src/fuse_ops.rs: the callbacks on names and attributes. The second result is what the kernel
-- is told; how long it may keep an answer is left out.
use quicfs.Base.{ℕ, ◌+◌, String, true, Option, none, some}
use quicfs.Client.Errno.{enoent, rpc_to_errno}
use quicfs.Client.Mount.{Conn, flush_one}
use quicfs.Client.Inodes.{remove_path, rename_ino}
use quicfs.Client.Cache.{CacheConfig, Lru}
use quicfs.Server.Sanitize.{Name, FilePath}
use quicfs.Server.Meta.{Stat, parent_of}
use quicfs.Client.Fuse.{
  Answer, got, failed, Told, answered, error, Changes, Remote, FileAttr, path_text, child_path,
  QuicFs, with_link, path_for, make_file_attr, flush_all_handles, cache_stat, invalidate_cache,
  get_stat,
}

-- The bits of the values that are given.
abbrev pub bit_of : Option ℕ → ℕ → ℕ
bit_of none b = 0
bit_of (some v) b = b

unfoldable pub valid_bits : Changes → ℕ
valid_bits c =
    bit_of c.mode 0x1
    + bit_of c.uid 0x2
    + bit_of c.gid 0x4
    + bit_of c.size 0x8
    + bit_of c.atime 0x10
    + bit_of c.mtime 0x20

abbrev pub or_errno : Option String → Told (Unit {0})
or_errno none = answered tt
or_errno (some e) = error (rpc_to_errno e)

module _ {conn : Conn} {lru : Lru Stat} (cfg : CacheConfig) (remote : Remote conn) where
  -- A stat that is told as attributes of the path.
  unfoldable pub entry_of : FilePath → QuicFs conn lru × Told Stat → QuicFs conn lru × Told FileAttr
  unfolding make_file_attr
  entry_of path (fs, error e) = (fs, error e)
  entry_of path (fs, answered stat) =
      ((make_file_attr path stat fs).0, answered (make_file_attr path stat fs).1)

  unfoldable pub lookup_name : ℕ → ℕ → Name → QuicFs conn lru → QuicFs conn lru × Told FileAttr
  unfolding path_for get_stat entry_of path_text child_path
  lookup_name now parent name fs = elim (path_for parent fs) [
    | none ↦ (fs, error enoent)
    | some dir ↦
        entry_of (child_path dir name)
          (get_stat cfg remote now (path_text (child_path dir name)) fs)
  ]

  unfoldable pub getattr : ℕ → ℕ → QuicFs conn lru → QuicFs conn lru × Told FileAttr
  unfolding path_for get_stat entry_of path_text
  getattr now ino fs = elim (path_for ino fs) [
    | none ↦ (fs, error enoent)
    | some path ↦ entry_of path (get_stat cfg remote now (path_text path) fs)
  ]

  -- The flush in front of a change of the size.
  unfoldable pub flush_for_size :
      Option ℕ → Option ℕ → QuicFs conn lru → QuicFs conn lru × Option String
  unfolding flush_all_handles flush_one
  flush_for_size none fh fs = (fs, none)
  flush_for_size (some size) none fs = flush_all_handles fs
  flush_for_size (some size) (some fh) fs =
      (record fs { mount = (flush_one true fh fs.mount).0 }, (flush_one true fh fs.mount).1)

  unfoldable pub setattr_replied :
      FilePath → QuicFs conn lru → Answer Stat → QuicFs conn lru × Told FileAttr
  unfolding invalidate_cache make_file_attr path_text
  setattr_replied path fs (failed e) = (fs, error (rpc_to_errno e))
  setattr_replied path fs (got stat) =
      let fs' : QuicFs conn lru = invalidate_cache cfg (path_text path) fs in
      ((make_file_attr path stat fs').0, answered (make_file_attr path stat fs').1)

  unfoldable pub setattr_flushed :
      FilePath → Changes → QuicFs conn lru × Option String → QuicFs conn lru × Told FileAttr
  unfolding setattr_replied valid_bits path_text
  setattr_flushed path c (fs, some e) = (fs, error (rpc_to_errno e))
  setattr_flushed path c (fs, none) =
      let reply : conn.State × Answer Stat =
        remote.setattr (path_text path) (valid_bits c) c fs.mount.link in
      setattr_replied path (with_link reply.0 fs) reply.1

  unfoldable pub setattr :
      ℕ → Changes → Option ℕ → QuicFs conn lru → QuicFs conn lru × Told FileAttr
  unfolding path_for flush_for_size setattr_flushed
  setattr ino c fh fs = elim (path_for ino fs) [
    | none ↦ (fs, error enoent)
    | some path ↦ setattr_flushed path c (flush_for_size c.size fh fs)
  ]

  unfoldable pub readlink : ℕ → QuicFs conn lru → QuicFs conn lru × Told Name
  unfolding path_for path_text
  readlink ino fs = elim (path_for ino fs) [
    | none ↦ (fs, error enoent)
    | some path ↦
        let reply : conn.State × Answer Name = remote.readlink (path_text path) fs.mount.link in
        (
          with_link reply.0 fs,
          elim reply.1 [ got target ↦ answered target | failed e ↦ error (rpc_to_errno e) ],
        )
  ]

  -- The stat of what was made is cached.
  unfoldable pub made :
      ℕ → FilePath → QuicFs conn lru → Answer Stat → QuicFs conn lru × Told FileAttr
  unfolding cache_stat make_file_attr path_text
  made now path fs (failed e) = (fs, error (rpc_to_errno e))
  made now path fs (got stat) =
      let fs' : QuicFs conn lru = cache_stat cfg now (path_text path) stat fs in
      ((make_file_attr path stat fs').0, answered (make_file_attr path stat fs').1)

  unfoldable pub mkdir : ℕ → ℕ → Name → ℕ → QuicFs conn lru → QuicFs conn lru × Told FileAttr
  unfolding path_for invalidate_cache made path_text child_path
  mkdir now parent name mode fs = elim (path_for parent fs) [
    | none ↦ (fs, error enoent)
    | some dir ↦
        let fs' : QuicFs conn lru = invalidate_cache cfg (path_text dir) fs in
        let reply : conn.State × Answer Stat =
          remote.mkdir (path_text (child_path dir name)) mode fs'.mount.link in
        made now (child_path dir name) (with_link reply.0 fs') reply.1
  ]

  -- What was removed has no number any more.
  unfoldable pub removed :
      FilePath → QuicFs conn lru → Answer (Unit {0}) → QuicFs conn lru × Told (Unit {0})
  unfolding remove_path
  removed path fs (failed e) = (fs, error (rpc_to_errno e))
  removed path fs (got u) = (record fs { inodes = remove_path path fs.inodes }, answered tt)

  unfoldable pub unlink : ℕ → Name → QuicFs conn lru → QuicFs conn lru × Told (Unit {0})
  unfolding path_for invalidate_cache removed path_text child_path
  unlink parent name fs = elim (path_for parent fs) [
    | none ↦ (fs, error enoent)
    | some dir ↦
        let fs' : QuicFs conn lru = invalidate_cache cfg (path_text (child_path dir name)) fs in
        let reply : conn.State × Answer (Unit {0}) =
          remote.unlink (path_text (child_path dir name)) fs'.mount.link in
        removed (child_path dir name) (with_link reply.0 fs') reply.1
  ]

  unfoldable pub rmdir : ℕ → Name → QuicFs conn lru → QuicFs conn lru × Told (Unit {0})
  unfolding path_for invalidate_cache removed path_text child_path
  rmdir parent name fs = elim (path_for parent fs) [
    | none ↦ (fs, error enoent)
    | some dir ↦
        let fs' : QuicFs conn lru = invalidate_cache cfg (path_text (child_path dir name)) fs in
        let reply : conn.State × Answer (Unit {0}) =
          remote.rmdir (path_text (child_path dir name)) fs'.mount.link in
        removed (child_path dir name) (with_link reply.0 fs') reply.1
  ]

  unfoldable pub symlink : ℕ → ℕ → Name → Name → QuicFs conn lru → QuicFs conn lru × Told FileAttr
  unfolding path_for made path_text child_path
  symlink now parent link_name target fs = elim (path_for parent fs) [
    | none ↦ (fs, error enoent)
    | some dir ↦
        let reply : conn.State × Answer Stat =
          remote.symlink target (path_text (child_path dir link_name)) fs.mount.link in
        made now (child_path dir link_name) (with_link reply.0 fs) reply.1
  ]

  -- Both names and the new directory leave the cache, and the number goes to the new path.
  unfoldable pub renamed :
      FilePath → FilePath → QuicFs conn lru → Answer (Unit {0}) → QuicFs conn lru × Told (Unit {0})
  unfolding invalidate_cache rename_ino path_text
  renamed old new fs (failed e) = (fs, error (rpc_to_errno e))
  renamed old new fs (got u) =
      let fs' : QuicFs conn lru =
        invalidate_cache cfg (path_text new) (invalidate_cache cfg (path_text old) fs) in
      let fs'' : QuicFs conn lru = elim (parent_of new) [
        | none ↦ fs'
        | some dir ↦ invalidate_cache cfg (path_text dir) fs'
      ] in
      (record fs'' { inodes = rename_ino old new fs''.inodes }, answered tt)

  unfoldable pub rename :
      ℕ → Name → ℕ → Name → ℕ → QuicFs conn lru → QuicFs conn lru × Told (Unit {0})
  unfolding path_for renamed path_text child_path
  rename parent name new_parent new_name flags fs = elim (path_for parent fs) [
    | none ↦ (fs, error enoent)
    | some old_dir ↦ elim (path_for new_parent fs) [
      | none ↦ (fs, error enoent)
      | some new_dir ↦
          let reply : conn.State × Answer (Unit {0}) =
            remote.rename (path_text (child_path old_dir name))
              (path_text (child_path new_dir new_name)) flags fs.mount.link in
          renamed (child_path old_dir name) (child_path new_dir new_name) (with_link reply.0 fs)
            reply.1
    ]
  ]

  -- Both names get the new stat, which counts one link more.
  unfoldable pub linked :
      ℕ → FilePath → FilePath → QuicFs conn lru → Answer Stat → QuicFs conn lru × Told FileAttr
  unfolding invalidate_cache cache_stat make_file_attr path_text
  linked now src new fs (failed e) = (fs, error (rpc_to_errno e))
  linked now src new fs (got stat) =
      let fs' : QuicFs conn lru =
        cache_stat cfg now (path_text src) stat (invalidate_cache cfg (path_text src) fs) in
      let fs'' : QuicFs conn lru =
        cache_stat cfg now (path_text new) stat (invalidate_cache cfg (path_text new) fs') in
      ((make_file_attr new stat fs'').0, answered (make_file_attr new stat fs'').1)

  unfoldable pub link : ℕ → ℕ → ℕ → Name → QuicFs conn lru → QuicFs conn lru × Told FileAttr
  unfolding path_for linked path_text child_path
  link now ino new_parent new_name fs = elim (path_for ino fs) [
    | none ↦ (fs, error enoent)
    | some src ↦ elim (path_for new_parent fs) [
      | none ↦ (fs, error enoent)
      | some dir ↦
          let reply : conn.State × Answer Stat =
            remote.link (path_text src) (path_text (child_path dir new_name)) fs.mount.link in
          linked now src (child_path dir new_name) (with_link reply.0 fs) reply.1
    ]
  ]
