-- ===== src/Client/Fuse/Handles.antt =====
-- client/src/fuse_ops.rs: the callbacks on open files. `write` and `flush` stand in Client/Mount.
use quicfs.Base.{ℕ, String, Bool, true, false, Option, none, some, List, lookup, without}
use quicfs.Client.Errno.{enoent, estale, rpc_to_errno, flush_reply}
use quicfs.Client.WriteBuf.{drop_handle}
use quicfs.Client.Mount.{
  Conn, Mount, OpenFile, with_error, as_errno, flush_one, ensure_live, flush_handle_drain,
}
use quicfs.Client.Cache.{CacheConfig, Lru}
use quicfs.Server.Sanitize.{Name, FilePath}
use quicfs.Server.Meta.{Stat}
use quicfs.Client.Fuse.{
  Answer, got, failed, Told, answered, error, Remote, FileAttr, path_text, child_path, QuicFs,
  with_link, path_for, make_file_attr, register_open, fence_truncating_open, cache_stat,
  invalidate_cache,
}

abbrev pub told_errno {ℓ} : {A : Type ℓ} → Answer A → Told A
told_errno (got a) = answered a
told_errno (failed e) = error (rpc_to_errno e)

abbrev pub handle_of : Option OpenFile → Option ℕ
handle_of none = none
handle_of (some file) = some file.server_handle

module _ {conn : Conn} {lru : Lru Stat} (remote : Remote conn) where
  unfoldable pub opened : Name → ℕ → QuicFs conn lru → Answer ℕ → QuicFs conn lru × Told ℕ
  unfolding register_open
  opened path flags fs (failed e) = (fs, error (rpc_to_errno e))
  opened path flags fs (got server_handle) = (
    (register_open path flags server_handle fs).0,
    answered (register_open path flags server_handle fs).1,
  )

  unfoldable pub open_fenced : Name → ℕ → QuicFs conn lru × Option String → QuicFs conn lru × Told ℕ
  unfolding opened
  open_fenced path flags (fs, some e) = (fs, error (rpc_to_errno e))
  open_fenced path flags (fs, none) =
      let reply : conn.State × Answer ℕ = remote.open_file path flags fs.mount.link in
      opened path flags (with_link reply.0 fs) reply.1

  -- The callback `open`.
  unfoldable pub open_ino : ℕ → ℕ → QuicFs conn lru → QuicFs conn lru × Told ℕ
  unfolding path_for fence_truncating_open open_fenced path_text
  open_ino ino flags fs = elim (path_for ino fs) [
    | none ↦ (fs, error enoent)
    | some path ↦ open_fenced (path_text path) flags (fence_truncating_open flags fs)
  ]

  -- With a live handle, or none.
  unfoldable pub read_live :
      ℕ → ℕ → QuicFs conn lru → Mount conn × Option ℕ → QuicFs conn lru × Told (List ℕ)
  read_live offset size fs (m, none) = (record fs { mount = m }, error estale)
  read_live offset size fs (m, some h) =
      let reply : conn.State × Answer (List ℕ) = remote.read h offset size m.link in
      (record fs { mount = record m { link = reply.0 } }, told_errno reply.1)

  unfoldable pub read_flushed :
      ℕ → ℕ → ℕ → QuicFs conn lru → Mount conn × Option String → QuicFs conn lru × Told (List ℕ)
  unfolding ensure_live read_live
  read_flushed fh offset size fs (m, some e) = (record fs { mount = m }, error (rpc_to_errno e))
  read_flushed fh offset size fs (m, none) = read_live offset size fs (ensure_live true fh m)

  -- What is buffered for the handle is flushed before it is read.
  unfoldable pub read : ℕ → ℕ → ℕ → QuicFs conn lru → QuicFs conn lru × Told (List ℕ)
  unfolding flush_one read_flushed
  read fh offset size fs = read_flushed fh offset size fs (flush_one true fh fs.mount)

  unfoldable pub fsync_live :
      Bool → QuicFs conn lru → Mount conn × Option ℕ → QuicFs conn lru × Told (Unit {0})
  fsync_live datasync fs (m, none) = (record fs { mount = m }, error estale)
  fsync_live datasync fs (m, some h) =
      let reply : conn.State × Answer (Unit {0}) = remote.fsync h datasync m.link in
      (record fs { mount = record m { link = reply.0 } }, told_errno reply.1)

  unfoldable pub fsync : ℕ → Bool → QuicFs conn lru → QuicFs conn lru × Told (Unit {0})
  unfolding flush_handle_drain flush_reply ensure_live fsync_live
  fsync fh datasync fs =
      let drained : Mount conn × Option String = flush_handle_drain fh fs.mount in
      let m : Mount conn = record drained.0 {
        write_errors = with_error fh false drained.0.write_errors;
      } in
      elim (flush_reply (as_errno drained.1) (drained.0.write_errors fh)) [
        | some errno ↦ (record fs { mount = m }, error errno)
        | none ↦ fsync_live datasync fs (ensure_live true fh m)
      ]

  -- The state after the handle is forgotten; the answer to the kernel is always success.
  unfoldable pub release : ℕ → QuicFs conn lru → QuicFs conn lru
  unfolding flush_handle_drain drop_handle lookup without
  release fh fs =
      let m : Mount conn = (flush_handle_drain fh fs.mount).0 in
      let forgotten : Mount conn = record m {
        write_errors = with_error fh false m.write_errors;
        open_files = without fh m.open_files;
        write_buf = (drop_handle fh m.write_buf).0;
      } in
      elim (handle_of (lookup fh m.open_files)) [
        | none ↦ record fs { mount = forgotten }
        | some h ↦ record fs {
          mount = record forgotten { link = (remote.release h forgotten.link).0 };
        }
      ]

  module _ (cfg : CacheConfig) where
    unfoldable pub created :
        ℕ
        → FilePath
        → ℕ
        → QuicFs conn lru
        → Answer (ℕ × Stat)
        → QuicFs conn lru × Told (FileAttr × ℕ)
    unfolding cache_stat register_open make_file_attr path_text
    created now path flags fs (failed e) = (fs, error (rpc_to_errno e))
    created now path flags fs (got (server_handle, stat)) =
        let fs' : QuicFs conn lru = cache_stat cfg now (path_text path) stat fs in
        let registered : QuicFs conn lru × ℕ =
          register_open (path_text path) flags server_handle fs' in
        let numbered : QuicFs conn lru × FileAttr = make_file_attr path stat registered.0 in
        (numbered.0, answered (numbered.1, registered.1))

    unfoldable pub create_fenced :
        ℕ
        → FilePath
        → Name
        → ℕ
        → ℕ
        → QuicFs conn lru × Option String
        → QuicFs conn lru × Told (FileAttr × ℕ)
    unfolding invalidate_cache created path_text child_path
    create_fenced now dir name mode flags (fs, some e) = (fs, error (rpc_to_errno e))
    create_fenced now dir name mode flags (fs, none) =
        let path : FilePath = child_path dir name in
        let fs' : QuicFs conn lru =
          invalidate_cache cfg (path_text path) (invalidate_cache cfg (path_text dir) fs) in
        let reply : conn.State × Answer (ℕ × Stat) =
          remote.create (path_text path) flags mode fs'.mount.link in
        created now path flags (with_link reply.0 fs') reply.1

    unfoldable pub create :
        ℕ → ℕ → Name → ℕ → ℕ → QuicFs conn lru → QuicFs conn lru × Told (FileAttr × ℕ)
    unfolding path_for fence_truncating_open create_fenced
    create now parent name mode flags fs = elim (path_for parent fs) [
      | none ↦ (fs, error enoent)
      | some dir ↦ create_fenced now dir name mode flags (fence_truncating_open flags fs)
    ]
