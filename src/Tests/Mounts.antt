-- ===== src/Tests/Mounts.antt =====
-- client/src/fuse_ops.rs: callbacks of a mount whose server always succeeds.
use quicfs.Base.{
  ℕ, ◌+◌, ◌%◌, ◌≡◌, ◌⊎◌, ◌≢◌, refl, true, false, none, some, List, [], ◌∷◌, arith, Option, Map,
}
use quicfs.Client.WriteBuf.{chunk_bytes, word_mod}
use quicfs.Client.WriteBuf.Queue.{queue}
use quicfs.Client.Mount.Account.{Delivered}
use quicfs.Client.Inodes.{new, get_or_alloc}
use quicfs.Client.Cache.{CacheConfig, found}
use quicfs.Server.Meta.{Stat}
use quicfs.Client.Fuse.{Answer, got, failed, Told, answered, Remote, QuicFs, get_stat}
use quicfs.Client.Fuse.Handles.{fsync}
use quicfs.Client.Fuse.Durable.{Synced, fsync_reported}
use quicfs.Client.Fuse.Fresh.{
  unlinks, renames, perform, Forgotten, gone, removed_paths, AreNames, perform-Forgotten,
}
use quicfs.Client.Fuse.Reconnected.{told_answer, get_stat_reconnected}
use quicfs.Tests.Machine.{roomy, roomy-LruLaws}
use quicfs.Tests.Close.{steady, mounted}

abbrev file_stat : Stat
file_stat = record {
  ino = 7;
  mode = 0x81A4;
  nlink = 1;
  uid = 0;
  gid = 0;
  size = 3;
  atime = 0;
  mtime = 0;
  ctime = 0;
  blksz = 4096;
  blocks = 1;
}

abbrev polite : Remote steady
polite = record {
  getattr = λ p l. (l + 1, got (record file_stat { size = l }));
  setattr = λ p valid c l. (l + 1, got file_stat);
  mkdir = λ p mode l. (l + 1, got file_stat);
  unlink = λ p l. (l + 1, got tt);
  rmdir = λ p l. (l + 1, got tt);
  symlink = λ t p l. (l + 1, got file_stat);
  rename = λ p q flags l. (l + 1, got tt);
  link = λ p q l. (l + 1, got file_stat);
  readlink = λ p l. (l + 1, got []);
  open_file = λ p flags l. (l + 1, got 9);
  create = λ p flags mode l. (l + 1, got (9, file_stat));
  release = λ h l. (l + 1, got tt);
  read = λ h offset n l. (l + 1, got []);
  fsync = λ h datasync l. (l + 1, got tt);
}

abbrev times : CacheConfig
times = record { max_entries = 4; pos_ttl = 100; neg_ttl = 100; dir_ttl = 100 }

-- Everything is cached, and the root has the number 1.
abbrev mount_state : ℕ → QuicFs steady (roomy Stat)
mount_state last = record {
  mount = mounted;
  cache = λ p. some (found file_stat 100);
  inodes = new [];
  next_client_fh = 2;
  last_reconnect_gen = last;
  uid_override = none;
  gid_override = none;
}

syncs : (fsync polite 1 true (mount_state 0)).1 ≡ answered tt
unfolding fsync quicfs.Base.lookup quicfs.Client.WriteBuf.batch_of quicfs.Base.insert
    quicfs.Base.without
syncs = refl

fsync_reported_example :
    (queue 1 (fsync polite 1 true (mount_state 0)).0.mount.write_buf ≡ [])
    × ((queue 1 mounted.write_buf ≡ [])
        ⊎ (Delivered steady 1 (queue 1 mounted.write_buf)
            ⊎ (chunk_bytes (queue 1 mounted.write_buf) % word_mod ≡ 0)))
    × Synced polite 1 true (fsync polite 1 true (mount_state 0)).0.mount.link
fsync_reported_example = fsync_reported polite 1 true (mount_state 0) syncs

abbrev moves : quicfs.Client.Fuse.Fresh.Removal
moves = renames 1 (b'a' ∷ []) 1 (b'b' ∷ []) 0

moves-AreNames : AreNames moves
moves-AreNames = ((λ e. cc, (λ e. omega arith, tt)), (λ e. cc, (λ e. omega arith, tt)))

moved : (perform {lru = roomy Stat} times polite moves (mount_state 0)).1 ≡ answered tt
unfolding quicfs.Client.Fuse.Names.rename quicfs.Client.Inodes.new
moved = refl

perform-Forgotten_example :
    Forgotten
      (gone moves (mount_state 0))
      (removed_paths moves (mount_state 0))
      (perform {lru = roomy Stat} times polite moves (mount_state 0)).0
perform-Forgotten_example =
    perform-Forgotten (roomy-LruLaws Stat) times polite moves (mount_state 0) moves-AreNames moved

get_stat_reconnected_example :
    (link : ℕ) × ((get_stat times polite 5 (b'/' ∷ []) (mount_state 3)).1
      ≡ told_answer (polite.getattr (b'/' ∷ []) link).1)
    × ((get_stat times polite 5 (b'/' ∷ []) (mount_state 3)).0.last_reconnect_gen ≡ 0)
get_stat_reconnected_example =
    get_stat_reconnected (roomy-LruLaws Stat) times polite 5 (b'/' ∷ []) (mount_state 3)
      (λ e. omega arith)
