-- ===== src/Tests/Close.antt =====
-- client/src/fuse_ops.rs: a close that flushes two buffered writes to a server that takes them.
use quicfs.Base.{ℕ, ◌+◌, ◌%◌, ◌≡◌, ◌⊎◌, refl, false, ◌||◌, none, List, [], ◌∷◌}
use quicfs.Client.WriteBuf.{chunk_bytes, word_mod}
use quicfs.Client.WriteBuf.Queue.{queue}
use quicfs.Client.Mount.{Conn, Mount, flush}
use quicfs.Client.Mount.Account.{Delivered, Settled}
use quicfs.Client.Mount.Background.{ticks, unmount}
use quicfs.Client.Mount.Background.Told.{background_told}
use quicfs.Client.Mount.Close.{flush_reported}
use quicfs.Tests.Buffer.{filled}

abbrev pub steady : Conn
steady = record {
  State = ℕ;
  reconnect_gen = λ s. 0;
  open_rpc = λ path flags s. (s, none);
  write_rpc = λ h offset payload s. (s + 1, none);
}

abbrev pub mounted : Mount steady
mounted = record {
  write_buf = filled;
  write_errors = λ k. false;
  open_files =
      (1, record { path = []; flags = 2; server_handle = 9; opened_gen = 0; is_append = false })
      ∷ [];
  link = 0;
}

closes : (flush 1 mounted).1 ≡ none
unfolding flush quicfs.Base.lookup quicfs.Client.WriteBuf.batch_of quicfs.Base.insert
    quicfs.Base.without
closes = refl

flush_reported_example :
    (queue 1 (flush 1 mounted).0.write_buf ≡ [])
    × ((queue 1 filled ≡ [])
        ⊎ (Delivered steady 1 (queue 1 filled) ⊎ (chunk_bytes (queue 1 filled) % word_mod ≡ 0)))
flush_reported_example = flush_reported steady 1 mounted closes

background_told_example :
    let m' : Mount steady = unmount (ticks ((5, 6) ∷ (90, 95) ∷ []) mounted) in
    ((queue 1 m'.write_buf ≡ queue 1 filled) ⊎ Settled steady 1 mounted m')
    × (m'.write_errors 1 ≡ (false || m'.write_errors 1))
background_told_example = background_told steady 1 ((5, 6) ∷ (90, 95) ∷ []) mounted
