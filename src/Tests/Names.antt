-- ===== src/Tests/Names.antt =====
-- client/src/fuse_ops.rs, `InodeTable`, and client/src/cache.rs on a few paths.
use quicfs.Base.{ℕ, ◌<◌, ◌≡◌, refl, false, none, some, List, [], ◌∷◌, arith}
use quicfs.Server.Sanitize.{FilePath}
use quicfs.Client.Inodes.{InodeTable, get_or_alloc, path_of, remove_path, rename_ino}
use quicfs.Client.Inodes.Numbers.{IsValid, alloc, table-IsValid, rename_ino-stale}
use quicfs.Client.Cache.{CacheConfig, Entry, answer, expires, get, insert}
use quicfs.Client.Cache.Latest.{put_stat, look, latest, hit_latest, get-insert}
use quicfs.Tests.Machine.{roomy, roomy-LruLaws}

abbrev a : FilePath
a = (b'a' ∷ []) ∷ []

abbrev b : FilePath
b = (b'b' ∷ []) ∷ []

abbrev calls : List quicfs.Client.Inodes.Numbers.Call
calls = alloc a ∷ alloc b ∷ []

abbrev table : InodeTable
table = quicfs.Client.Inodes.Numbers.run calls (quicfs.Client.Inodes.new [])

table-IsValid_example : IsValid 2 table
table-IsValid_example = table-IsValid [] calls (omega arith)

a_number : table.path_to_ino a ≡ some 2
unfolding quicfs.Client.Inodes.Numbers.run quicfs.Client.Inodes.Numbers.step get_or_alloc
    quicfs.Client.Inodes.new
a_number = refl

b_number : table.path_to_ino b ≡ some 3
unfolding quicfs.Client.Inodes.Numbers.run quicfs.Client.Inodes.Numbers.step get_or_alloc
    quicfs.Client.Inodes.new
b_number = refl

two_paths-IsValid : IsValid 2 table
two_paths-IsValid = table-IsValid [] calls (omega arith)

rename_ino-stale_example :
    (path_of 2 (rename_ino a b table) ≡ some b)
    × (path_of 3 (rename_ino a b table) ≡ some b)
    × (path_of 3 (remove_path b (rename_ino a b table)) ≡ some b)
rename_ino-stale_example =
    rename_ino-stale table 2 a b 2 3 two_paths-IsValid a_number b_number (λ e. omega arith)

abbrev config : CacheConfig
config = record { max_entries = 16; pos_ttl = 20; neg_ttl = 5; dir_ttl = 10 }

abbrev puts : List (quicfs.Client.Cache.Latest.Call ℕ)
puts = put_stat 3 (b'a' ∷ []) 77 false ∷ []

hits :
    (get (roomy ℕ) config 10 (b'a' ∷ []) (
      quicfs.Client.Cache.Latest.run
        (roomy ℕ)
        config
        puts
        (quicfs.Client.Cache.new (roomy ℕ) config))).1
    ≡ some (some 77)
unfolding get quicfs.Client.Cache.Latest.run quicfs.Client.Cache.Latest.step insert
    quicfs.Client.Cache.new
hits = refl

hit_latest_example :
    (e : Entry ℕ) × (latest config (b'a' ∷ []) puts none ≡ some e)
    × (answer (roomy ℕ) config (some e) ≡ some (some 77))
    × (10 < expires (roomy ℕ) config e)
hit_latest_example =
    hit_latest (roomy ℕ) (roomy-LruLaws ℕ) config (b'a' ∷ []) 10 puts (some 77) hits
