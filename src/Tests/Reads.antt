-- ===== src/Tests/Reads.antt =====
-- A read and a listing, through the client and the server.
use quicfs.Base.{
  ℕ, zero, suc, ◌+◌, ◌-◌, min, ◌≡◌, refl, none, some, List, [], ◌∷◌, arith, length, take, drop,
}
use quicfs.File.{empty, slice, write}
use quicfs.Server.Handles.{get_handle}
use quicfs.Server.Sanitize.{Result, resolve}
use quicfs.Server.Write.{Disk}
use quicfs.Server.Read.{ReadRequest, handle_read}
use quicfs.Server.ReadDir.{DirEntry, Listing, page_size, read_page}
use quicfs.Server.ReadDir.Pages.{read_page_lem}
use quicfs.Client.Fetch.{collect}
use quicfs.Client.Listing.{readdir, listed}
use quicfs.EndToEnd.Reading.{Fetched, read_rpc_slice}
use quicfs.EndToEnd.Listing.{pages, readdir_whole}
use quicfs.Tests.Machine.{plain, plain-ReadLaws}
use quicfs.Tests.Rpc.{one_open}
use quicfs.Tests.Paths.{linkless, export}

abbrev asks : ReadRequest
asks = record { seq = 3; handle = 1; offset = 1; length = 9 }

abbrev disk : Disk
disk = λ _. write 0 (7 ∷ 8 ∷ 9 ∷ []) empty

knows : get_handle 1 one_open ≡ some quicfs.Tests.Rpc.opened
unfolding get_handle quicfs.Base.lookup
knows = refl

read_rpc_slice_example :
    Fetched
      (collect (handle_read plain one_open asks disk))
      (slice 1 (min 9 ((disk 6).size - 1)) (disk 6))
read_rpc_slice_example =
    read_rpc_slice plain one_open asks disk quicfs.Tests.Rpc.opened plain-ReadLaws (omega arith)
      (omega arith) (omega arith) knows

abbrev two_entries : List DirEntry
two_entries =
    record { name = b'x' ∷ []; ino = 4; mode = 0 }
    ∷ record { name = b'y' ∷ []; ino = 5; mode = 0 }
    ∷ []

reaches : resolve linkless export [] ≡ Result.ok export
unfolding resolve
reaches = refl

readdir_whole_example :
    readdir (pages linkless export (λ p. Listing.opened two_entries) []) 1 0 [] ≡ listed two_entries
readdir_whole_example =
    readdir_whole linkless export (λ p. Listing.opened two_entries) [] export two_entries 1 reaches
      refl (omega arith) (omega arith)

read_page_lem_example : read_page 1 [] two_entries ≡ take page_size (drop 1 two_entries)
read_page_lem_example = read_page_lem 1 two_entries
