-- ===== src/Tests/Rpc.antt =====
-- A write that takes two frames, through the client, the server and the file.
use quicfs.Base.{
  ℕ, ◌+◌, ◌*◌, Option, ◌<◌, ◌≡◌, ◌≢◌, refl, Bool, true, false, none, some, List, [], ◌∷◌, arith,
  length,
}
use quicfs.File.{empty}
use quicfs.Client.Errno.{told, estale}
use quicfs.Server.Handles.{OpenHandle, HandleTable, u32_mod, remove, get_write_ctx}
use quicfs.Server.Handles.Ids.{run}
use quicfs.Server.Write.{Disk, WriteResponse, is_append}
use quicfs.EndToEnd.Writing.{position}
use quicfs.EndToEnd.Rpc.{served, Answered, write_rpc_lands, write_rpc_released}
use quicfs.Tests.Machine.{plain, plain-WriteLaws}
use quicfs.Tests.Table.{entry, calls, first, finds, few_more}

abbrev pub opened : OpenHandle
opened = record { path = []; flags = 2; file = 4; ino_key = 6 }

abbrev blank : Disk
blank = λ _. empty

abbrev pub one_open : HandleTable
one_open = record { counter = 2; max_handles = 8; inner = (1, opened) ∷ [] }

knows : get_write_ctx 1 one_open ≡ some (4, 2, 6)
unfolding get_write_ctx quicfs.Base.lookup
knows = refl

write_rpc_lands_example :
    Answered
      (served plain one_open 2 9 1 10 (5 ∷ 6 ∷ 7 ∷ []) blank)
      6
      (position (is_append 2) 10 (blank 6))
      (5 ∷ 6 ∷ 7 ∷ [])
      blank
write_rpc_lands_example =
    write_rpc_lands plain 2 9 1 10 (5 ∷ 6 ∷ 7 ∷ []) one_open blank 4 2 6 plain-WriteLaws (λ e. cc)
      (omega arith) knows

write_rpc_released_example :
    let result : Disk × Option WriteResponse =
      served plain
        (run calls (remove (7 * u32_mod + 1) first).0)
        2
        9
        (7 * u32_mod + 1)
        10
        (5 ∷ [])
        blank in
    (result.0 ≡ blank)
    × (r : WriteResponse) × (result.1 ≡ some r)
    × (r.written ≡ 0)
    × (told r.status ≡ some estale)
write_rpc_released_example =
    write_rpc_released plain 7 2 calls calls (7 * u32_mod + 1) entry 2 9 10 (5 ∷ []) blank few_more
      finds (λ e. cc)
