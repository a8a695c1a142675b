-- ===== src/Tests/Metadata.antt =====
-- client/src/conn.rs and server/src/ops/meta.rs: a change of names on a system in which every call gives
-- a descriptor, so that no stat succeeds.
use quicfs.Base.{ℕ, ◌+◌, ◌≡◌, [], ◌∷◌}
use quicfs.Client.Calls.{Link}
use quicfs.EndToEnd.Metadata.{made_dir, attempted, performed, expected, server}
use quicfs.EndToEnd.Metadata.Told.{change_told}
use quicfs.Server.Handles.{with_limit}
use quicfs.Server.Os.{value}
use quicfs.Server.Os.Run.{Machine}
use quicfs.Server.Sanitize.{FilePath}
use quicfs.Tests.Paths.{linkless, export}
use quicfs.Tests.Requests.{durable}

abbrev counting : Machine
counting = record { State = ℕ; reply = λ c s. (s + 1, value 5) }

abbrev by_zero : FilePath → ℕ
by_zero path = 0

abbrev fresh : Link (server counting linkless durable export by_zero)
fresh = record { next = 1; server = (0, with_limit 7 2) }

-- The directory is made, and no attributes are got of it.
change_told_example :
    (performed (made_dir (b'/' ∷ b'a' ∷ []) 493) fresh).1
    ≡ expected counting durable export
        (attempted linkless export (made_dir (b'/' ∷ b'a' ∷ []) 493))
        0
change_told_example =
    change_told counting linkless durable export by_zero (made_dir (b'/' ∷ b'a' ∷ []) 493) fresh
