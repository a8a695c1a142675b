-- ===== src/Client/Fetch.antt =====
-- client/src/conn.rs, `read`: collecting the frames that answer one Read RPC.
use quicfs.Base.{ℕ, List, [], ◌∷◌, ◌++◌, if◌then◌else◌}
use quicfs.Common.Status.{Status}
use quicfs.Server.Read.{ReadResponse}

pub data Collected : Type 0 where
  whole : List ℕ → Collected
  -- `check_status` failed.
  refused : Status → Collected
  -- The stream ended before the last frame.
  broken : Collected

abbrev pub prepend : List ℕ → Collected → Collected
prepend bytes (whole rest) = whole (bytes ++ rest)
prepend bytes (refused s) = refused s
prepend bytes broken = broken

-- `check_status(resp.status)?`
unfoldable pub checked : Status → Collected → Collected
checked Status.ok next = next
checked s next = refused s

-- The loop over the frames.
unfoldable pub collect : List ReadResponse → Collected
unfolding checked
collect [] = broken
collect (r ∷ rs) =
    let rest : Collected = collect rs in
    checked r.status (if r.eof then whole r.payload else prepend r.payload rest)
