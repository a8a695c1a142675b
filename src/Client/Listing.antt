-- ===== src/Client/Listing.antt =====
-- client/src/conn.rs, `readdir`: asking for page after page. The server is a function of the cursor
-- that is sent; the fuel bounds the number of pages.
use quicfs.Base.{ℕ, zero, suc, List, ◌++◌, true, false}
use quicfs.Common.Status.{Status}
use quicfs.Server.ReadDir.{DirEntry, ReadDirResponse}

pub data Listed : Type 0 where
  listed : List DirEntry → Listed
  refused : Status → Listed
  unfinished : Listed

-- `check_status(resp.status)?`
unfoldable pub checked : Status → Listed → Listed
checked Status.ok next = next
checked s next = refused s

unfoldable pub readdir : (ℕ → ReadDirResponse) → ℕ → ℕ → List DirEntry → Listed
unfolding checked
readdir server zero cursor all = unfinished
readdir server (suc fuel) cursor all =
    let resp : ReadDirResponse = server cursor in
    checked resp.status (elim resp.eof [
      | true ↦ listed (all ++ resp.entries)
      | false ↦ readdir server fuel resp.cursor (all ++ resp.entries)
    ])
