-- ===== src/Server/ReadDir.antt =====
-- server/src/ops/meta.rs, `handle_readdir`: one page of a directory. What `read_dir` finds, in its order
-- and without the entries that could not be read, is given by a function.
pub mod Pages
pub mod Served
use quicfs.Base.{
  ℕ, zero, suc, ◌+◌, ◌%◌, Bool, true, false, ◌||◌, not, List, [], ◌∷◌, ◌++◌, ltb, leb,
  if◌then◌else◌, length,
}
use quicfs.Common.Status.{Status, ErrorKind, from_io, permission}
use quicfs.Server.Handles.{u64_mod}
use quicfs.Server.Sanitize.{Name, FilePath, Fs, Result, resolve}

pub record DirEntry : Type 0 where
  pub name : Name
  pub ino : ℕ
  pub mode : ℕ

pub data Listing : Type 0 where
  opened : List DirEntry → Listing
  failed : ErrorKind → Listing

pub record ReadDirRequest : Type 0 where
  pub seq : ℕ
  pub path : Name
  pub cursor : ℕ

pub record ReadDirResponse : Type 0 where
  pub seq : ℕ
  pub status : Status
  pub entries : List DirEntry
  pub cursor : ℕ
  pub eof : Bool

abbrev pub page_size : ℕ
page_size = 256

-- The loop over the entries: skip those before the cursor, and stop at a full page.
unfoldable pub read_page : ℕ → List DirEntry → List DirEntry → List DirEntry
read_page skip out [] = out
read_page (suc skip) out (entry ∷ dir) = read_page skip out dir
read_page zero out (entry ∷ dir) =
    let more : List DirEntry = read_page zero (out ++ entry ∷ []) dir in
    if leb page_size (length (out ++ entry ∷ [])) then out ++ entry ∷ [] else more

-- The answer for a listing.
unfoldable pub page_response : ReadDirRequest → Listing → ReadDirResponse
unfolding read_page
page_response req (failed k) = record {
  seq = req.seq;
  status = from_io k;
  entries = [];
  cursor = req.cursor;
  eof = true;
}
page_response req (opened dir) =
    let entries : List DirEntry = read_page req.cursor [] dir in
    record {
      seq = req.seq;
      status = Status.ok;
      entries = entries;
      cursor = (req.cursor + length entries) % u64_mod;
      eof = ltb (length entries) page_size;
    }

unfoldable pub handle_readdir :
    Fs → FilePath → (FilePath → Listing) → ReadDirRequest → ReadDirResponse
unfolding page_response
handle_readdir fs root read_dir req = elim (resolve fs root req.path) [
  | Result.ok resolved ↦ page_response req (read_dir resolved)
  | Result.err e ↦ record {
    seq = req.seq;
    status = permission;
    entries = [];
    cursor = 0;
    eof = true;
  }
]
