-- ===== src/EndToEnd/Listing.antt =====
-- client/src/conn.rs, `readdir`, answered by server/src/ops/meta.rs, `handle_readdir`, while the
-- directory does not change.
use quicfs.Base.{
  ℕ, zero, suc, ◌+◌, ◌*◌, ◌%◌, min, ◌≤◌, ◌<◌, ◌≡◌, refl, ap, sym, ◌∙◌, true, false, List, [], ◌++◌,
  arith, ltb, length, take, drop, length-append, append_assoc, drop-append, length-take,
  length-drop, take-append-drop, take_short, Bool-cases, inl, inr,
}
use quicfs.Common.Status.{Status}
use quicfs.Server.Handles.{u64_mod}
use quicfs.Server.Sanitize.{Name, FilePath, Fs, Result, resolve}
use quicfs.Server.ReadDir.{
  DirEntry, Listing, opened, ReadDirRequest, ReadDirResponse, page_size, read_page, page_response,
  handle_readdir,
}
use quicfs.Server.ReadDir.Pages.{read_page_lem}
use quicfs.Client.Listing.{listed, checked, readdir}

-- The server's answers, by the cursor.
abbrev pub pages : Fs → FilePath → (FilePath → Listing) → Name → ℕ → ReadDirResponse
pages fs root read_dir path cursor =
    handle_readdir fs root read_dir (record { seq = 0; path = path; cursor = cursor })

page_of :
    (before rest : List DirEntry)
    → read_page (length before) [] (before ++ rest) ≡ take page_size rest
page_of before rest =
    read_page_lem (length before) (before ++ rest) ∙ ap (take page_size) (drop-append before rest)

page_found :
    (req : ReadDirRequest) (before rest : List DirEntry)
    → req.cursor ≡ length before
    → page_response req (opened (before ++ rest)) ≡ record {
      seq = req.seq;
      status = Status.ok;
      entries = take page_size rest;
      cursor = (req.cursor + length (take page_size rest)) % u64_mod;
      eof = ltb (length (take page_size rest)) page_size;
    }
unfolding page_response
page_found req before rest e = rw (e, page_of before rest) refl

min_short : (t n p : ℕ) → t ≡ min p n → ltb n p ≡ true → (ltb t p ≡ true) × (n ≤ p)
min_short t n p e h = ground arith

min_long : (t n p : ℕ) → t ≡ min p n → ltb n p ≡ false → (ltb t p ≡ false) × (t ≡ p) × (p ≤ n)
min_long t n p e h = ground arith

last_page :
    (rest : List DirEntry)
    → ltb (length rest) page_size ≡ true
    → (ltb (length (take page_size rest)) page_size ≡ true) × (length rest ≤ page_size)
last_page rest e =
    min_short (length (take page_size rest)) (length rest) page_size (length-take page_size rest) e

full_page :
    (rest : List DirEntry)
    → ltb (length rest) page_size ≡ false
    → (ltb (length (take page_size rest)) page_size ≡ false)
      × (length (take page_size rest) ≡ page_size)
      × (page_size ≤ length rest)
full_page rest e =
    min_long (length (take page_size rest)) (length rest) page_size (length-take page_size rest) e

module _ (server : ℕ → ReadDirResponse) (seq : ℕ) where
  round_last :
      (fuel cursor next : ℕ) (all entries : List DirEntry)
      → server cursor
        ≡ record { seq = seq; status = Status.ok; entries = entries; cursor = next; eof = true }
      → readdir server (suc fuel) cursor all ≡ listed (all ++ entries)
  unfolding readdir checked
  round_last fuel cursor next all entries e =
      ap
        (λ (resp : ReadDirResponse). checked resp.status (elim resp.eof [
          | true ↦ listed (all ++ resp.entries)
          | false ↦ readdir server fuel resp.cursor (all ++ resp.entries)
        ]))
        e

  round_more :
      (fuel cursor next : ℕ) (all entries : List DirEntry)
      → server cursor
        ≡ record { seq = seq; status = Status.ok; entries = entries; cursor = next; eof = false }
      → readdir server (suc fuel) cursor all ≡ readdir server fuel next (all ++ entries)
  unfolding readdir checked
  round_more fuel cursor next all entries e =
      ap
        (λ (resp : ReadDirResponse). checked resp.status (elim resp.eof [
          | true ↦ listed (all ++ resp.entries)
          | false ↦ readdir server fuel resp.cursor (all ++ resp.entries)
        ]))
        e

module _ (fs : Fs) (root : FilePath) (read_dir : FilePath → Listing) (path : Name)
    (resolved : FilePath) (dir : List DirEntry)
    (reached : resolve fs root path ≡ Result.ok resolved)
    (found : read_dir resolved ≡ opened dir) where
  server_page :
      (before rest : List DirEntry)
      → before ++ rest ≡ dir
      → pages fs root read_dir path (length before) ≡ record {
        seq = 0;
        status = Status.ok;
        entries = take page_size rest;
        cursor = (length before + length (take page_size rest)) % u64_mod;
        eof = ltb (length (take page_size rest)) page_size;
      }
  unfolding handle_readdir
  server_page before rest whole =
      rw (reached, handle_readdir, found, ← whole)
        (page_found (record { seq = 0; path = path; cursor = length before }) before rest refl)

  list_rest :
      (fuel : ℕ) (before rest : List DirEntry)
      → before ++ rest ≡ dir
      → length rest < page_size * fuel
      → length dir < u64_mod
      → readdir (pages fs root read_dir path) fuel (length before) before ≡ listed dir
  list_rest zero before rest whole enough small = absurd (omega arith)
  list_rest (suc fuel) before rest whole enough small =
      elim (Bool-cases (ltb (length rest) page_size)) [
        | inl last ↦
            let (eof, short) = last_page rest last in
            round_last (pages fs root read_dir path) 0 fuel (length before) _ before
              (take page_size rest) (rw eof at (server_page before rest whole))
            ∙ ap (λ l. listed (before ++ l)) (take_short page_size rest short)
            ∙ ap listed whole
        | inr more ↦
            let (eof, full, long) = full_page rest more in
            let split : (before ++ take page_size rest) ++ drop page_size rest ≡ dir =
              append_assoc before (take page_size rest) (drop page_size rest)
              ∙ ap (λ (l : List DirEntry). before ++ l) (take-append-drop page_size rest)
              ∙ whole in
            let size : length before + length rest ≡ length dir =
              sym (length-append before rest) ∙ ap (λ (l : List DirEntry). length l) whole in
            let next : (length before + length (take page_size rest)) % u64_mod
                ≡ length (before ++ take page_size rest) =
              omega (arith, size, length-append before (take page_size rest), full) in
            round_more (pages fs root read_dir path) 0 fuel (length before) _ before
              (take page_size rest) (rw eof at (server_page before rest whole))
            ∙ ap
                (λ (c : ℕ).
                  readdir (pages fs root read_dir path) fuel c (before ++ take page_size rest))
                next
            ∙ list_rest fuel (before ++ take page_size rest) (drop page_size rest) split
                (omega (arith, long, length-drop page_size rest)) small
      ]

-- Listing a directory that the server can reach and read, and that does not change meanwhile, gives
-- every entry, once and in the order of the directory, after at most one page for every 256 entries
-- and one more.
pub readdir_whole :
    (fs : Fs) (root : FilePath) (read_dir : FilePath → Listing) (path : Name) (resolved : FilePath)
    (dir : List DirEntry) (fuel : ℕ)
    → resolve fs root path ≡ Result.ok resolved
    → read_dir resolved ≡ opened dir
    → length dir < u64_mod
    → length dir < page_size * fuel
    → readdir (pages fs root read_dir path) fuel 0 [] ≡ listed dir
readdir_whole fs root read_dir path resolved dir fuel reached found small enough =
    list_rest fs root read_dir path resolved dir reached found fuel [] dir refl enough small
