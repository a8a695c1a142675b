-- ===== src/Server/ReadDir/Pages.antt =====
-- server/src/ops/meta.rs: a page is the part of the listing that begins at the cursor.
use quicfs.Base.{
  ℕ, zero, suc, ◌+◌, ◌-◌, ◌<◌, ◌≡◌, refl, sym, ◌∙◌, List, [], ◌∷◌, ◌++◌, arith, leb, length, take,
  drop, length-append, append_assoc, append-nil, take_nil, Bool-cases, inl, inr,
}
use quicfs.Server.ReadDir.{DirEntry, page_size, read_page}

fill_page :
    (out dir : List DirEntry)
    → length out < page_size
    → read_page 0 out dir ≡ out ++ take (page_size - length out) dir
unfolding read_page
fill_page out [] h = rw (take_nil {A = DirEntry} (page_size - length out)) (sym (append-nil out))
fill_page out (entry ∷ dir) h =
    let longer : length (out ++ entry ∷ []) ≡ length out + 1 = length-append out (entry ∷ []) in
    let room : page_size - length out ≡ suc (page_size - length (out ++ entry ∷ [])) =
      omega arith in
    elim (Bool-cases (leb page_size (length (out ++ entry ∷ [])))) [
      | inl full ↦
          let none_left : page_size - length (out ++ entry ∷ []) ≡ 0 = ground (arith, full) in
          rw (full, room, none_left) refl
      | inr more ↦
          rw (more, room)
            (fill_page (out ++ entry ∷ []) dir (ground (arith, more))
              ∙ append_assoc out (entry ∷ []) (take (page_size - length (out ++ entry ∷ [])) dir))
    ]

-- A page is the next 256 entries behind the cursor, or what is left of them.
pub read_page_lem :
    (cursor : ℕ) (dir : List DirEntry) → read_page cursor [] dir ≡ take page_size (drop cursor dir)
unfolding read_page
read_page_lem zero dir = fill_page [] dir (omega arith)
read_page_lem (suc cursor) [] = refl
read_page_lem (suc cursor) (entry ∷ dir) = read_page_lem cursor dir
