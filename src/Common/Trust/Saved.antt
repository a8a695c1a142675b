-- ===== src/Common/Trust/Saved.antt =====
-- common/src/trust.rs: what is loaded is well-formed, and a save and a load give back what was saved.
use quicfs.Base.{
  ℕ, ◌≡◌, refl, ap, ◌∙◌, subst, true, false, some, List, [], ◌∷◌, ◌++◌, arith, Bool-cases,
  Option-cases, inl, inr, ◌==◌, ◌⊎◌,
}
use quicfs.Server.Sanitize.{Name}
use quicfs.Common.Text.{newline, trim, trim_start, split_word, lines, is_whitespace}
use quicfs.Common.Text.Lines.{IsWord, split_word-IsWord}
use quicfs.Common.TextMap.{TextMap}
use quicfs.Common.TextMap.Sorted.{get_text-insert_text}
use quicfs.Common.Trust.{
  is_skipped, host_line, host_lines, parse_hosts, print_hosts, Disk, DiskLaws, KnownHosts,
  hosts_header, save_text, load_hosts, save_hosts, get_host, insert_host, ensure_parent,
}
use quicfs.Common.Trust.Reload.{IsPinned, IsValid, insert_text-IsValid, parse_hosts-print}

List-cases : (t : Name) → (t ≡ []) ⊎ ((c : ℕ) × (cs : Name) × (t ≡ c ∷ cs))
List-cases [] = inl refl
List-cases (c ∷ cs) = inr (c, cs, refl)

first_word-head :
    (line : Name) (h : ℕ) (host : Name)
    → is_skipped line ≡ false
    → (split_word line).0 ≡ h ∷ host
    → (h == b'#') ≡ false
unfolding split_word
first_word-head [] h host e f = cc
first_word-head (c ∷ cs) h host e f = elim (Bool-cases (is_whitespace c)) [
  | inl b ↦ absurd (first_word_blank c cs h host b f)
  | inr b ↦ ground (arith, b, e, f)
]
  where
    first_word_blank :
        (c : ℕ) (cs : Name) (h : ℕ) (host : Name)
        → is_whitespace c ≡ true
        → (split_word (c ∷ cs)).0 ≡ h ∷ host
        → ⊥
    first_word_blank c cs h host b f = ground (arith, b, f)

host_line-IsValid : (line : Name) (m : TextMap) → IsValid m → IsValid (host_line line m)
unfolding host_line
host_line-IsValid line m v = elim (Bool-cases (is_skipped line)) [
  | inl e ↦ rw (e, host_line) v
  | inr e ↦ elim (List-cases (split_word line).0) [
    | inl f ↦ rw (e, host_line, f) v
    | inr (h, host, f) ↦ elim (List-cases (split_word (trim_start (split_word line).1)).0) [
      | inl g ↦ rw (e, host_line, f, g) v
      | inr (d, fp, g) ↦
          rw (e, host_line, f, g)
            (insert_text-IsValid (h ∷ host) (d ∷ fp) m
              (
                (subst IsWord f (split_word-IsWord line), λ z. cc, first_word-head line h host e f),
                (subst IsWord g (split_word-IsWord (trim_start (split_word line).1)), λ z. cc),
              )
              v)
    ]
  ]
]

host_lines-IsValid : (ls : List Name) (m : TextMap) → IsValid m → IsValid (host_lines ls m)
unfolding host_lines
host_lines-IsValid [] m v = v
host_lines-IsValid (line ∷ ls) m v =
    host_lines-IsValid ls (host_line (trim line) m) (host_line-IsValid (trim line) m v)

parse_hosts-IsValid : (text : Name) → IsValid (parse_hosts text)
unfolding parse_hosts
parse_hosts-IsValid text = host_lines-IsValid (lines text) [] (tt, tt)

module _ (disk : Disk) where
  load_hosts_cases :
      (path : Name) (d : disk.State) (known : KnownHosts)
      → load_hosts disk path d ≡ some known
      → (known.path ≡ path)
        × ((known.entries ≡ []) ⊎ ((text : Name) × (known.entries ≡ parse_hosts text)))
  unfolding load_hosts
  load_hosts_cases path d known e = elim (Bool-cases (disk.exists path d)) [
    | inr f ↦ (ground (arith, f, e), inl (ground (arith, f, e)))
    | inl f ↦ elim (Option-cases (disk.read_to_string path d)) [
      | inl g ↦ absurd (ground (arith, f, g, e))
      | inr (text, g) ↦ (ground (arith, f, g, e), inr (text, ground (arith, f, g, e)))
    ]
  ]

  -- Whatever the file holds, the entries that are loaded are in order and well-formed.
  pub load_hosts-IsValid :
      (path : Name) (d : disk.State) (known : KnownHosts)
      → load_hosts disk path d ≡ some known
      → IsValid known.entries × (known.path ≡ path)
  load_hosts-IsValid path d known e =
      let (same, from) = load_hosts_cases path d known e in
      (elim from [ inl z ↦ rw z (tt, tt) | inr (text, z) ↦ rw z (parse_hosts-IsValid text) ], same)

module _ (disk : Disk) (laws : DiskLaws disk) where
  save_text-read :
      (path text : Name) (mode : ℕ) (d : disk.State)
      → (save_text disk path mode text d).1 ≡ true
      → (disk.exists path (save_text disk path mode text d).0 ≡ true)
        × (disk.read_to_string path (save_text disk path mode text d).0 ≡ some text)
  unfolding save_text
  save_text-read path text mode d e = elim (Bool-cases (ensure_parent disk path d).1) [
    | inr f ↦ absurd (ground (arith, f, e))
    | inl f ↦ elim (Bool-cases (disk.write path text (ensure_parent disk path d).0).1) [
      | inr g ↦ absurd (ground (arith, f, g, e))
      | inl g ↦
          let d' : disk.State = (ensure_parent disk path d).0 in
          let d'' : disk.State = (disk.write path text d').0 in
          rw (f, save_text, g)
            (
              laws.permissions_exists path path mode d'' ∙ laws.write_exists path text d' g,
              laws.permissions_read path mode d'' ∙ laws.write_read path text d' g,
            )
    ]
  ]

  load_hosts-read :
      (path text : Name) (d : disk.State)
      → disk.exists path d ≡ true
      → disk.read_to_string path d ≡ some text
      → load_hosts disk path d ≡ some (record { path = path; entries = parse_hosts text })
  unfolding load_hosts
  load_hosts-read path text d e f = rw (e, load_hosts, f) refl

  -- Entries that were saved are loaded again, all of them and no others.
  pub load_hosts-save_hosts :
      (known : KnownHosts) (d : disk.State)
      → IsValid known.entries
      → (save_hosts disk known d).1 ≡ true
      → load_hosts disk known.path (save_hosts disk known d).0 ≡ some known
  unfolding save_hosts
  load_hosts-save_hosts known d v e =
      let text : Name = hosts_header ++ newline ∷ print_hosts known.entries in
      let (there, holds) = save_text-read known.path text 384 d e in
      load_hosts-read known.path text (save_hosts disk known d).0 there holds
      ∙ ap (λ (m : TextMap). some (record { path = known.path; entries = m }))
          (parse_hosts-print known.entries v)

  -- Whatever `known_hosts` held: if the file was loaded, a host was pinned to a fingerprint, both of
  -- them without white space, and the save succeeded, then a load gives the same entries with the new
  -- one, and the host has the fingerprint.
  pub pin_reloaded :
      (path : Name) (d : disk.State) (known : KnownHosts) (host fp : Name)
      → load_hosts disk path d ≡ some known
      → IsPinned (host, fp)
      → (save_hosts disk (insert_host host fp known) d).1 ≡ true
      → (load_hosts disk path (save_hosts disk (insert_host host fp known) d).0
          ≡ some (insert_host host fp known))
        × (get_host host (insert_host host fp known) ≡ some fp)
  unfolding insert_host get_host
  pin_reloaded path d known host fp loaded pinned saved =
      let (valid, same) = load_hosts-IsValid disk path d known loaded in
      (
        subst
            (λ (p : Name).
              load_hosts disk p (save_hosts disk (insert_host host fp known) d).0
              ≡ some (insert_host host fp known))
            same
            (load_hosts-save_hosts (insert_host host fp known) d
              (insert_text-IsValid host fp known.entries pinned valid) saved),
        get_text-insert_text host fp known.entries,
      )
