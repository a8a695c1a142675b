-- ===== src/Common/Trust/Reload.antt =====
-- common/src/trust.rs: what `known_hosts` holds survives a save and a load.
use quicfs.Base.{
  ℕ, ◌≡◌, ◌≢◌, refl, sym, ap, ◌∙◌, ◌≡⟨◌⟩◌, ◌∎, subst, true, false, List, [], ◌∷◌, ◌++◌, All, inl,
  inr, append-nil, append_assoc,
}
use quicfs.Server.Sanitize.{Name}
use quicfs.Common.Text.{
  newline, space, begins_with, trim, trim_start, trim_end, split_word, lines, is_whitespace,
}
use quicfs.Common.Text.Lines.{
  IsWord, breaks, lines-append, breaks-append, IsWord-breaks, split_word-append, split_word_all,
  trim-append,
}
use quicfs.Common.TextMap.{TextMap, insert_text, text_cmp}
use quicfs.Common.TextMap.Sorted.{
  IsSorted, insert_text-IsSorted, insert_text_last, IsSorted-append, Ordering-cases,
}
use quicfs.Common.Trust.{is_skipped, host_line, host_lines, parse_hosts, print_hosts, hosts_header}

abbrev pub IsFingerprint : Name → Type 0
IsFingerprint fp = IsWord fp × (fp ≢ [])

-- A host and a fingerprint without white space, such that the line is no comment.
abbrev pub IsPinned : Name × Name → Type 0
IsPinned e = (IsWord e.0 × (e.0 ≢ []) × (begins_with b'#' e.0 ≡ false)) × IsFingerprint e.1

abbrev pub IsValid : TextMap → Type 0
IsValid m = IsSorted m × All IsPinned m

insert_text-All :
    (k v : Name) (m : TextMap) → IsPinned (k, v) → All IsPinned m → All IsPinned (insert_text k v m)
unfolding insert_text
insert_text-All k v [] p h = (p, tt)
insert_text-All k v ((j, w) ∷ m) p h = elim (Ordering-cases (text_cmp k j)) [
  | inl e ↦ rw (e, insert_text) (p, h)
  | inr (inl e) ↦ rw (e, insert_text) (p, h.1)
  | inr (inr e) ↦ rw (e, insert_text) (h.0, insert_text-All k v m p h.1)
]

pub insert_text-IsValid :
    (k v : Name) (m : TextMap) → IsPinned (k, v) → IsValid m → IsValid (insert_text k v m)
insert_text-IsValid k v m p h = (insert_text-IsSorted k v m h.0, insert_text-All k v m p h.1)

space-IsBlank : is_whitespace space ≡ true
unfolding is_whitespace
space-IsBlank = refl

no_lines : (acc : TextMap) → host_lines (lines (print_hosts [])) acc ≡ acc
unfolding host_lines lines print_hosts
no_lines acc = refl

header_skipped :
    (text : Name) → parse_hosts (hosts_header ++ newline ∷ text) ≡ host_lines (lines text) []
unfolding parse_hosts lines host_lines host_line trim trim_start trim_end is_whitespace
header_skipped text = refl

print_hosts-cons :
    (host fp : Name) (m : TextMap)
    → print_hosts ((host, fp) ∷ m) ≡ (host ++ space ∷ fp) ++ newline ∷ print_hosts m
unfolding print_hosts
print_hosts-cons host fp m = sym (append_assoc host (space ∷ fp) (newline ∷ print_hosts m))

space-breaks : (fp : Name) → breaks (space ∷ fp) ≡ breaks fp
unfolding breaks
space-breaks fp = refl

line-breaks : (host fp : Name) → IsWord host → IsWord fp → breaks (host ++ space ∷ fp) ≡ false
line-breaks host fp h f =
    rw (breaks-append host (space ∷ fp), IsWord-breaks host h, space-breaks fp, IsWord-breaks fp f)

-- A line with two words.
host_line_words :
    (line : Name) (b : ℕ) (a : Name) (c : ℕ) (w : Name) (m : TextMap)
    → is_skipped line ≡ false
    → (split_word line).0 ≡ b ∷ a
    → (split_word (trim_start (split_word line).1)).0 ≡ c ∷ w
    → host_line line m ≡ insert_text (b ∷ a) (c ∷ w) m
unfolding host_line
host_line_words line b a c w m e f g = rw (e, f, g) refl

second_word : (c : ℕ) (w : Name) → IsWord (c ∷ w) → trim_start (space ∷ c ∷ w) ≡ c ∷ w
unfolding trim_start
second_word c w h = rw h.0 refl

-- The words of a line that was printed are the entry.
host_line-trim :
    (b : ℕ) (a : Name) (c : ℕ) (w : Name) (m : TextMap)
    → IsPinned (b ∷ a, c ∷ w)
    → host_line (trim ((b ∷ a) ++ space ∷ c ∷ w)) m ≡ insert_text (b ∷ a) (c ∷ w) m
host_line-trim b a c w m p =
    let whole : trim ((b ∷ a) ++ space ∷ c ∷ w) ≡ (b ∷ a) ++ space ∷ c ∷ w =
      subst (λ (t : Name). trim (b ∷ t) ≡ b ∷ t) (append_assoc a (space ∷ []) (c ∷ w))
        (trim-append b (a ++ space ∷ []) c w p.0.0.0 p.1.0) in
    let words : split_word ((b ∷ a) ++ space ∷ c ∷ w) ≡ (b ∷ a, space ∷ c ∷ w) =
      split_word-append (b ∷ a) space (c ∷ w) p.0.0 space-IsBlank in
    rw whole (
      host_line_words ((b ∷ a) ++ space ∷ c ∷ w) b a c w m p.0.2
        (ap (λ (q : Name × Name). q.0) words)
        (ap (λ (q : Name × Name). (split_word (trim_start q.1)).0) words
          ∙ (ap (λ (t : Name). (split_word t).0) (second_word c w p.1.0)
              ∙ ap (λ (q : Name × Name). q.0) (split_word_all (c ∷ w) p.1.0))))

host_lines-cons :
    (line : Name) (ls : List Name) (m : TextMap)
    → host_lines (line ∷ ls) m ≡ host_lines ls (host_line (trim line) m)
unfolding host_lines
host_lines-cons line ls m = refl

-- The lines of a printed entry and of the entries behind it.
lines-print_hosts :
    (host fp : Name) (m : TextMap)
    → IsWord host
    → IsWord fp
    → lines (print_hosts ((host, fp) ∷ m)) ≡ (host ++ space ∷ fp) ∷ lines (print_hosts m)
lines-print_hosts host fp m h f =
    ap lines (print_hosts-cons host fp m)
    ∙ lines-append (host ++ space ∷ fp) (print_hosts m) (line-breaks host fp h f)

host_lines-lines :
    (acc m : TextMap)
    → IsSorted (acc ++ m)
    → All IsPinned m
    → host_lines (lines (print_hosts m)) acc ≡ acc ++ m
host_lines-lines acc [] s h = no_lines acc ∙ sym (append-nil acc)
host_lines-lines acc (([], f) ∷ m) s h = absurd (h.0.0.1 refl)
host_lines-lines acc ((b ∷ a, []) ∷ m) s h = absurd (h.0.1.1 refl)
host_lines-lines acc ((b ∷ a, c ∷ w) ∷ m) s h =
    let whole : (acc ++ (b ∷ a, c ∷ w) ∷ []) ++ m ≡ acc ++ (b ∷ a, c ∷ w) ∷ m =
      append_assoc acc ((b ∷ a, c ∷ w) ∷ []) m in
    host_lines (lines (print_hosts ((b ∷ a, c ∷ w) ∷ m))) acc
    ≡⟨ ap (λ (ls : List Name). host_lines ls acc)
        (lines-print_hosts (b ∷ a) (c ∷ w) m h.0.0.0 h.0.1.0) ⟩
      host_lines (((b ∷ a) ++ space ∷ c ∷ w) ∷ lines (print_hosts m)) acc
    ≡⟨ host_lines-cons ((b ∷ a) ++ space ∷ c ∷ w) (lines (print_hosts m)) acc ⟩
      host_lines (lines (print_hosts m)) (host_line (trim ((b ∷ a) ++ space ∷ c ∷ w)) acc)
    ≡⟨ ap (host_lines (lines (print_hosts m))) (
        host_line-trim b a c w acc h.0
        ∙ insert_text_last (b ∷ a) (c ∷ w) acc (IsSorted-append acc m (b ∷ a) (c ∷ w) s)) ⟩
      host_lines (lines (print_hosts m)) (acc ++ (b ∷ a, c ∷ w) ∷ [])
    ≡⟨ host_lines-lines (acc ++ (b ∷ a, c ∷ w) ∷ []) m (subst IsSorted (sym whole) s) h.1 ⟩
      (acc ++ (b ∷ a, c ∷ w) ∷ []) ++ m
    ≡⟨ whole ⟩ acc ++ (b ∷ a, c ∷ w) ∷ m ∎

-- The text that is saved holds the entries.
pub parse_hosts-print :
    (m : TextMap) → IsValid m → parse_hosts (hosts_header ++ newline ∷ print_hosts m) ≡ m
parse_hosts-print m v = header_skipped (print_hosts m) ∙ host_lines-lines [] m v.0 v.1
