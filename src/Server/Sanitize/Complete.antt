-- ===== src/Server/Sanitize/Complete.antt =====
-- server/src/sanitize.rs: every path that may be named can be named.
use quicfs.Base.{
  ℕ, ◌≤◌, ◌≡◌, ◌≢◌, refl, ap, sym, ◌∙◌, true, List, [], ◌∷◌, ◌++◌, arith, length, All, append_assoc,
  append-nil, le→ltb,
}
use quicfs.Server.Sanitize.{
  Name, FilePath, Fs, max_path_len, max_path_depth, slash, trim_slashes, split_slash, push_parts,
  walk, check_canonical, resolve, ok, classify, keep, name_eq, dot, dot_dot,
}
use quicfs.Server.Sanitize.Split.{Lacks, IsComponent, Lacks-has_byte}
use quicfs.Server.Sanitize.Sound.{inner_dirs, NoLinks, inside}

abbrev pub Clean : Name → Type 0
Clean n = (Lacks slash n × Lacks 0 n) × IsComponent n

-- `/a/b/c`, and the empty path for the root.
unfoldable pub to_text : List Name → Name
to_text [] = []
to_text (n ∷ ns) = slash ∷ (n ++ to_text ns)

pub name_eq-eq : (a b : Name) → name_eq a b ≡ true → a ≡ b
name_eq-eq [] [] h = refl
name_eq-eq [] (b ∷ bs) h = cc
name_eq-eq (a ∷ as') [] h = cc
name_eq-eq (a ∷ as') (b ∷ bs) h = ground (arith, name_eq-eq as' bs)

classify-keep : (n : Name) → IsComponent n → classify n ≡ keep
unfolding classify
classify-keep n c = ground (arith, name_eq-eq n [], name_eq-eq n dot, name_eq-eq n dot_dot)

push_parts-keep : (ns acc : List Name) → All Clean ns → push_parts ns acc ≡ ok (acc ++ ns)
unfolding push_parts
push_parts-keep [] acc h = ap ok (sym (append-nil acc))
push_parts-keep (n ∷ ns) acc h =
    rw (classify-keep n h.0.1, push_parts)
      (push_parts-keep ns (acc ++ n ∷ []) h.1 ∙ ap ok (append_assoc acc (n ∷ []) ns))

-- The first part of a text ends at its first slash.
split_slash-append :
    (n : Name) (ns : List Name) (rest : Name)
    → Lacks slash n
    → split_slash rest ≡ [] ∷ ns
    → split_slash (n ++ rest) ≡ n ∷ ns
unfolding split_slash
split_slash-append [] ns rest h e = e
split_slash-append (c ∷ n) ns rest h e = ground (arith, split_slash-append n ns rest h.1 e)

split_slash-to_text : (ns : List Name) → All Clean ns → split_slash (to_text ns) ≡ [] ∷ ns
unfolding split_slash to_text
split_slash-to_text [] h = refl
split_slash-to_text (n ∷ ns) h =
    ground (arith, split_slash-append n ns (to_text ns) h.0.0.0 (split_slash-to_text ns h.1))

trim_slashes-append :
    (n rest : Name) → Lacks slash n → n ≢ [] → trim_slashes (slash ∷ (n ++ rest)) ≡ n ++ rest
unfolding trim_slashes
trim_slashes-append [] rest h ne = absurd (ne refl)
trim_slashes-append (c ∷ n) rest h ne = ground arith

push_parts-to_text :
    (ns : List Name)
    → All Clean ns
    → push_parts (split_slash (trim_slashes (to_text ns))) [] ≡ ok ns
unfolding to_text
push_parts-to_text [] h = unfold trim_slashes split_slash push_parts classify in refl
push_parts-to_text (n ∷ ns) h =
    ap (λ t. push_parts (split_slash t) []) (trim_slashes-append n (to_text ns) h.0.0.0 h.0.1.0)
    ∙ ap (λ ps. push_parts ps [])
        (split_slash-append n ns (to_text ns) h.0.0.0 (split_slash-to_text ns h.1))
    ∙ push_parts-keep (n ∷ ns) [] h

Lacks-append : (b : ℕ) (m n : Name) → Lacks b m → Lacks b n → Lacks b (m ++ n)
Lacks-append b [] n h g = g
Lacks-append b (c ∷ m) n h g = (h.0, Lacks-append b m n h.1 g)

to_text-Lacks : (ns : List Name) → All Clean ns → Lacks 0 (to_text ns)
unfolding to_text
to_text-Lacks [] h = tt
to_text-Lacks (n ∷ ns) h =
    (omega arith, Lacks-append 0 n (to_text ns) h.0.0.1 (to_text-Lacks ns h.1))

walk_complete :
    (fs : Fs) (w : FilePath) (cs : List Name) → NoLinks fs w cs → walk fs w cs ≡ ok (w ++ cs)
unfolding walk inner_dirs
walk_complete fs w [] h = ap ok (sym (append-nil w))
walk_complete fs w (c ∷ []) h = refl
walk_complete fs w (c ∷ d ∷ cs) h =
    rw (h.0, walk)
      (walk_complete fs (w ++ c ∷ []) (d ∷ cs) h.1 ∙ ap ok (append_assoc w (c ∷ []) (d ∷ cs)))

check_canonical_complete :
    (fs : Fs) (root p : FilePath) → inside fs root p ≡ true → check_canonical fs root p ≡ ok p
unfolding check_canonical
check_canonical_complete fs root p h = ground arith

-- Any components within the limits, with no link among the directories on the way and a canonical
-- form that does not leave the root, are reached by the text that joins them with slashes.
pub resolve-to_text :
    (fs : Fs) (root : FilePath) (names : List Name)
    → All Clean names
    → length names ≤ max_path_depth
    → length (to_text names) ≤ max_path_len
    → NoLinks fs root names
    → inside fs root (root ++ names) ≡ true
    → resolve fs root (to_text names) ≡ ok (root ++ names)
unfolding resolve
resolve-to_text fs root names clean shallow short links within =
    rw
      (
        le→ltb max_path_len (length (to_text names)) short,
        Lacks-has_byte 0 (to_text names) (to_text-Lacks names clean),
        push_parts-to_text names clean,
        le→ltb max_path_depth (length names) shallow,
        walk_complete fs root names links,
      )
      (check_canonical_complete fs root (root ++ names) within)
