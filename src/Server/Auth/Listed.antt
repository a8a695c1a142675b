-- ===== src/Server/Auth/Listed.antt =====
-- server/src/verify.rs and common/src/trust.rs: the keys that are accepted are those that stand in the
-- lines of the file `authorized_keys`.
use quicfs.Base.{
  ◌≡◌, ◌≢◌, refl, sym, ap, ◌∙◌, Bool, true, false, ◌&&◌, ◌||◌, not, Option, none, some, List, [],
  ◌∷◌, arith, Bool-cases, inl, inr, Ordering,
}
use quicfs.Server.Sanitize.{Name, name_eq}
use quicfs.Server.Sanitize.Complete.{name_eq-eq}
use quicfs.Server.Sanitize.Split.{name_eq_refl}
use quicfs.Common.Text.{trim, split_word, lines}
use quicfs.Common.TextMap.{TextMap, text_cmp, insert_text, get_text}
use quicfs.Common.TextMap.Sorted.{
  text_cmp_self, text_cmp-eq, text_cmp-gt, text_cmp_trans, Ordering-cases,
}
use quicfs.Common.Trust.{
  AuthorizedKeys, is_skipped, key_line, key_lines, parse_keys, has_no_keys, contains_key, Disk,
  load_keys,
}
use quicfs.Server.Auth.{verify_client_cert}

-- The line gives a key: it is neither empty nor a comment.
abbrev pub gives_key : Name → Bool
gives_key line = not (is_skipped (trim line))

-- The key that a line gives.
abbrev pub key_of : Name → Name
key_of line = (split_word (trim line)).0

-- Some line gives the key.
unfoldable pub is_listed : Name → List Name → Bool
is_listed fp [] = false
is_listed fp (line ∷ ls) = (gives_key line && name_eq fp (key_of line)) || is_listed fp ls

-- Some line gives a key.
unfoldable pub any_key : List Name → Bool
any_key [] = false
any_key (line ∷ ls) = gives_key line || any_key ls

abbrev is_some : Option Name → Bool
is_some none = false
is_some (some v) = true

name_eq-text_cmp : (a b : Name) → text_cmp a b ≡ Ordering.eq → name_eq a b ≡ true
name_eq-text_cmp a b e = rw (text_cmp-eq a b e) (name_eq_refl b)

text_cmp-name_eq : (a b : Name) → name_eq a b ≡ true → text_cmp a b ≡ Ordering.eq
text_cmp-name_eq a b e = ap (text_cmp a) (sym (name_eq-eq a b e)) ∙ text_cmp_self a

name_ne : (a b : Name) (o : Ordering) → text_cmp a b ≡ o → o ≢ Ordering.eq → name_eq a b ≡ false
name_ne a b o e n = elim (Bool-cases (name_eq a b)) [
  | inl same ↦ absurd (n (sym e ∙ text_cmp-name_eq a b same))
  | inr other ↦ other
]

-- A key is in the map after an insertion if it is the one that was inserted, or was there.
is_some-get_text :
    (j k v : Name) (m : TextMap)
    → is_some (get_text j (insert_text k v m)) ≡ (name_eq j k || is_some (get_text j m))
unfolding insert_text get_text
is_some-get_text j k v [] = elim (Ordering-cases (text_cmp j k)) [
  | inl e ↦ rw (e, insert_text, get_text, name_ne j k Ordering.lt e (λ z. cc))
  | inr (inl e) ↦ rw (e, insert_text, get_text, name_eq-text_cmp j k e)
  | inr (inr e) ↦ rw (e, insert_text, get_text, name_ne j k Ordering.gt e (λ z. cc))
]
is_some-get_text j k v ((i, w) ∷ m) = elim (Ordering-cases (text_cmp k i)) [
  | inl ki ↦ elim (Ordering-cases (text_cmp j k)) [
    | inl e ↦ rw (
      ki,
      insert_text,
      e,
      get_text,
      name_ne j k Ordering.lt e (λ z. cc),
      text_cmp_trans j k i e ki,
    )
    | inr (inl e) ↦ rw (ki, insert_text, e, get_text, name_eq-text_cmp j k e)
    | inr (inr e) ↦ rw (ki, insert_text, e, get_text, name_ne j k Ordering.gt e (λ z. cc))
  ]
  | inr (inl ki) ↦ elim (Ordering-cases (text_cmp j k)) [
    | inl e ↦
        rw (ki, insert_text, ← text_cmp-eq k i ki, get_text, e, name_ne j k Ordering.lt e (λ z. cc))
    | inr (inl e) ↦ rw (ki, insert_text, ← text_cmp-eq k i ki, get_text, e, name_eq-text_cmp j k e)
    | inr (inr e) ↦
        rw (ki, insert_text, ← text_cmp-eq k i ki, get_text, e, name_ne j k Ordering.gt e (λ z. cc))
  ]
  | inr (inr ki) ↦ elim (Ordering-cases (text_cmp j i)) [
    | inl e ↦ rw (
      ki,
      insert_text,
      get_text,
      e,
      name_ne j k Ordering.lt (text_cmp_trans j i k e (text_cmp-gt k i ki)) (λ z. cc),
    )
    | inr (inl e) ↦ rw (ki, insert_text, get_text, e) (ground arith)
    | inr (inr e) ↦ rw (ki, insert_text, get_text, e) (is_some-get_text j k v m)
  ]
]

listed_here :
    (fp line : Name) (m : TextMap)
    → is_some (get_text fp (key_line (trim line) m))
      ≡ ((gives_key line && name_eq fp (key_of line)) || is_some (get_text fp m))
unfolding key_line
listed_here fp line m = elim (Bool-cases (is_skipped (trim line))) [
  | inl e ↦ rw (e, key_line) refl
  | inr e ↦ rw (e, key_line) (is_some-get_text fp (key_of line) (trim (split_word (trim line)).1) m)
]

or_regroup : (a b c : Bool) → (b || (a || c)) ≡ ((a || b) || c)
or_regroup a b c = ground arith

listed_in_lines :
    (fp : Name) (ls : List Name) (m : TextMap)
    → is_some (get_text fp (key_lines ls m)) ≡ (is_listed fp ls || is_some (get_text fp m))
unfolding key_lines is_listed
listed_in_lines fp [] m = refl
listed_in_lines fp (line ∷ ls) m =
    listed_in_lines fp ls (key_line (trim line) m)
    ∙ (ap (λ (b : Bool). is_listed fp ls || b) (listed_here fp line m)
        ∙ or_regroup (gives_key line && name_eq fp (key_of line)) (is_listed fp ls)
            (is_some (get_text fp m)))

abbrev is_nil : TextMap → Bool
is_nil [] = true
is_nil (e ∷ m) = false

insert_text-is_nil : (k v : Name) (m : TextMap) → is_nil (insert_text k v m) ≡ false
unfolding insert_text
insert_text-is_nil k v [] = refl
insert_text-is_nil k v ((i, w) ∷ m) = ground arith

nil_here :
    (line : Name) (m : TextMap)
    → is_nil (key_line (trim line) m) ≡ (not (gives_key line) && is_nil m)
unfolding key_line
nil_here line m = elim (Bool-cases (is_skipped (trim line))) [
  | inl e ↦ rw (e, key_line) refl
  | inr e ↦ rw (e, key_line) (insert_text-is_nil (key_of line) (trim (split_word (trim line)).1) m)
]

not_regroup : (a b c : Bool) → (not b && (not a && c)) ≡ (not (a || b) && c)
not_regroup a b c = ground arith

nil_lines :
    (ls : List Name) (m : TextMap) → is_nil (key_lines ls m) ≡ (not (any_key ls) && is_nil m)
unfolding key_lines any_key
nil_lines [] m = refl
nil_lines (line ∷ ls) m =
    nil_lines ls (key_line (trim line) m)
    ∙ (ap (λ (b : Bool). not (any_key ls) && b) (nil_here line m)
        ∙ not_regroup (gives_key line) (any_key ls) (is_nil m))

nothing_listed : (fp : Name) (b : Bool) → (b || is_some (get_text fp [])) ≡ b
unfolding get_text
nothing_listed fp b = ground arith

join_tests :
    (a b c d x : Bool) → a ≡ c → b ≡ (not d && true) → (a || (b && x)) ≡ (c || (not d && x))
join_tests a b c d x p q = ground arith

accepted :
    (fp : Name) (allow_any : Bool) (path : Name) (m : TextMap)
    → verify_client_cert
        (record { authorized = record { path = path; fingerprints = m }; allow_any = allow_any })
        (some fp)
      ≡ (is_some (get_text fp m) || (is_nil m && allow_any))
unfolding verify_client_cert contains_key has_no_keys
accepted fp allow_any path m = ground arith

module _ (disk : Disk) where
  load_keys-read :
      (path text : Name) (d : disk.State)
      → disk.exists path d ≡ true
      → disk.read_to_string path d ≡ some text
      → load_keys disk path d ≡ some (record { path = path; fingerprints = parse_keys text })
  unfolding load_keys
  load_keys-read path text d e f = rw (e, load_keys, f) refl

  -- The file `authorized_keys` can always be loaded once it is read, and with what it gives the server
  -- accepts a client's key exactly when the file has a line, neither empty nor a comment, whose first
  -- word is the fingerprint of the key, or has no such line at all and any client is allowed. A
  -- client without a fingerprint is refused.
  pub verify_client_cert-listed :
      (path text fp : Name) (allow_any : Bool) (d : disk.State)
      → disk.exists path d ≡ true
      → disk.read_to_string path d ≡ some text
      → (keys : AuthorizedKeys) × (load_keys disk path d ≡ some keys)
        × (verify_client_cert (record { authorized = keys; allow_any = allow_any }) (some fp)
            ≡ (is_listed fp (lines text) || (not (any_key (lines text)) && allow_any)))
        × (verify_client_cert (record { authorized = keys; allow_any = allow_any }) none ≡ false)
  unfolding parse_keys verify_client_cert
  verify_client_cert-listed path text fp allow_any d e f = (
    record { path = path; fingerprints = parse_keys text },
    load_keys-read path text d e f,
    accepted fp allow_any path (parse_keys text)
        ∙ join_tests (is_some (get_text fp (parse_keys text))) (is_nil (parse_keys text))
            (is_listed fp (lines text)) (any_key (lines text)) allow_any
            (listed_in_lines fp (lines text) [] ∙ nothing_listed fp (is_listed fp (lines text)))
            (nil_lines (lines text) []),
    refl,
  )
