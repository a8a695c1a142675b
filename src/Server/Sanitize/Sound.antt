-- ===== src/Server/Sanitize/Sound.antt =====
-- server/src/sanitize.rs: a path that `resolve` returns is confined to the export root.
use quicfs.Base.{
  ◌≤◌, ◌≡◌, refl, ◌∙◌, Bool, true, false, ◌||◌, not, List, [], ◌∷◌, ◌++◌, arith, ltb, length, All,
  append_assoc, Bool-cases, inl, inr, append-nil,
}
use quicfs.Server.Sanitize.{
  Name, FilePath, Fs, max_path_len, max_path_depth, slash, trim_slashes, split_slash, push_parts,
  walk, starts_with, or_else, check_canonical, guard_depth, resolve, Result, ok, err, ◌>>=◌,
  has_byte,
}
use quicfs.Server.Sanitize.Split.{
  Lacks, IsComponent, IsAccepted, kept, kept-All, push_parts_sound, split_slash-Lacks,
  split_slash-Lacks_other, trim_slashes-Lacks, has_byte-Lacks,
}

-- The directories that lie strictly between the root and the last component.
unfoldable pub inner_dirs : FilePath → List Name → List FilePath
inner_dirs w [] = []
inner_dirs w (c ∷ []) = []
inner_dirs w (c ∷ d ∷ cs) = (w ++ c ∷ []) ∷ inner_dirs (w ++ c ∷ []) (d ∷ cs)

abbrev pub NoLinks : Fs → FilePath → List Name → Type 0
NoLinks fs root names = All (λ p. fs.is_symlink p ≡ false) (inner_dirs root names)

-- The path does not exist, or its canonical form lies under the canonical root.
abbrev pub inside : Fs → FilePath → FilePath → Bool
inside fs root p =
    not (fs.exists p)
    || starts_with (or_else (fs.canonicalize p) p) (or_else (fs.canonicalize root) root)

walk_sound :
    (fs : Fs) (w : FilePath) (cs : List Name) (j : FilePath)
    → walk fs w cs ≡ ok j
    → (j ≡ w ++ cs) × NoLinks fs w cs
unfolding walk inner_dirs
walk_sound fs w [] j e = (ground (arith, append-nil w), tt)
walk_sound fs w (c ∷ []) j e = (ground arith, tt)
walk_sound fs w (c ∷ d ∷ cs) j e = elim (Bool-cases (fs.is_symlink (w ++ c ∷ []))) [
  | inl l ↦ absurd (cc (rw (l, walk) at e))
  | inr l ↦
      let rest = walk_sound fs (w ++ c ∷ []) (d ∷ cs) j (rw (l, walk) at e) in
      (rest.0 ∙ append_assoc w (c ∷ []) (d ∷ cs), (l, rest.1))
]

check_canonical_sound :
    (fs : Fs) (root joined r : FilePath)
    → check_canonical fs root joined ≡ ok r
    → (r ≡ joined) × (inside fs root joined ≡ true)
unfolding check_canonical
check_canonical_sound fs root joined r e = ground arith

pub record Confined (fs : Fs) (root : FilePath) (client_path : Name) (r : FilePath) : Type 0 where
  pub names : List Name
  pub under_root : r ≡ root ++ names
  pub from_parts : names ≡ kept (split_slash (trim_slashes client_path))
  pub no_dot_dot : All IsAccepted (split_slash (trim_slashes client_path))
  pub clean : All (λ n. (Lacks slash n × Lacks 0 n) × IsComponent n) names
  pub short : length client_path ≤ max_path_len
  pub shallow : length names ≤ max_path_depth
  pub no_links : NoLinks fs root names
  pub canonical_inside : inside fs root r ≡ true

All-both : (P Q : Name → Type 0) (ns : List Name) → All P ns → All Q ns → All (λ n. P n × Q n) ns
All-both P Q [] h g = tt
All-both P Q (n ∷ ns) h g = ((h.0, g.0), All-both P Q ns h.1 g.1)

bind-eq-ok {ℓ κ} :
    {A : Type ℓ} {B : Type κ} (step : Result A) (next : A → Result B) {final : B}
    → (step >>= next) ≡ ok final
    → (mid : A) × (step ≡ ok mid) × (next mid ≡ ok final)
bind-eq-ok (err e) next done = cc
bind-eq-ok (ok mid) next done = (mid, refl, done)

guard_depth_sound :
    (cs r : List Name) → guard_depth cs ≡ ok r → (length cs ≤ max_path_depth) × (cs ≡ r)
guard_depth_sound cs r e = ground arith

abbrev Steps : Fs → FilePath → Name → FilePath → Type 0
Steps fs root p r =
    (pushed : List Name) × (joined : FilePath) × (length p ≤ max_path_len)
    × (has_byte 0 p ≡ false)
    × (push_parts (split_slash (trim_slashes p)) [] ≡ ok pushed)
    × (length pushed ≤ max_path_depth)
    × (walk fs root pushed ≡ ok joined)
    × (check_canonical fs root joined ≡ ok r)

resolve-Steps :
    (fs : Fs) (root : FilePath) (p : Name) (r : FilePath)
    → resolve fs root p ≡ ok r
    → Steps fs root p r
unfolding resolve
resolve-Steps fs root p r e = elim (Bool-cases (ltb max_path_len (length p))) [
  | inl a ↦ absurd (cc (rw a at e))
  | inr a ↦ elim (Bool-cases (has_byte 0 p)) [
    | inl b ↦ absurd (cc (rw b at (rw a at e)))
    | inr b ↦
        let (pushed, pe, e₁) =
          bind-eq-ok (push_parts (split_slash (trim_slashes p)) []) _ (rw b at (rw a at e)) in
        let (components, ge, e₂) = bind-eq-ok (guard_depth pushed) _ e₁ in
        let (shallow, same) = guard_depth_sound pushed components ge in
        let (joined, we, ce) = bind-eq-ok (walk fs root components) _ e₂ in
        (pushed, joined, ground arith, b, pe, shallow, rw same we, ce)
  ]
]

-- A path that `resolve` returns is the root followed by the components of the client's path: no
-- part of that path is `..` or longer than 255 bytes, no component has a slash or a zero byte in it
-- or is `.`, their number and the length of the path are within the limits, no directory on the way
-- is a symbolic link, and the result does not exist or lies, canonically, under the canonical root.
pub resolve-Confined :
    (fs : Fs) (root : FilePath) (client_path : Name) (r : FilePath)
    → resolve fs root client_path ≡ ok r
    → Confined fs root client_path r
resolve-Confined fs root p r e =
    let (pushed, joined, short, no_null, pe, shallow, we, ce) = resolve-Steps fs root p r e in
    let parts : List Name = split_slash (trim_slashes p) in
    let (accepted, from) = push_parts_sound parts [] pushed pe in
    let (under, links) = walk_sound fs root pushed joined we in
    let (same, canonical) = check_canonical_sound fs root joined r ce in
    let lacks : All (λ n. Lacks slash n × Lacks 0 n) parts =
      All-both (Lacks slash) (Lacks 0) parts (split_slash-Lacks (trim_slashes p)) (
        split_slash-Lacks_other 0 (trim_slashes p)
          (trim_slashes-Lacks 0 p (has_byte-Lacks 0 p no_null))) in
    record {
      names = pushed;
      under_root = same ∙ under;
      from_parts = from;
      no_dot_dot = accepted;
      clean = rw from (kept-All (λ n. Lacks slash n × Lacks 0 n) parts lacks);
      short = short;
      shallow = shallow;
      no_links = links;
      canonical_inside = rw same canonical;
    }
