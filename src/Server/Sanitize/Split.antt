-- ===== src/Server/Sanitize/Split.antt =====
-- server/src/sanitize.rs: the parts of a path, and which of them become components.
use quicfs.Base.{
  ℕ, ◌≤◌, ◌≡◌, ◌≢◌, refl, ◌∙◌, true, false, List, [], ◌∷◌, ◌++◌, arith, ◌==◌, length, All,
  append-nil, append_assoc, ◌⊎◌, inl, inr, Bool-cases,
}
use quicfs.Server.Sanitize.{
  Name, slash, dot, dot_dot, name_eq, has_byte, cons_head, split_slash, trim_slashes, classify,
  Part, skip, up, long, keep, push_parts, ok,
}

pub name_eq_refl : (n : Name) → name_eq n n ≡ true
name_eq_refl [] = refl
name_eq_refl (c ∷ cs) = ground (arith, name_eq_refl cs)

-- No byte of the name is `b`.
abbrev pub Lacks : ℕ → Name → Type 0
Lacks b n = All (λ x. x ≢ b) n

-- What makes a component: not empty, neither `.` nor `..`, and at most 255 bytes.
abbrev pub IsComponent : Name → Type 0
IsComponent n = (n ≢ []) × (n ≢ dot) × (n ≢ dot_dot) × (length n ≤ 255)

pub classify-IsComponent : (n : Name) → classify n ≡ keep → IsComponent n
unfolding classify
classify-IsComponent n h =
    (λ e. cc (rw e at h), λ e. cc (rw e at h), λ e. cc (rw e at h), ground arith)

Lacks-cons_head :
    (b c : ℕ) (ps : List Name) → c ≢ b → All (Lacks b) ps → All (Lacks b) (cons_head c ps)
unfolding cons_head
Lacks-cons_head b c [] h hs = ((h, tt), tt)
Lacks-cons_head b c (p ∷ ps) h hs = ((h, hs.0), hs.1)

-- No part has a slash in it.
pub split_slash-Lacks : (cs : Name) → All (Lacks slash) (split_slash cs)
unfolding split_slash
split_slash-Lacks [] = (tt, tt)
split_slash-Lacks (c ∷ cs) = elim (Bool-cases (c == slash)) [
  | inl e ↦ rw e (tt, split_slash-Lacks cs)
  | inr e ↦ rw e (Lacks-cons_head slash c (split_slash cs) (ground arith) (split_slash-Lacks cs))
]

-- A byte that the path lacks, its parts lack.
pub split_slash-Lacks_other : (b : ℕ) (cs : Name) → Lacks b cs → All (Lacks b) (split_slash cs)
unfolding split_slash
split_slash-Lacks_other b [] h = (tt, tt)
split_slash-Lacks_other b (c ∷ cs) h = elim (Bool-cases (c == slash)) [
  | inl e ↦ rw e (tt, split_slash-Lacks_other b cs h.1)
  | inr e ↦ rw e (Lacks-cons_head b c (split_slash cs) h.0 (split_slash-Lacks_other b cs h.1))
]

pub trim_slashes-Lacks : (b : ℕ) (cs : Name) → Lacks b cs → Lacks b (trim_slashes cs)
unfolding trim_slashes
trim_slashes-Lacks b [] h = tt
trim_slashes-Lacks b (c ∷ cs) h = elim (Bool-cases (c == slash)) [
  | inl e ↦ rw e (trim_slashes-Lacks b cs h.1)
  | inr e ↦ rw e h
]

pub has_byte-Lacks : (b : ℕ) (cs : Name) → has_byte b cs ≡ false → Lacks b cs
unfolding has_byte
has_byte-Lacks b [] h = tt
has_byte-Lacks b (c ∷ cs) h = (ground arith, has_byte-Lacks b cs (ground arith))

pub Lacks-has_byte : (b : ℕ) (cs : Name) → Lacks b cs → has_byte b cs ≡ false
unfolding has_byte
Lacks-has_byte b [] h = refl
Lacks-has_byte b (c ∷ cs) h = ground (arith, Lacks-has_byte b cs h.1)

Part-cases : (k : Part) → ((k ≡ skip) ⊎ (k ≡ keep)) ⊎ ((k ≡ up) ⊎ (k ≡ long))
Part-cases skip = inl (inl refl)
Part-cases keep = inl (inr refl)
Part-cases up = inr (inl refl)
Part-cases long = inr (inr refl)

-- The components of a path, by its parts alone.
unfoldable pub kept : List Name → List Name
kept [] = []
kept (p ∷ ps) = elim (classify p) [
  | skip ↦ kept ps
  | up ↦ kept ps
  | long ↦ kept ps
  | keep ↦ p ∷ kept ps
]

abbrev pub IsAccepted : Name → Type 0
IsAccepted n = (n ≢ dot_dot) × (classify n ≢ long)

IsAccepted-part : (p : Name) → classify p ≢ up → classify p ≢ long → IsAccepted p
unfolding classify
IsAccepted-part p h g = (λ e. h (rw e refl), g)

-- The loop over the parts succeeds only if no part is `..` or too long, and its result is the
-- components so far followed by those of the parts.
pub push_parts_sound :
    (parts acc r : List Name)
    → push_parts parts acc ≡ ok r
    → All IsAccepted parts × (r ≡ acc ++ kept parts)
unfolding push_parts kept
push_parts_sound [] acc r e = (tt, ground (arith, append-nil acc))
push_parts_sound (p ∷ ps) acc r e = elim (Part-cases (classify p)) [
  | inl (inl k) ↦
      let rest = push_parts_sound ps acc r (rw (k, push_parts) at e) in
      ((IsAccepted-part p (λ u. cc) (λ u. cc), rest.0), rw (k, kept) rest.1)
  | inl (inr k) ↦
      let rest = push_parts_sound ps (acc ++ p ∷ []) r (rw (k, push_parts) at e) in
      (
        (IsAccepted-part p (λ u. cc) (λ u. cc), rest.0),
        rw (k, kept) (rest.1 ∙ append_assoc acc (p ∷ []) (kept ps)),
      )
  | inr (inl k) ↦ absurd (cc (rw (k, push_parts) at e))
  | inr (inr k) ↦ absurd (cc (rw (k, push_parts) at e))
]

-- What holds of the parts holds of the components, and each of these may stand as one.
pub kept-All :
    (P : Name → Type 0) (parts : List Name)
    → All P parts
    → All (λ n. P n × IsComponent n) (kept parts)
unfolding kept
kept-All P [] h = tt
kept-All P (p ∷ ps) h = elim (Part-cases (classify p)) [
  | inl (inl k) ↦ rw (k, kept) (kept-All P ps h.1)
  | inl (inr k) ↦ rw (k, kept) ((h.0, classify-IsComponent p k), kept-All P ps h.1)
  | inr (inl k) ↦ rw (k, kept) (kept-All P ps h.1)
  | inr (inr k) ↦ rw (k, kept) (kept-All P ps h.1)
]
