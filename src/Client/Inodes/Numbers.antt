-- ===== src/Client/Inodes/Numbers.antt =====
-- client/src/fuse_ops.rs, `InodeTable`: a number stands for one path, through every method.
use quicfs.Base.{
  ℕ, suc, ◌+◌, ◌%◌, ◌≤◌, ◌<◌, ◌≡◌, ◌≢◌, refl, subst, ◌⊎◌, inl, inr, true, false, Option, none, some,
  List, [], ◌∷◌, arith, length, Bool-cases, Option-cases,
}
use quicfs.Client.WriteBuf.{word_mod}
use quicfs.Client.Inodes.{
  InodeTable, root_ino, put_path, new, get_or_alloc, path_of, remove_path, rename_ino,
}
use quicfs.Server.Sanitize.{FilePath, path_eq}
use quicfs.Server.Sanitize.Split.{name_eq_refl}
use quicfs.Server.Sanitize.Complete.{name_eq-eq}

path_eq-eq : (p q : FilePath) → path_eq p q ≡ true → p ≡ q
path_eq-eq [] [] h = refl
path_eq-eq [] (d ∷ ds) h = cc
path_eq-eq (c ∷ cs) [] h = cc
path_eq-eq (c ∷ cs) (d ∷ ds) h = ground (arith, name_eq-eq c d, path_eq-eq cs ds)

pub path_eq_refl : (p : FilePath) → path_eq p p ≡ true
path_eq_refl [] = refl
path_eq_refl (c ∷ cs) = ground (arith, name_eq_refl c, path_eq_refl cs)

-- A call of a method that changes the table.
pub data Call : Type 0 where
  alloc forget_path : FilePath → Call
  rename_path : FilePath → FilePath → Call

unfoldable pub step : Call → InodeTable → InodeTable
step (alloc p) t = (get_or_alloc p t).0
step (forget_path p) t = remove_path p t
step (rename_path old new_path) t = rename_ino old new_path t

unfoldable pub run : List Call → InodeTable → InodeTable
unfolding step
run [] t = t
run (c ∷ cs) t = run cs (step c t)

-- Every path that has a number is the path of that number, and numbers lie below the next one.
pub record IsValid (n : ℕ) (t : InodeTable) : Type 0 where
  pub named : (p : FilePath) (i : ℕ) → t.path_to_ino p ≡ some i → t.ino_to_path i ≡ some p
  pub used : (p : FilePath) (i : ℕ) → t.ino_to_path i ≡ some p → i < t.next
  pub few : t.next ≤ 2 + n

put_path-some :
    (p q : FilePath) (v : Option ℕ) (m : FilePath → Option ℕ) (i : ℕ)
    → put_path p v m q ≡ some i
    → ((p ≡ q) × (v ≡ some i)) ⊎ ((path_eq p q ≡ false) × (m q ≡ some i))
put_path-some p q v m i h = elim (Bool-cases (path_eq p q)) [
  | inl e ↦ inl (path_eq-eq p q e, ground (arith, e))
  | inr e ↦ inr (e, ground (arith, e))
]

new-IsValid : (root : FilePath) → IsValid 0 (new root)
unfolding new
new-IsValid root = record {
  named = λ p i h. ground (arith, put_path-some root p (some root_ino) (λ q. none) i);
  used = λ p i h. ground arith;
  few = omega arith;
}

get_or_alloc-IsValid :
    (n : ℕ) (p : FilePath) (t : InodeTable)
    → 3 + n < word_mod
    → IsValid n t
    → IsValid (suc n) (get_or_alloc p t).0
unfolding get_or_alloc
get_or_alloc-IsValid n p t small v = elim (Option-cases (t.path_to_ino p)) [
  | inr (i, e) ↦
      rw (e, get_or_alloc) (record { named = v.named; used = v.used; few = omega (arith, v.few) })
  | inl e ↦
      let wraps : (t.next + 1) % word_mod ≡ t.next + 1 = omega (arith, v.few) in
      rw (e, get_or_alloc, wraps)
        (record {
          named = λ q i h.
              ground
                (arith, put_path-some p q (some t.next) t.path_to_ino i, v.named q i, v.used q i);
          used = λ q i h. ground (arith, v.used q i);
          few = omega (arith, v.few);
        })
]

remove_path-IsValid :
    (n : ℕ) (p : FilePath) (t : InodeTable) → IsValid n t → IsValid n (remove_path p t)
unfolding remove_path
remove_path-IsValid n p t v = elim (Option-cases (t.path_to_ino p)) [
  | inl e ↦ rw (e, remove_path) v
  | inr (i, e) ↦
      rw (e, remove_path)
        (record {
          named = λ q j h. ground (
            arith,
            put_path-some p q none t.path_to_ino j,
            v.named q j,
            v.named p i,
            path_eq_refl p,
          );
          used = λ q j h. ground (arith, v.used q j);
          few = v.few;
        })
]

rename_ino-IsValid :
    (n : ℕ) (old new_path : FilePath) (t : InodeTable)
    → IsValid n t
    → IsValid n (rename_ino old new_path t)
unfolding rename_ino
rename_ino-IsValid n old new_path t v = elim (Option-cases (t.path_to_ino old)) [
  | inl e ↦ rw (e, rename_ino) v
  | inr (i, e) ↦
      rw (e, rename_ino)
        (record {
          named = λ q j h. ground (
            arith,
            put_path-some new_path q (some i) (put_path old none t.path_to_ino) j,
            put_path-some old q none t.path_to_ino j,
            v.named q j,
            v.named old i,
            path_eq_refl old,
          );
          used = λ q j h. ground (arith, v.used q j, v.used old i, v.named old i);
          few = v.few;
        })
]

step-IsValid :
    (n : ℕ) (c : Call) (t : InodeTable)
    → 3 + n < word_mod
    → IsValid n t
    → IsValid (suc n) (step c t)
unfolding step
step-IsValid n (alloc p) t small v = get_or_alloc-IsValid n p t small v
step-IsValid n (forget_path p) t small v =
    let w : IsValid n (remove_path p t) = remove_path-IsValid n p t v in
    record { named = w.named; used = w.used; few = omega (arith, w.few) }
step-IsValid n (rename_path old new_path) t small v =
    let w : IsValid n (rename_ino old new_path t) = rename_ino-IsValid n old new_path t v in
    record { named = w.named; used = w.used; few = omega (arith, w.few) }

run-IsValid :
    (n : ℕ) (cs : List Call) (t : InodeTable)
    → 3 + n + length cs < word_mod
    → IsValid n t
    → IsValid (n + length cs) (run cs t)
unfolding run
run-IsValid n [] t small v = let e : n + 0 ≡ n = omega arith in rw e v
run-IsValid n (c ∷ cs) t small v =
    let e : n + suc (length cs) ≡ suc n + length cs = omega arith in
    rw e (run-IsValid (suc n) cs (step c t) (omega arith) (step-IsValid n c t (omega arith) v))

-- After any calls on a new table, fewer than 2 ^ 64 - 3, a path that has a number is the path of that
-- number, so that no two paths share one, and every number in use is below the next.
pub table-IsValid :
    (root : FilePath) (cs : List Call)
    → 3 + length cs < word_mod
    → IsValid (length cs) (run cs (new root))
table-IsValid root cs small =
    let e : 0 + length cs ≡ length cs = omega arith in
    subst (λ (n : ℕ). IsValid n (run cs (new root))) e
      (run-IsValid 0 cs (new root) (omega arith) (new-IsValid root))

allocated :
    (n : ℕ) (p : FilePath) (t : InodeTable)
    → IsValid n t
    → (path_of (get_or_alloc p t).1 (get_or_alloc p t).0 ≡ some p)
      × ((get_or_alloc p t).0.path_to_ino p ≡ some (get_or_alloc p t).1)
unfolding path_of get_or_alloc
allocated n p t v = elim (Option-cases (t.path_to_ino p)) [
  | inr (i, e) ↦ rw (e, get_or_alloc) (v.named p i e, e)
  | inl e ↦ ground (arith, e, path_eq_refl p)
]

again :
    (p : FilePath) (t : InodeTable) (i : ℕ) → t.path_to_ino p ≡ some i → get_or_alloc p t ≡ (t, i)
unfolding get_or_alloc
again p t i e = rw (e, get_or_alloc) refl

kept_path :
    (n : ℕ) (p q : FilePath) (j : ℕ) (t : InodeTable)
    → IsValid n t
    → path_of j t ≡ some q
    → path_of j (get_or_alloc p t).0 ≡ some q
unfolding path_of get_or_alloc
kept_path n p q j t v h = elim (Option-cases (t.path_to_ino p)) [
  | inr (i, e) ↦ rw (e, get_or_alloc) h
  | inl e ↦ ground (arith, e, v.used q j)
]

-- The number that a path gets in such a table stands for that path, it is the same when the path is
-- asked for again, and no number that stood for a path before stands for another one afterwards.
pub get_or_alloc_lem :
    (root : FilePath) (cs : List Call) (p : FilePath)
    → 3 + length cs < word_mod
    → let t : InodeTable = run cs (new root) in
      (path_of (get_or_alloc p t).1 (get_or_alloc p t).0 ≡ some p)
      × (get_or_alloc p (get_or_alloc p t).0 ≡ get_or_alloc p t)
      × ((j : ℕ) (q : FilePath) → path_of j t ≡ some q → path_of j (get_or_alloc p t).0 ≡ some q)
get_or_alloc_lem root cs p small =
    let t : InodeTable = run cs (new root) in
    let v : IsValid (length cs) t = table-IsValid root cs small in
    let (stands, mapped) = allocated (length cs) p t v in
    (
      stands,
      again p (get_or_alloc p t).0 (get_or_alloc p t).1 mapped,
      λ j q h. kept_path (length cs) p q j t v h,
    )

-- Renaming a path onto another one that has a number of its own leaves that number standing for the
-- new name, beside the number of what was renamed; and removing the name later leaves it there.
pub rename_ino-stale :
    (t : InodeTable) (n : ℕ) (old new_path : FilePath) (i j : ℕ)
    → IsValid n t
    → t.path_to_ino old ≡ some i
    → t.path_to_ino new_path ≡ some j
    → i ≢ j
    → (path_of i (rename_ino old new_path t) ≡ some new_path)
      × (path_of j (rename_ino old new_path t) ≡ some new_path)
      × (path_of j (remove_path new_path (rename_ino old new_path t)) ≡ some new_path)
unfolding path_of rename_ino remove_path
rename_ino-stale t n old new_path i j v e g ne =
    ground (arith, e, g, v.named new_path j, path_eq_refl new_path)
