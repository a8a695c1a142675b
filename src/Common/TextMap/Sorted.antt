-- ===== src/Common/TextMap/Sorted.antt =====
-- A map by texts stays in the order of its keys, each of which stands once, and answers by the last
-- insertion.
use quicfs.Base.{◌≡◌, refl, ap, some, [], ◌∷◌, ◌++◌, Ordering, All, arith, ◌⊎◌, inl, inr}
use quicfs.Server.Sanitize.{Name}
use quicfs.Common.TextMap.{text_cmp, TextMap, insert_text, get_text}

pub text_cmp_self : (a : Name) → text_cmp a a ≡ Ordering.eq
unfolding text_cmp
text_cmp_self [] = refl
text_cmp_self (c ∷ cs) = ground (arith, text_cmp_self cs)

pub text_cmp-eq : (a b : Name) → text_cmp a b ≡ Ordering.eq → a ≡ b
unfolding text_cmp
text_cmp-eq [] [] e = refl
text_cmp-eq [] (d ∷ ds) e = absurd (cc)
text_cmp-eq (c ∷ cs) [] e = absurd (cc)
text_cmp-eq (c ∷ cs) (d ∷ ds) e = ground (arith, text_cmp-eq cs ds)

pub text_cmp-gt : (a b : Name) → text_cmp a b ≡ Ordering.gt → text_cmp b a ≡ Ordering.lt
unfolding text_cmp
text_cmp-gt [] [] e = cc
text_cmp-gt [] (d ∷ ds) e = cc
text_cmp-gt (c ∷ cs) [] e = refl
text_cmp-gt (c ∷ cs) (d ∷ ds) e = ground (arith, text_cmp-gt cs ds)

pub text_cmp-lt : (a b : Name) → text_cmp a b ≡ Ordering.lt → text_cmp b a ≡ Ordering.gt
unfolding text_cmp
text_cmp-lt [] [] e = cc
text_cmp-lt [] (d ∷ ds) e = refl
text_cmp-lt (c ∷ cs) [] e = cc
text_cmp-lt (c ∷ cs) (d ∷ ds) e = ground (arith, text_cmp-lt cs ds)

pub text_cmp_trans :
    (a b c : Name)
    → text_cmp a b ≡ Ordering.lt
    → text_cmp b c ≡ Ordering.lt
    → text_cmp a c ≡ Ordering.lt
unfolding text_cmp
text_cmp_trans [] [] c p q = absurd (cc)
text_cmp_trans [] (b ∷ bs) [] p q = absurd (cc)
text_cmp_trans [] (b ∷ bs) (c ∷ cs) p q = refl
text_cmp_trans (a ∷ as') [] c p q = absurd (cc)
text_cmp_trans (a ∷ as') (b ∷ bs) [] p q = absurd (cc)
text_cmp_trans (a ∷ as') (b ∷ bs) (c ∷ cs) p q = ground (arith, text_cmp_trans as' bs cs)

pub Ordering-cases : (o : Ordering) → (o ≡ Ordering.lt) ⊎ ((o ≡ Ordering.eq) ⊎ (o ≡ Ordering.gt))
Ordering-cases Ordering.lt = inl refl
Ordering-cases Ordering.eq = inr (inl refl)
Ordering-cases Ordering.gt = inr (inr refl)

-- Every key of the map comes after `k`.
abbrev pub Follows : Name → TextMap → Type 0
Follows k = All (λ e. text_cmp k e.0 ≡ Ordering.lt)

abbrev pub IsSorted : TextMap → Type 0
IsSorted [] = Unit
IsSorted (e ∷ m) = Follows e.0 m × IsSorted m

Follows-trans : (k i : Name) (m : TextMap) → text_cmp k i ≡ Ordering.lt → Follows i m → Follows k m
Follows-trans k i [] h f = tt
Follows-trans k i (e ∷ m) h f = (text_cmp_trans k i e.0 h f.0, Follows-trans k i m h f.1)

module _ (k v : Name) where
  insert_text-Follows :
      (i : Name) (m : TextMap)
      → text_cmp i k ≡ Ordering.lt
      → Follows i m
      → Follows i (insert_text k v m)
  unfolding insert_text
  insert_text-Follows i [] h f = (h, tt)
  insert_text-Follows i ((j, w) ∷ m) h f = elim (Ordering-cases (text_cmp k j)) [
    | inl e ↦ rw (e, insert_text) (h, f)
    | inr (inl e) ↦ rw (e, insert_text) (h, f.1)
    | inr (inr e) ↦ rw (e, insert_text) (f.0, insert_text-Follows i m h f.1)
  ]

  pub insert_text-IsSorted : (m : TextMap) → IsSorted m → IsSorted (insert_text k v m)
  unfolding insert_text
  insert_text-IsSorted [] s = (tt, tt)
  insert_text-IsSorted ((j, w) ∷ m) s = elim (Ordering-cases (text_cmp k j)) [
    | inl e ↦ rw (e, insert_text) ((e, Follows-trans k j m e s.0), s)
    | inr (inl e) ↦ rw (e, insert_text, text_cmp-eq k j e) s
    | inr (inr e) ↦
        rw (e, insert_text)
          (insert_text-Follows j m (text_cmp-gt k j e) s.0, insert_text-IsSorted m s.1)
  ]

  -- What is inserted is found.
  pub get_text-insert_text : (m : TextMap) → get_text k (insert_text k v m) ≡ some v
  unfolding insert_text get_text
  get_text-insert_text [] = rw (text_cmp_self k, insert_text, get_text) refl
  get_text-insert_text ((j, w) ∷ m) = elim (Ordering-cases (text_cmp k j)) [
    | inl e ↦ rw (e, insert_text) (rw (text_cmp_self k, get_text) refl)
    | inr (inl e) ↦ rw (e, insert_text) (rw (text_cmp_self k, get_text) refl)
    | inr (inr e) ↦ rw (e, insert_text) (rw (e, get_text) (get_text-insert_text m))
  ]

  -- A key behind all others is put last.
  pub insert_text_last :
      (m : TextMap)
      → All (λ e. text_cmp e.0 k ≡ Ordering.lt) m
      → insert_text k v m ≡ m ++ (k, v) ∷ []
  unfolding insert_text
  insert_text_last [] h = refl
  insert_text_last ((j, w) ∷ m) h =
      rw (text_cmp-lt j k h.0, insert_text) (ap (◌∷◌ (j, w)) (insert_text_last m h.1))

-- What comes before the keys of the second part, in a sorted map.
pub IsSorted-append :
    (m n : TextMap) (k v : Name)
    → IsSorted (m ++ (k, v) ∷ n)
    → All (λ e. text_cmp e.0 k ≡ Ordering.lt) m
IsSorted-append [] n k v s = tt
IsSorted-append (e ∷ m) n k v s = (Follows_middle e.0 m n k v s.0, IsSorted-append m n k v s.1)
  where
    Follows_middle :
        (i : Name) (m n : TextMap) (k v : Name)
        → Follows i (m ++ (k, v) ∷ n)
        → text_cmp i k ≡ Ordering.lt
    Follows_middle i [] n k v f = f.0
    Follows_middle i (d ∷ m) n k v f = Follows_middle i m n k v f.1
