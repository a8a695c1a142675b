-- ===== src/Common/TextMap.antt =====
-- `BTreeMap<String, String>`: an association list in the order of its keys. In UTF-8 the order of the
-- bytes of two texts is that of their code points.
pub mod Sorted
use quicfs.Base.{ℕ, Option, none, some, List, [], ◌∷◌, compare, Ordering}
use quicfs.Server.Sanitize.{Name}

-- The order of two texts.
unfoldable pub text_cmp : Name → Name → Ordering
text_cmp [] [] = Ordering.eq
text_cmp [] (d ∷ ds) = Ordering.lt
text_cmp (c ∷ cs) [] = Ordering.gt
text_cmp (c ∷ cs) (d ∷ ds) = elim (compare c d) [
  | Ordering.lt ↦ Ordering.lt
  | Ordering.gt ↦ Ordering.gt
  | Ordering.eq ↦ text_cmp cs ds
]

abbrev pub TextMap : Type 0
TextMap = List (Name × Name)

unfoldable pub insert_text : Name → Name → TextMap → TextMap
unfolding text_cmp
insert_text k v [] = (k, v) ∷ []
insert_text k v ((i, w) ∷ m) = elim (text_cmp k i) [
  | Ordering.lt ↦ (k, v) ∷ (i, w) ∷ m
  | Ordering.eq ↦ (k, v) ∷ m
  | Ordering.gt ↦ (i, w) ∷ insert_text k v m
]

unfoldable pub get_text : Name → TextMap → Option Name
unfolding text_cmp
get_text k [] = none
get_text k ((i, w) ∷ m) = elim (text_cmp k i) [
  | Ordering.lt ↦ none
  | Ordering.eq ↦ some w
  | Ordering.gt ↦ get_text k m
]
