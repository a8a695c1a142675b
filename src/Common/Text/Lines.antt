-- ===== src/Common/Text/Lines.antt =====
-- Lines and words of a text that was put together from them.
use quicfs.Base.{
  ℕ, ◌≡◌, refl, Bool, true, false, ◌||◌, [], ◌∷◌, ◌++◌, ◌==◌, All, arith, Bool-cases, inl, inr,
}
use quicfs.Server.Sanitize.{Name}
use quicfs.Common.Text.{is_whitespace, newline, trim_start, trim_end, trim, split_word, lines}

abbrev pub IsBlank : ℕ → Type 0
IsBlank c = is_whitespace c ≡ true

-- A text without white space.
abbrev pub IsWord : Name → Type 0
IsWord = All (λ c. is_whitespace c ≡ false)

-- A text without the ends of lines.
unfoldable pub breaks : Name → Bool
breaks [] = false
breaks (c ∷ cs) = c == newline || c == 13 || breaks cs

pub lines-append : (l rest : Name) → breaks l ≡ false → lines (l ++ newline ∷ rest) ≡ l ∷ lines rest
unfolding lines breaks
lines-append [] rest h = refl
lines-append (c ∷ l) rest h = ground (arith, lines-append l rest)

pub breaks-append : (a b : Name) → breaks (a ++ b) ≡ (breaks a || breaks b)
unfolding breaks
breaks-append [] b = refl
breaks-append (c ∷ a) b = ground (arith, breaks-append a b)

pub IsWord-breaks : (w : Name) → IsWord w → breaks w ≡ false
unfolding breaks is_whitespace
IsWord-breaks [] h = refl
IsWord-breaks (c ∷ w) h = ground (arith, IsWord-breaks w h.1, h.0)

-- The first word ends in front of a white space, or at the end.
pub split_word-append :
    (w : Name) (c : ℕ) (rest : Name)
    → IsWord w
    → IsBlank c
    → split_word (w ++ c ∷ rest) ≡ (w, c ∷ rest)
unfolding split_word
split_word-append [] c rest h b = rw b refl
split_word-append (d ∷ w) c rest h b = rw (h.0, split_word, split_word-append w c rest h.1 b) refl

pub split_word_all : (w : Name) → IsWord w → split_word w ≡ (w, [])
unfolding split_word
split_word_all [] h = refl
split_word_all (d ∷ w) h = rw (h.0, split_word, split_word_all w h.1) refl

pub split_word-IsWord : (t : Name) → IsWord (split_word t).0
unfolding split_word
split_word-IsWord [] = tt
split_word-IsWord (c ∷ cs) = elim (Bool-cases (is_whitespace c)) [
  | inl e ↦ rw (e, split_word) tt
  | inr e ↦ rw (e, split_word) (e, split_word-IsWord cs)
]

trim_end-cons :
    (c : ℕ) (d : ℕ) (ds : Name) → trim_end (d ∷ ds) ≡ d ∷ ds → trim_end (c ∷ d ∷ ds) ≡ c ∷ d ∷ ds
unfolding trim_end
trim_end-cons c d ds h = rw (h, trim_end) refl

trim_end_word : (c : ℕ) (w : Name) → IsWord (c ∷ w) → trim_end (c ∷ w) ≡ c ∷ w
unfolding trim_end
trim_end_word c [] h = rw h.0 refl
trim_end_word c (d ∷ w) h = trim_end-cons c d w (trim_end_word d w h.1)

trim_end-append :
    (a : Name) (c : ℕ) (w : Name) → IsWord (c ∷ w) → trim_end (a ++ c ∷ w) ≡ a ++ c ∷ w
trim_end-append [] c w h = trim_end_word c w h
trim_end-append (b ∷ []) c w h = trim_end-cons b c w (trim_end_word c w h)
trim_end-append (b ∷ d ∷ a) c w h = trim_end-cons b d (a ++ c ∷ w) (trim_end-append (d ∷ a) c w h)

-- What begins and ends with a word has nothing to trim.
pub trim-append :
    (b : ℕ) (a : Name) (c : ℕ) (w : Name)
    → is_whitespace b ≡ false
    → IsWord (c ∷ w)
    → trim ((b ∷ a) ++ c ∷ w) ≡ (b ∷ a) ++ c ∷ w
unfolding trim trim_start
trim-append b a c w start end = rw (start, trim, trim_start) (trim_end-append (b ∷ a) c w end)
