-- ===== src/Common/Text.antt =====
-- The library functions on texts that the code uses, on a text as the list of its code points.
pub mod Lines
use Prim.Native.Char.{code}
use quicfs.Base.{ℕ, String, Bool, true, false, ◌&&◌, ◌||◌, List, [], ◌∷◌, leb, ◌==◌, if◌then◌else◌}
use quicfs.Server.Sanitize.{Name}

-- The code points of a text.
abbrev pub codes : String → Name
codes String.[] = []
codes (String.◌∷◌ c s) = code c ∷ codes s

abbrev pub starts_with : Name → Name → Bool
starts_with [] text = true
starts_with (d ∷ ds) [] = false
starts_with (d ∷ ds) (c ∷ cs) = d == c && starts_with ds cs

abbrev pub newline : ℕ
newline = 10

abbrev pub space : ℕ
space = 32

-- `char::is_whitespace`
unfoldable pub is_whitespace : ℕ → Bool
is_whitespace c =
    (leb 9 c && leb c 13)
    || c == 32
    || c == 0x85
    || c == 0xA0
    || c == 0x1680
    || (leb 0x2000 c && leb c 0x200A)
    || c == 0x2028
    || c == 0x2029
    || c == 0x202F
    || c == 0x205F
    || c == 0x3000

unfoldable pub trim_start : Name → Name
unfolding is_whitespace
trim_start [] = []
trim_start (c ∷ cs) = let rest : Name = trim_start cs in if is_whitespace c then rest else c ∷ cs

unfoldable pub trim_end : Name → Name
unfolding is_whitespace
trim_end [] = []
trim_end (c ∷ cs) = elim (trim_end cs) [
  | [] ↦ if is_whitespace c then [] else c ∷ []
  | d ∷ ds ↦ c ∷ d ∷ ds
]

unfoldable pub trim : Name → Name
unfolding trim_start trim_end
trim text = trim_end (trim_start text)

-- A text up to its first white space, and from there on.
unfoldable pub split_word : Name → Name × Name
unfolding is_whitespace
split_word [] = ([], [])
split_word (c ∷ cs) =
    let rest : Name × Name = split_word cs in
    if is_whitespace c then ([], c ∷ cs) else (c ∷ rest.0, rest.1)

abbrev pub begins_with : ℕ → Name → Bool
begins_with c [] = false
begins_with c (d ∷ ds) = d == c

-- `str::lines`: a line ends with a line feed, or with a carriage return in front of it.
unfoldable pub lines : Name → List Name
lines [] = []
lines (c ∷ cs) =
    let rest : List Name = lines cs in
    if c == newline
    then [] ∷ rest
    else if c == 13 && begins_with newline cs
    then rest
    else elim rest [ [] ↦ (c ∷ []) ∷ [] | l ∷ ls ↦ (c ∷ l) ∷ ls ]
