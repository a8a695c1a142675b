-- ===== src/Server/Sanitize.antt =====
-- server/src/sanitize.rs, `resolve`: from a path that a client sends to a path under the export root.
-- A text is its bytes in UTF-8; a `Path` is the list of its components. What the code asks of the
-- file system is a record of functions.
pub mod Split
pub mod Sound
pub mod Complete
use quicfs.Base.{
  ℕ, ◌+◌, ◌*◌, Bool, true, false, ◌&&◌, ◌||◌, not, Option, none, some, List, [], ◌∷◌, ◌++◌, ltb,
  ◌==◌, if◌then◌else◌, length,
}

abbrev pub Name : Type 0
Name = List ℕ

abbrev pub FilePath : Type 0
FilePath = List Name

abbrev pub max_path_len : ℕ
max_path_len = 4096

abbrev pub max_path_depth : ℕ
max_path_depth = 128

abbrev pub slash : ℕ
slash = b'/'

abbrev pub dot : Name
dot = b'.' ∷ []

abbrev pub dot_dot : Name
dot_dot = b'.' ∷ b'.' ∷ []

-- `is_symlink` is `symlink_metadata(p)` being `Ok(m)` with `m.file_type().is_symlink()`; `canonicalize`
-- is `none` where the call fails.
pub record Fs : Type 0 where
  pub is_symlink : FilePath → Bool
  pub exists : FilePath → Bool
  pub canonicalize : FilePath → Option FilePath

pub data PathError : Type 0 where
  too_long null_byte traversal component_too_long too_deep escapes : PathError

pub data Result {ℓ} (A : Type ℓ) : Type ℓ where
  err : PathError → Result A
  ok : A → Result A

infixl 5 ◌>>=◌
abbrev pub ◌>>=◌ {ℓ κ} : {A : Type ℓ} {B : Type κ} → Result A → (A → Result B) → Result B
err e >>= f = err e
ok a >>= f = f a

abbrev pub name_eq : Name → Name → Bool
name_eq [] [] = true
name_eq [] (d ∷ ds) = false
name_eq (c ∷ cs) [] = false
name_eq (c ∷ cs) (d ∷ ds) = c == d && name_eq cs ds

abbrev pub path_eq : FilePath → FilePath → Bool
path_eq [] [] = true
path_eq [] (d ∷ ds) = false
path_eq (c ∷ cs) [] = false
path_eq (c ∷ cs) (d ∷ ds) = name_eq c d && path_eq cs ds

unfoldable pub has_byte : ℕ → Name → Bool
has_byte b [] = false
has_byte b (c ∷ cs) = c == b || has_byte b cs

-- `client_path.trim_start_matches('/')`
unfoldable pub trim_slashes : Name → Name
trim_slashes [] = []
trim_slashes (c ∷ cs) = if c == slash then trim_slashes cs else c ∷ cs

unfoldable pub cons_head : ℕ → List Name → List Name
cons_head c [] = (c ∷ []) ∷ []
cons_head c (p ∷ ps) = (c ∷ p) ∷ ps

-- `rel.split('/')`: one part more than there are slashes.
unfoldable pub split_slash : Name → List Name
unfolding cons_head
split_slash [] = [] ∷ []
split_slash (c ∷ cs) =
    let rest = split_slash cs in if c == slash then [] ∷ rest else cons_head c rest

-- The arms of the `match part`.
pub data Part : Type 0 where
  skip up long keep : Part

unfoldable pub classify : Name → Part
classify part =
    if name_eq part [] || name_eq part dot
    then skip
    else if name_eq part dot_dot
    then up
    else if ltb 255 (length part)
    then long
    else keep

-- The loop over the parts.
unfoldable pub push_parts : List Name → List Name → Result (List Name)
unfolding classify
push_parts [] components = ok components
push_parts (part ∷ parts) components = elim (classify part) [
  | skip ↦ push_parts parts components
  | up ↦ err traversal
  | long ↦ err component_too_long
  | keep ↦ push_parts parts (components ++ part ∷ [])
]

-- The loop over the components: each but the last must not be a symlink.
unfoldable pub walk : Fs → FilePath → List Name → Result FilePath
walk fs walking [] = ok walking
walk fs walking (c ∷ []) = ok (walking ++ c ∷ [])
walk fs walking (c ∷ d ∷ cs) = elim (fs.is_symlink (walking ++ c ∷ [])) [
  | true ↦ err escapes
  | false ↦ walk fs (walking ++ c ∷ []) (d ∷ cs)
]

-- `canonical.starts_with(&root_canonical)`, by components
unfoldable pub starts_with : FilePath → FilePath → Bool
starts_with path [] = true
starts_with [] (c ∷ cs) = false
starts_with (d ∷ ds) (c ∷ cs) = name_eq d c && starts_with ds cs

abbrev pub or_else : Option FilePath → FilePath → FilePath
or_else none p = p
or_else (some q) p = q

-- The canonical escape check.
unfoldable pub check_canonical : Fs → FilePath → FilePath → Result FilePath
unfolding starts_with
check_canonical fs root joined =
    if fs.exists joined
    then (if starts_with (or_else (fs.canonicalize joined) joined)
          (or_else (fs.canonicalize root) root)
        then ok joined
        else err escapes)
    else ok joined

abbrev pub guard_depth : List Name → Result (List Name)
guard_depth components =
    if ltb max_path_depth (length components) then err too_deep else ok components

unfoldable pub resolve : Fs → FilePath → Name → Result FilePath
unfolding has_byte trim_slashes split_slash push_parts walk check_canonical
resolve fs root client_path =
    if ltb max_path_len (length client_path)
    then err too_long
    else if has_byte 0 client_path
    then err null_byte
    else do
      pushed ← push_parts (split_slash (trim_slashes client_path)) []
      components ← guard_depth pushed
      joined ← walk fs root components
      check_canonical fs root joined
