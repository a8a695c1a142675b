-- ===== src/Common/Trust.antt =====
-- common/src/trust.rs: the files `known_hosts` and `authorized_keys`. The disk is an interface.
pub mod Reload
pub mod Saved
use quicfs.Base.{
  ℕ, ◌≡◌, Bool, true, false, ◌||◌, not, Option, none, some, List, [], ◌∷◌, ◌++◌, ltb, ◌==◌,
  if◌then◌else◌, length,
}
use quicfs.Common.Text.{codes, starts_with, newline, space, trim_start, trim, split_word, lines}
use quicfs.Common.TextMap.{TextMap, insert_text, get_text}
use quicfs.Server.Sanitize.{Name, name_eq}
use quicfs.Client.Cache.{parent}

-- A line that is empty or a comment.
abbrev pub is_skipped : Name → Bool
is_skipped [] = true
is_skipped (c ∷ cs) = c == b'#'

-- A line of `known_hosts`, trimmed: its first two words, or the map as it was.
unfoldable pub host_line : Name → TextMap → TextMap
unfolding split_word trim_start insert_text
host_line line m = if is_skipped line then m else elim (split_word line).0 [
  | [] ↦ m
  | h ∷ host ↦ elim (split_word (trim_start (split_word line).1)).0 [
    | [] ↦ m
    | f ∷ fp ↦ insert_text (h ∷ host) (f ∷ fp) m
  ]
]

unfoldable pub host_lines : List Name → TextMap → TextMap
unfolding host_line trim
host_lines [] m = m
host_lines (line ∷ ls) m = host_lines ls (host_line (trim line) m)

unfoldable pub parse_hosts : Name → TextMap
unfolding host_lines lines
parse_hosts text = host_lines (lines text) []

unfoldable pub print_hosts : TextMap → Name
print_hosts [] = []
print_hosts ((host, fp) ∷ m) = host ++ (space ∷ (fp ++ (newline ∷ print_hosts m)))

-- A line of `authorized_keys`, trimmed: the fingerprint, and what follows it as a comment.
unfoldable pub key_line : Name → TextMap → TextMap
unfolding split_word trim insert_text
key_line line m =
    if is_skipped line then m else insert_text (split_word line).0 (trim (split_word line).1) m

unfoldable pub key_lines : List Name → TextMap → TextMap
unfolding key_line trim
key_lines [] m = m
key_lines (line ∷ ls) m = key_lines ls (key_line (trim line) m)

unfoldable pub parse_keys : Name → TextMap
unfolding key_lines lines
parse_keys text = key_lines (lines text) []

unfoldable pub print_keys : TextMap → Name
print_keys [] = []
print_keys ((fp, comment) ∷ m) =
    fp ++ ((if name_eq comment [] then [] else space ∷ comment) ++ (newline ∷ print_keys m))

-- Certificates: the key in one, if it can be parsed, and the base64 text of the SHA-256 of a key.
pub record Crypto : Type 1 where
  pub Cert : Type 0
  pub spki : Cert → Option (List ℕ)
  pub encode_digest : List ℕ → Name

module _ (crypto : Crypto) where
  unfoldable pub fingerprint_of_spki : List ℕ → Name
  fingerprint_of_spki key = codes "SHA256:" ++ crypto.encode_digest key

  unfoldable pub cert_fingerprint : crypto.Cert → Option Name
  unfolding fingerprint_of_spki
  cert_fingerprint cert = elim (crypto.spki cert) [
    | none ↦ none
    | some key ↦ some (fingerprint_of_spki key)
  ]

-- What is asked of the disk: `none` and `false` are errors.
pub record Disk : Type 1 where
  pub State : Type 0
  pub exists : Name → State → Bool
  pub read_to_string : Name → State → Option Name
  pub create_dir_all : Name → State → State × Bool
  pub write : Name → Name → State → State × Bool
  pub set_permissions : Name → ℕ → State → State

-- A file that was written is there and has what was written; its permissions are another matter.
pub record DiskLaws (disk : Disk) : Type 0 where
  pub write_exists :
      (path text : Name) (d : disk.State)
      → (disk.write path text d).1 ≡ true
      → disk.exists path (disk.write path text d).0 ≡ true
  pub write_read :
      (path text : Name) (d : disk.State)
      → (disk.write path text d).1 ≡ true
      → disk.read_to_string path (disk.write path text d).0 ≡ some text
  pub permissions_exists :
      (path other : Name) (mode : ℕ) (d : disk.State)
      → disk.exists other (disk.set_permissions path mode d) ≡ disk.exists other d
  pub permissions_read :
      (path : Name) (mode : ℕ) (d : disk.State)
      → disk.read_to_string path (disk.set_permissions path mode d) ≡ disk.read_to_string path d

pub record KnownHosts : Type 0 where
  pub path : Name
  pub entries : TextMap

pub record AuthorizedKeys : Type 0 where
  pub path : Name
  pub fingerprints : TextMap

abbrev pub hosts_header : Name
hosts_header = b'#' ∷ codes " QuicFS known hosts - managed by quicfs, edit with care"

abbrev pub keys_header : Name
keys_header = b'#' ∷ codes " QuicFS authorized client keys"

-- `parse_fingerprint`; the length is in bytes, which are the code points of a text that is ASCII.
unfoldable pub parse_fingerprint : Name → Option Name
unfolding trim
parse_fingerprint s =
    if not (starts_with (codes "SHA256:") (trim s)) || ltb (length (trim s)) 17
    then none
    else some (trim s)

module _ (disk : Disk) where
  -- `ensure_dir` of the parent, if there is one.
  unfoldable pub ensure_parent : Name → disk.State → disk.State × Bool
  unfolding parent
  ensure_parent path d = elim (parent path) [
    | none ↦ (d, true)
    | some dir ↦
        if (disk.create_dir_all dir d).1
        then (disk.set_permissions dir 448 (disk.create_dir_all dir d).0, true)
        else ((disk.create_dir_all dir d).0, false)
  ]

  -- The write at the end of `save`.
  unfoldable pub save_text : Name → ℕ → Name → disk.State → disk.State × Bool
  unfolding ensure_parent
  save_text path mode text d =
      if (ensure_parent path d).1
      then if (disk.write path text (ensure_parent path d).0).1
        then (
          disk.set_permissions path mode (disk.write path text (ensure_parent path d).0).0,
          true,
        )
        else ((disk.write path text (ensure_parent path d).0).0, false)
      else ((ensure_parent path d).0, false)

  unfoldable pub load_keys : Name → disk.State → Option AuthorizedKeys
  unfolding parse_keys
  load_keys path d =
      if disk.exists path d
      then elim (disk.read_to_string path d) [
        | none ↦ none
        | some text ↦ some (record { path = path; fingerprints = parse_keys text })
      ]
      else some (record { path = path; fingerprints = [] })

  unfoldable pub save_keys : AuthorizedKeys → disk.State → disk.State × Bool
  unfolding save_text print_keys
  save_keys keys d =
      save_text keys.path 420 (keys_header ++ (newline ∷ print_keys keys.fingerprints)) d

  unfoldable pub authorize :
      Name → Name → AuthorizedKeys → disk.State → disk.State × AuthorizedKeys × Bool
  unfolding insert_text save_keys
  authorize fp comment keys d =
      let keys' : AuthorizedKeys = record keys {
        fingerprints = insert_text fp comment keys.fingerprints;
      } in
      ((save_keys keys' d).0, keys', (save_keys keys' d).1)

  unfoldable pub load_hosts : Name → disk.State → Option KnownHosts
  unfolding parse_hosts
  load_hosts path d =
      if disk.exists path d
      then elim (disk.read_to_string path d) [
        | none ↦ none
        | some text ↦ some (record { path = path; entries = parse_hosts text })
      ]
      else some (record { path = path; entries = [] })

  unfoldable pub save_hosts : KnownHosts → disk.State → disk.State × Bool
  unfolding save_text print_hosts
  save_hosts known d =
      save_text known.path 384 (hosts_header ++ (newline ∷ print_hosts known.entries)) d

-- `KnownHosts::get` and `KnownHosts::insert`
unfoldable pub get_host : Name → KnownHosts → Option Name
unfolding get_text
get_host host known = get_text host known.entries

unfoldable pub insert_host : Name → Name → KnownHosts → KnownHosts
unfolding insert_text
insert_host host fp known = record known { entries = insert_text host fp known.entries }

-- `AuthorizedKeys::is_empty` and `AuthorizedKeys::contains`
unfoldable pub has_no_keys : AuthorizedKeys → Bool
has_no_keys keys = elim keys.fingerprints [ [] ↦ true | e ∷ m ↦ false ]

unfoldable pub contains_key : Name → AuthorizedKeys → Bool
unfolding get_text
contains_key fp keys = elim (get_text fp keys.fingerprints) [ none ↦ false | some comment ↦ true ]
