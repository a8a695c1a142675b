-- ===== src/Server/Handles.antt =====
-- server/src/handles.rs: the table of open handles of one session. A method returns the new table
-- with its result. The retained `Arc<Mutex<File>>` is a number that names the open file; its device
-- and inode, the hash of a path and the random epoch are given from outside.
pub mod Ids
pub mod Carry
use quicfs.Base.{
  ℕ, ◌+◌, ◌*◌, ◌%◌, ◌/◌, ◌^◌, Option, none, some, List, [], leb, if◌then◌else◌, length, Map, lookup,
  insert, without,
}

abbrev pub u64_mod : ℕ
u64_mod = 2 ^ 64

abbrev pub u32_mod : ℕ
u32_mod = 2 ^ 32

pub record OpenHandle : Type 0 where
  pub path : List (List ℕ)
  pub flags : ℕ
  pub file : ℕ
  pub ino_key : ℕ

pub record HandleTable : Type 0 where
  pub counter : ℕ
  pub max_handles : ℕ
  pub inner : Map OpenHandle

-- `(1u128 << 127) | (h.finish() as u128)`
unfoldable pub path_hash_key : (List (List ℕ) → ℕ) → List (List ℕ) → ℕ
path_hash_key hash path = 2 ^ 127 + hash path % u64_mod

-- `(dev << 64) | ino`, or the hash of the path where the metadata cannot be read.
unfoldable pub ino_key_of : (List (List ℕ) → ℕ) → Option (ℕ × ℕ) → List (List ℕ) → ℕ
unfolding path_hash_key
ino_key_of hash (some (dev, ino)) path = (dev % u64_mod) * u64_mod + ino % u64_mod
ino_key_of hash none path = path_hash_key hash path

-- The epoch is the low half of the random `uuid`; the first handle has 1 in its low 32 bits.
unfoldable pub with_limit : ℕ → ℕ → HandleTable
with_limit uuid max_handles = record {
  counter = (uuid % u32_mod) * u32_mod + 1;
  max_handles = max_handles;
  inner = [];
}

-- `try_insert`; `none` is the error that the table is full. `fetch_add` wraps.
unfoldable pub try_insert : OpenHandle → HandleTable → HandleTable × Option ℕ
try_insert h t = if leb t.max_handles (length t.inner) then (t, none) else (
  record t { counter = (t.counter + 1) % u64_mod; inner = insert t.counter h t.inner },
  some t.counter,
)

unfoldable pub remove : ℕ → HandleTable → HandleTable × Option OpenHandle
remove id t = (record t { inner = without id t.inner }, lookup id t.inner)

unfoldable pub get_handle : ℕ → HandleTable → Option OpenHandle
get_handle id t = lookup id t.inner

unfoldable pub get_file : ℕ → HandleTable → Option ℕ
get_file id t = elim (lookup id t.inner) [ none ↦ none | some h ↦ some h.file ]

unfoldable pub get_write_ctx : ℕ → HandleTable → Option (ℕ × ℕ × ℕ)
get_write_ctx id t = elim (lookup id t.inner) [
  | none ↦ none
  | some h ↦ some (h.file, h.flags, h.ino_key)
]

unfoldable pub get_path : ℕ → HandleTable → Option (List (List ℕ))
get_path id t = elim (lookup id t.inner) [ none ↦ none | some h ↦ some h.path ]

unfoldable pub len : HandleTable → ℕ
len t = length t.inner
