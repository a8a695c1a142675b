-- ===== src/Client/Inodes.antt =====
-- client/src/fuse_ops.rs, `InodeTable`: the numbers under which the kernel knows remote paths. A
-- `HashMap` is a function to an option. The root is a path that `normalize_root` has made.
pub mod Numbers
use quicfs.Base.{
  ℕ, suc, ◌+◌, ◌%◌, Bool, true, false, ◌&&◌, Option, none, some, List, [], ◌∷◌, ◌==◌, if◌then◌else◌,
}
use quicfs.Client.WriteBuf.{word_mod}
use quicfs.Server.Sanitize.{FilePath, path_eq}

abbrev pub root_ino : ℕ
root_ino = 1

pub record InodeTable : Type 0 where
  pub ino_to_path : ℕ → Option FilePath
  pub path_to_ino : FilePath → Option ℕ
  pub next : ℕ

abbrev pub put_ino : ℕ → Option FilePath → (ℕ → Option FilePath) → ℕ → Option FilePath
put_ino i v m j = if i == j then v else m j

abbrev pub put_path : FilePath → Option ℕ → (FilePath → Option ℕ) → FilePath → Option ℕ
put_path p v m q = if path_eq p q then v else m q

unfoldable pub new : FilePath → InodeTable
new root = record {
  ino_to_path = put_ino root_ino (some root) (λ i. none);
  path_to_ino = put_path root (some root_ino) (λ p. none);
  next = root_ino + 1;
}

unfoldable pub get_or_alloc : FilePath → InodeTable → InodeTable × ℕ
get_or_alloc path t = elim (t.path_to_ino path) [
  | some ino ↦ (t, ino)
  | none ↦ (
    record {
      ino_to_path = put_ino t.next (some path) t.ino_to_path;
      path_to_ino = put_path path (some t.next) t.path_to_ino;
      next = (t.next + 1) % word_mod;
    },
    t.next,
  )
]

unfoldable pub path_of : ℕ → InodeTable → Option FilePath
path_of ino t = t.ino_to_path ino

unfoldable pub remove_path : FilePath → InodeTable → InodeTable
remove_path path t = elim (t.path_to_ino path) [
  | none ↦ t
  | some ino ↦ record t {
    ino_to_path = put_ino ino none t.ino_to_path;
    path_to_ino = put_path path none t.path_to_ino;
  }
]

unfoldable pub rename_ino : FilePath → FilePath → InodeTable → InodeTable
rename_ino old new_path t = elim (t.path_to_ino old) [
  | none ↦ t
  | some ino ↦ record t {
    ino_to_path = put_ino ino (some new_path) t.ino_to_path;
    path_to_ino = put_path new_path (some ino) (put_path old none t.path_to_ino);
  }
]
