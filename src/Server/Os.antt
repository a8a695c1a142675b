-- ===== src/Server/Os.antt =====
-- The system calls that the file operations of the server make, and a program that makes them one
-- after another: what it does next depends on the reply.
pub mod Beneath
pub mod Run
use quicfs.Base.{ℕ, ℤ, Bool, List, Option}
use quicfs.Common.Status.{ErrorKind}
use quicfs.Server.ReadDir.{Listing}
use quicfs.Server.Sanitize.{Name, FilePath}

-- What `metadata` tells of a file.
pub record Attributes : Type 0 where
  pub dev : ℕ
  pub ino : ℕ
  pub mode : ℕ
  pub nlink : ℕ
  pub uid : ℕ
  pub gid : ℕ
  pub size : ℕ
  pub atime : ℕ
  pub mtime : ℕ

-- `libc::timespec`
pub record Timespec : Type 0 where
  pub tv_sec : ℤ
  pub tv_nsec : ℤ

-- What `statvfs` tells of a file system.
pub record FsUsage : Type 0 where
  pub f_blocks : ℕ
  pub f_bfree : ℕ
  pub f_bavail : ℕ
  pub f_files : ℕ
  pub f_ffree : ℕ
  pub f_bsize : ℕ
  pub f_namemax : ℕ
  pub f_frsize : ℕ

-- A descriptor is a number. `open_root` opens the export root with O_PATH and O_DIRECTORY, and
-- `openat2` resolves a relative path with RESOLVE_BENEATH and RESOLVE_NO_MAGICLINKS.
-- `chmod_proc` and `utimens_proc` go by /proc/self/fd to the file of a descriptor.
pub data Syscall : Type 0 where
  open_root : FilePath → Syscall
  openat2 : ℕ → FilePath → ℕ → ℕ → Syscall
  close : ℕ → Syscall
  open_path : FilePath → ℕ → ℕ → Syscall
  mkdirat fchmodat : ℕ → Name → ℕ → Syscall
  unlinkat : ℕ → Name → Bool → Syscall
  symlinkat : Name → ℕ → Name → Syscall
  linkat renameat : ℕ → Name → ℕ → Name → Syscall
  readlinkat : ℕ → Name → ℕ → Syscall
  fsync fdatasync fstat : ℕ → Syscall
  fchmod ftruncate chmod_proc : ℕ → ℕ → Syscall
  utimens_proc : ℕ → Timespec → Timespec → Syscall
  stat lstat statvfs read_dir : FilePath → Syscall

-- `no_sys` is the error ENOSYS.
pub data Reply : Type 0 where
  value : ℕ → Reply
  text : Name → Reply
  attributes : Attributes → Reply
  usage : FsUsage → Reply
  listing : Listing → Reply
  failed : ErrorKind → Reply
  no_sys : Reply

pub data Prog {ℓ} (A : Type ℓ) : Type ℓ where
  done : A → Prog A
  call : Syscall → (Reply → Prog A) → Prog A

infixl 5 ◌>>=◌
unfoldable pub ◌>>=◌ {ℓ κ} : {A : Type ℓ} {B : Type κ} → Prog A → (A → Prog B) → Prog B
done a >>= f = f a
call c next >>= f = call c (λ r. next r >>= f)

-- `std::io::Result`
pub data Outcome {ℓ} (A : Type ℓ) : Type ℓ where
  ok : A → Outcome A
  err : ErrorKind → Outcome A

-- The operator `?`
unfoldable pub and_then {ℓ κ} :
    {A : Type ℓ} {B : Type κ} → Prog (Outcome A) → (A → Prog (Outcome B)) → Prog (Outcome B)
unfolding ◌>>=◌
and_then m f = m >>= λ o. elim o [ ok a ↦ f a | err e ↦ done (err e) ]
