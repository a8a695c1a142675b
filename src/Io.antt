-- ===== src/Io.antt =====
-- What the code asks of an open file of the operating system: reads that may be short or fail, and
-- writes that may fail part of the way. The behaviour that it relies on is stated as named laws.
use quicfs.Base.{ℕ, ◌-◌, ◌≤◌, ◌<◌, ◌≡◌, ◌≢◌, Option, none, List}
use quicfs.File.{File, write}
use quicfs.Common.Status.{ErrorKind}

pub data ReadOutcome : Type 0 where
  got : ℕ → ReadOutcome
  failed : ErrorKind → ReadOutcome

pub record Io : Type 0 where
  -- `f.seek(SeekFrom::Start(offset)).and_then(|_| f.read(&mut buf))` for a buffer of `n` bytes: how
  -- many bytes were read.
  pub read : File → ℕ → ℕ → ReadOutcome
  -- `f.seek(SeekFrom::Start(offset))` and `f.write_all(data)`: the file afterwards, and the error.
  pub write_all : ℕ → List ℕ → File → File × Option ErrorKind

-- A read that succeeds returns no more than the buffer holds and the file has, and nothing at all
-- only at the end of the file or for an empty buffer.
pub record ReadLaws (io : Io) : Type 0 where
  pub fits_buffer : (f : File) (offset n k : ℕ) → io.read f offset n ≡ got k → k ≤ n
  pub in_file : (f : File) (offset n k : ℕ) → io.read f offset n ≡ got k → k ≤ f.size - offset
  pub progress : (f : File) (offset n : ℕ) → 0 < n → offset < f.size → io.read f offset n ≢ got 0

-- A write that succeeds has put the bytes in their place and changed nothing else.
pub record WriteLaws (io : Io) : Type 0 where
  pub in_place :
      (f : File) (offset : ℕ) (payload : List ℕ)
      → (io.write_all offset payload f).1 ≡ none
      → (io.write_all offset payload f).0 ≡ write offset payload f
