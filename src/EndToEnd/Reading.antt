-- ===== src/EndToEnd/Reading.antt =====
-- client/src/conn.rs, `read`, answered by server/src/ops/data.rs, `handle_read`.
use quicfs.Base.{
  ℕ, zero, suc, ◌+◌, ◌-◌, ◌%◌, min, ◌≤◌, ◌<◌, ◌≡◌, ◌≢◌, refl, ap, ◌∙◌, ◌⊎◌, inl, inr, ◌||◌, some,
  List, [], ◌∷◌, ◌++◌, arith, ◌==◌, if◌then◌else◌, Bool-cases, le→ltb, leb, leb→le, if◌then◌else◌,
}
use quicfs.File.{File, slice}
use quicfs.Io.{Io, ReadLaws, ReadOutcome, got, failed}
use quicfs.Common.Status.{Status, ok, from_io, from_io-ne-ok, ErrorKind}
use quicfs.Server.Handles.{OpenHandle, HandleTable, get_handle, u64_mod}
use quicfs.Server.Write.{Disk}
use quicfs.Server.Read.{ReadRequest, ReadResponse, read_loop, handle_read, chunk, max_read_request}
use quicfs.Client.Fetch.{Collected, whole, refused, prepend, checked, collect}

slice-append :
    (offset n m : ℕ) (f : File)
    → slice offset n f ++ slice (offset + n) m f ≡ slice offset (n + m) f
unfolding slice
slice-append offset zero m f =
    let here : offset + 0 ≡ offset = omega arith in
    let all : 0 + m ≡ m = omega arith in rw (here, all) refl
slice-append offset (suc n) m f =
    let next : offset + suc n ≡ offset + 1 + n = omega arith in
    let all : suc n + m ≡ suc (n + m) = omega arith in
    rw (next, all) (ap (◌∷◌ (f.byte offset)) (slice-append (offset + 1) n m f))

ReadOutcome-cases : (o : ReadOutcome) → ((k : ErrorKind) × (o ≡ failed k)) ⊎ ((n : ℕ) × (o ≡ got n))
ReadOutcome-cases (failed k) = inl (k, refl)
ReadOutcome-cases (got n) = inr (n, refl)

-- An error of the server, or the bytes.
abbrev pub Fetched : Collected → List ℕ → Type 0
Fetched result bytes = ((s : Status) × (s ≢ ok) × (result ≡ refused s)) ⊎ (result ≡ whole bytes)

checked-refused : (s : Status) (next : Collected) → s ≢ ok → checked s next ≡ refused s
unfolding checked
checked-refused ok next h = absurd (h refl)
checked-refused _ next h = refl

prepend-Fetched :
    (bytes rest all : List ℕ) (result : Collected)
    → bytes ++ rest ≡ all
    → Fetched result rest
    → Fetched (prepend bytes result) all
prepend-Fetched bytes rest all result e (inl (s, ne, p)) = inl (s, ne, rw p refl)
prepend-Fetched bytes rest all result e (inr p) = inr (rw (p, e) refl)

-- A frame of `n` bytes and the frames behind it.
frame : ℕ → ℕ → ℕ → ℕ → File → ReadResponse
frame seq r offset n f = record {
  seq = seq;
  status = ok;
  offset = offset;
  payload = slice offset n f;
  eof = (n == 0) || (suc r - n == 0);
}

module _ (io : Io) (fuel seq r offset : ℕ) (f : File) where
  round_failed :
      (k : ErrorKind)
      → io.read f offset (min (suc r) chunk) ≡ failed k
      → collect (read_loop io (suc fuel) seq (suc r) offset f) ≡ refused (from_io k)
  unfolding read_loop collect checked
  round_failed k e = rw (e, read_loop) (checked-refused (from_io k) (whole []) (from_io-ne-ok k))

  round_got :
      (n : ℕ)
      → io.read f offset (min (suc r) chunk) ≡ got n
      → collect (read_loop io (suc fuel) seq (suc r) offset f) ≡ (
          if (n == 0) || (suc r - n == 0)
          then whole (slice offset n f)
          else prepend
              (slice offset n f)
              (collect (read_loop io fuel seq (suc r - n) ((offset + n) % u64_mod) f)))
  unfolding read_loop collect checked
  round_got n e = rw (e, read_loop) (ground arith)

ends_at :
    (io : Io) (laws : ReadLaws io) (f : File) (offset m n : ℕ)
    → io.read f offset m ≡ got n
    → 0 < m
    → n ≡ 0
    → f.size ≤ offset
ends_at io laws f offset m n e pos z = elim (Bool-cases (leb f.size offset)) [
  | inl l ↦ leb→le f.size offset l
  | inr l ↦ absurd (laws.progress f offset m pos (ground (arith, l)) (rw z at e))
]

module _ (io : Io) (laws : ReadLaws io) (seq : ℕ) (f : File) where
  -- What the loop reads from `offset` on, and how the client takes it up.
  fetch_loop :
      (fuel remaining offset : ℕ)
      → 0 < remaining
      → remaining ≤ fuel
      → offset + remaining < u64_mod
      → Fetched
          (collect (read_loop io fuel seq remaining offset f))
          (slice offset (min remaining (f.size - offset)) f)
  fetch_loop zero remaining offset pos enough fits = absurd (omega arith)
  fetch_loop (suc fuel) zero offset pos enough fits = absurd (omega arith)
  fetch_loop (suc fuel) (suc r) offset pos enough fits =
      elim (ReadOutcome-cases (io.read f offset (min (suc r) chunk))) [
        | inl (k, e) ↦ inl (from_io k, from_io-ne-ok k, round_failed io fuel seq r offset f k e)
        | inr (n, e) ↦
            let small : n ≤ min (suc r) chunk = laws.fits_buffer f offset _ n e in
            let there : n ≤ f.size - offset = laws.in_file f offset _ n e in
            let ends : n ≡ 0 → f.size ≤ offset =
              ends_at io laws f offset (min (suc r) chunk) n e (omega arith) in
            elim (Bool-cases ((n == 0) || (suc r - n == 0))) [
              | inl last ↦
                  let all : n ≡ min (suc r) (f.size - offset) =
                    ground (arith, ends, small, there) in
                  inr (
                    rw (round_got io fuel seq r offset f n e, last)
                      (ap (λ (m : ℕ). whole (slice offset m f)) all))
              | inr more ↦
                  let wraps : (offset + n) % u64_mod ≡ offset + n = omega arith in
                  let sum : n + min (suc r - n) (f.size - (offset + n))
                      ≡ min (suc r) (f.size - offset) =
                    ground (arith, small, there) in
                  rw (round_got io fuel seq r offset f n e, more, wraps)
                    (prepend-Fetched (slice offset n f)
                      (slice (offset + n) (min (suc r - n) (f.size - (offset + n))) f)
                      (slice offset (min (suc r) (f.size - offset)) f)
                      (collect (read_loop io fuel seq (suc r - n) (offset + n) f))
                      (slice-append offset n _ f ∙ ap (λ (m : ℕ). slice offset m f) sum)
                      (fetch_loop fuel (suc r - n) (offset + n) (ground (arith, more))
                        (ground (arith, more)) (ground (arith, small, more))))
            ]
      ]

-- A read of at least one byte, and of no more than the server allows, of a handle that it knows: the
-- client gets an error of the server, or exactly the bytes of the file from the offset on, as many
-- as it asked for or as there are before the end.
pub read_rpc_slice :
    (io : Io) (table : HandleTable) (req : ReadRequest) (disk : Disk) (h : OpenHandle)
    → ReadLaws io
    → 0 < req.length
    → req.length ≤ max_read_request
    → req.offset + req.length < u64_mod
    → get_handle req.handle table ≡ some h
    → Fetched
        (collect (handle_read io table req disk))
        (slice req.offset (min req.length ((disk h.ino_key).size - req.offset)) (disk h.ino_key))
unfolding handle_read
read_rpc_slice io table req disk h laws pos few fits known =
    rw (le→ltb max_read_request req.length few, known, handle_read)
      (fetch_loop io laws req.seq (disk h.ino_key) req.length req.length req.offset pos
        (omega arith) fits)
