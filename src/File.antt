-- ===== src/File.antt =====
-- `std::fs::File` as the code uses it: a content with a size, positioned writes byte by byte
-- (`seek` and `write_all`), and reads that may be short. Bytes past the end read as zero, as in
-- the hole that a positioned write beyond the end leaves.
use quicfs.Base.{
  ℕ, zero, suc, ◌+◌, ◌-◌, ◌≤◌, ◌<◌, max, ◌≡◌, refl, sym, ap, ◌∙◌, ◌⊎◌, ◌&&◌, List, [], ◌∷◌, ◌++◌,
  arith, ltb, leb, ◌==◌, if◌then◌else◌, length, get_or, ◌≢◌,
}

pub record File : Type 0 where
  pub size : ℕ
  pub byte : ℕ → ℕ

abbrev pub empty : File
empty = record { size = 0; byte = λ _. 0 }

unfoldable pub set_byte : ℕ → ℕ → File → File
set_byte i x f = record { size = max f.size (i + 1); byte = λ j. if i == j then x else f.byte j }

-- `f.seek(SeekFrom::Start(offset))` and `f.write_all(data)`
unfoldable pub write : ℕ → List ℕ → File → File
write offset [] f = f
write offset (x ∷ xs) f = write (offset + 1) xs (set_byte offset x f)

-- The `n` bytes from `offset` on.
unfoldable pub slice : ℕ → ℕ → File → List ℕ
slice offset zero f = []
slice offset (suc n) f = f.byte offset ∷ slice (offset + 1) n f

File_path : (f g : File) → f.size ≡ g.size → ((i : ℕ) → f.byte i ≡ g.byte i) → f ≡ g
File_path f g p q = λ i. record { size = p i; byte = λ j. q j i }

set_byte_comm :
    (i j x y : ℕ) (f : File) → i ≢ j → set_byte i x (set_byte j y f) ≡ set_byte j y (set_byte i x f)
unfolding set_byte
set_byte_comm i j x y f h = File_path _ _ (omega arith) (λ k. ground arith)

pub write-append :
    (offset : ℕ) (xs ys : List ℕ) (f : File)
    → write offset (xs ++ ys) f ≡ write (offset + length xs) ys (write offset xs f)
unfolding write
write-append offset [] ys f = ap (λ (n : ℕ). write n ys f) (omega arith)
write-append offset (x ∷ xs) ys f =
    write-append (offset + 1) xs ys (set_byte offset x f)
    ∙ ap (λ (n : ℕ). write n ys (write (offset + 1) xs (set_byte offset x f))) (omega arith)

write-set_byte :
    (offset : ℕ) (xs : List ℕ) (i x : ℕ) (f : File)
    → (i < offset) ⊎ (offset + length xs ≤ i)
    → write offset xs (set_byte i x f) ≡ set_byte i x (write offset xs f)
unfolding write
write-set_byte offset [] i x f h = refl
write-set_byte offset (y ∷ xs) i x f h =
    ap (write (offset + 1) xs) (set_byte_comm offset i y x f (omega arith))
    ∙ write-set_byte (offset + 1) xs i x (set_byte offset y f) (omega arith)

-- Writes to ranges that do not meet commute.
pub write_comm :
    (a : ℕ) (xs : List ℕ) (b : ℕ) (ys : List ℕ) (f : File)
    → (a + length xs ≤ b) ⊎ (b + length ys ≤ a)
    → write a xs (write b ys f) ≡ write b ys (write a xs f)
unfolding write
write_comm a [] b ys f h = refl
write_comm a (x ∷ xs) b ys f h =
    ap (write (a + 1) xs) (sym (write-set_byte b ys a x f (omega arith)))
    ∙ write_comm (a + 1) xs b ys (set_byte a x f) (omega arith)

get_or-cons :
    (x : ℕ) (xs : List ℕ) (offset i : ℕ)
    → offset < i
    → get_or (x ∷ xs) (i - offset) 0 ≡ get_or xs (i - (offset + 1)) 0
get_or-cons x xs offset i h = let e : i - offset ≡ suc (i - (offset + 1)) = omega arith in rw e refl

get_or_self : (x : ℕ) (xs : List ℕ) (i : ℕ) → get_or (x ∷ xs) (i - i) 0 ≡ x
get_or_self x xs i = let e : i - i ≡ 0 = omega arith in rw e refl

-- What a positioned write leaves at each position.
pub byte-write :
    (offset : ℕ) (xs : List ℕ) (f : File) (i : ℕ)
    → (write offset xs f).byte i
      ≡ (if leb offset i && ltb i (offset + length xs) then get_or xs (i - offset) 0 else f.byte i)
unfolding write set_byte
byte-write offset [] f i = ground arith
byte-write offset (x ∷ xs) f i = ground (
  arith,
  get_or-cons x xs offset i,
  get_or_self x xs i,
  byte-write (offset + 1) xs (set_byte offset x f) i,
)

pub size-write :
    (offset : ℕ) (xs : List ℕ) (f : File)
    → (write offset xs f).size
      ≡ (if length xs == 0 then f.size else max f.size (offset + length xs))
unfolding write set_byte
size-write offset [] f = ground arith
size-write offset (x ∷ xs) f = ground (arith, size-write (offset + 1) xs (set_byte offset x f))
