-- ===== src/Base/Maps.antt =====
-- `HashMap<u64, V>` as an association list. The order of the list stands for the iteration order
-- of the map, which Rust leaves open.
use Prim.Native.Nat.{ℕ, suc, ◌+◌, ◌≤◌}
use mathlib.Core.Path.{◌≡◌, refl}
use mathlib.Core.List.{List, [], ◌∷◌}
use mathlib.Core.Option.{Option, none, some}
use native.Mathlib.Omega.{arith}
use quicfs.Base.Lists.{length}
use quicfs.Base.Tests.{◌==◌, if◌then◌else◌}

abbrev pub Map {ℓ} : Type ℓ → Type ℓ
Map V = List (ℕ × V)

module _ {ℓ} {V : Type ℓ} where
  -- m.get(&k)
  unfoldable pub lookup : ℕ → Map V → Option V
  lookup k [] = none
  lookup k (entry ∷ m) = if entry.0 == k then some entry.1 else lookup k m

  -- m.insert(k, v)
  unfoldable pub insert : ℕ → V → Map V → Map V
  insert k v [] = (k, v) ∷ []
  insert k v (entry ∷ m) = if entry.0 == k then (k, v) ∷ m else entry ∷ insert k v m

  -- m.remove(&k)
  unfoldable pub without : ℕ → Map V → Map V
  without k [] = []
  without k ((j, v) ∷ m) = let rest = without k m in if j == k then rest else (j, v) ∷ rest

  pub lookup-insert :
      (at q : ℕ) (new : V) (m : Map V)
      → lookup q (insert at new m) ≡ (if at == q then some new else lookup q m)
  unfolding insert lookup
  lookup-insert at q new [] = refl
  lookup-insert at q new (entry ∷ m) = ground (arith, lookup-insert at q new m)

  pub lookup-without :
      (k j : ℕ) (m : Map V) → lookup j (without k m) ≡ (if k == j then none else lookup j m)
  unfolding lookup without
  lookup-without k j [] = ground arith
  lookup-without k j ((i, v) ∷ m) = ground (arith, lookup-without k j m)

  -- No key stands twice.
  abbrev pub IsDistinct : Map V → Type ℓ
  IsDistinct [] = Unit
  IsDistinct ((k, v) ∷ m) = (lookup k m ≡ none) × IsDistinct m

  pub insert-IsDistinct : (k : ℕ) (v : V) (m : Map V) → IsDistinct m → IsDistinct (insert k v m)
  unfolding lookup insert
  insert-IsDistinct k v [] h = (refl, tt)
  insert-IsDistinct k v ((i, w) ∷ m) h =
      ground (arith, lookup-insert k i v m, insert-IsDistinct k v m h.1)

  pub without-IsDistinct : (k : ℕ) (m : Map V) → IsDistinct m → IsDistinct (without k m)
  unfolding without
  without-IsDistinct k [] h = tt
  without-IsDistinct k ((i, w) ∷ m) h =
      ground (arith, lookup-without k i m, without-IsDistinct k m h.1)

  pub without_absent : (k : ℕ) (m : Map V) → lookup k m ≡ none → without k m ≡ m
  unfolding lookup without
  without_absent k [] h = refl
  without_absent k ((i, w) ∷ m) h = ground (arith, without_absent k m)

  -- A sum over the values.
  unfoldable pub total : (V → ℕ) → Map V → ℕ
  total f [] = 0
  total f ((k, v) ∷ m) = f v + total f m

  abbrev pub weight : (V → ℕ) → Option V → ℕ
  weight f none = 0
  weight f (some v) = f v

  pub total-insert :
      (f : V → ℕ) (k : ℕ) (v : V) (m : Map V)
      → total f (insert k v m) + weight f (lookup k m) ≡ total f m + f v
  unfolding lookup insert total
  total-insert f k v [] = omega arith
  total-insert f k v ((i, w) ∷ m) = ground (arith, total-insert f k v m)

  pub total-without :
      (f : V → ℕ) (k : ℕ) (m : Map V)
      → IsDistinct m
      → total f (without k m) + weight f (lookup k m) ≡ total f m
  unfolding lookup without total
  total-without f k [] h = omega arith
  total-without f k ((i, w) ∷ m) h = ground (arith, total-without f k m h.1, without_absent k m)

  pub length-insert_new :
      (k : ℕ) (v : V) (m : Map V) → lookup k m ≡ none → length (insert k v m) ≡ suc (length m)
  unfolding lookup insert
  length-insert_new k v [] h = refl
  length-insert_new k v ((i, w) ∷ m) h = ground (arith, length-insert_new k v m)

  pub length-without-le : (k : ℕ) (m : Map V) → length (without k m) ≤ length m
  unfolding without
  length-without-le k [] = omega arith
  length-without-le k ((i, w) ∷ m) = ground (arith, length-without-le k m)
