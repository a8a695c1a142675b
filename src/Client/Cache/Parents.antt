-- ===== src/Client/Cache/Parents.antt =====
-- client/src/cache.rs, `invalidate`: the parent of a path that ends with a name.
use quicfs.Base.{ℕ, ◌≡◌, ◌≢◌, refl, false, none, some, [], ◌∷◌, ◌++◌, Option-cases, inl, inr, arith}
use quicfs.Server.Sanitize.{Name, slash, name_eq}
use quicfs.Server.Sanitize.Split.{Lacks, name_eq_refl}
use quicfs.Client.Cache.{before_last, parent, Lru, LruLaws, CacheConfig, invalidate}

no_slash : (n : Name) → Lacks slash n → before_last n ≡ none
no_slash [] h = refl
no_slash (c ∷ cs) h = ground (arith, no_slash cs h.1, h.0)

before_last-append : (x n : Name) → Lacks slash n → before_last (x ++ slash ∷ n) ≡ some x
before_last-append [] n h = rw (no_slash n h) refl
before_last-append (c ∷ x) n h = rw (before_last-append x n h) refl

not_nil : (x n : Name) → name_eq (x ++ slash ∷ n) [] ≡ false
not_nil [] n = refl
not_nil (c ∷ x) n = refl

-- The directory of a path, and the root as the directory of a name in it.
pub parent-append :
    (c : ℕ) (x n : Name) → Lacks slash n → parent ((c ∷ x) ++ slash ∷ n) ≡ some (c ∷ x)
unfolding parent
parent-append c x n h = ground (arith, not_nil x n, before_last-append x n h)

pub parent_root : (n : Name) → n ≢ [] → Lacks slash n → parent (slash ∷ n) ≡ some (slash ∷ [])
unfolding parent
parent_root [] ne h = absurd (ne refl)
parent_root (d ∷ n) ne h = ground (arith, no_slash n h.1, h.0)

module _ {Stat : Type 0} (lru : Lru Stat) (laws : LruLaws Stat lru) (cfg : CacheConfig) where
  -- Nothing is left of the path and of its directory.
  pub invalidate_gone :
      (path dir : Name) (c : lru.State)
      → parent path ≡ some dir
      → (lru.peek path (invalidate lru cfg path c) ≡ none)
        × (lru.peek dir (invalidate lru cfg path c) ≡ none)
  unfolding invalidate
  invalidate_gone path dir c e =
      rw (e, invalidate)
        (
          ground (
            arith,
            laws.pop_peek dir path (lru.pop path c),
            laws.pop_peek path path c,
            name_eq_refl path,
          ),
          ground (arith, laws.pop_peek dir dir (lru.pop path c), name_eq_refl dir),
        )

  -- What the cache had lost stays lost.
  pub invalidate_keeps :
      (path other : Name) (c : lru.State)
      → lru.peek other c ≡ none
      → lru.peek other (invalidate lru cfg path c) ≡ none
  unfolding invalidate
  invalidate_keeps path other c e = elim (Option-cases (parent path)) [
    | inl f ↦ rw (f, invalidate) (ground (arith, laws.pop_peek path other c, e))
    | inr (dir, f) ↦
        rw (f, invalidate)
          (ground (arith, laws.pop_peek dir other (lru.pop path c), laws.pop_peek path other c, e))
  ]
