-- ===== src/Client/Cache.antt =====
-- client/src/cache.rs: the metadata cache. The `LruCache` of the crate `lru` is an interface, and
-- what the code relies on are its laws: it may lose entries, and never makes one up. `Instant::now()`
-- is the argument `now`. A path is a text without repeated or trailing slashes, as the mount makes it.
pub mod Latest
pub mod Parents
use quicfs.Base.{
  ℕ, ◌+◌, ◌≡◌, ◌⊎◌, Bool, true, false, Option, none, some, List, [], ◌∷◌, leb, ◌==◌, if◌then◌else◌,
}
use quicfs.Server.Sanitize.{Name, slash, name_eq}

pub record CacheConfig : Type 0 where
  pub max_entries : ℕ
  pub pos_ttl : ℕ
  pub neg_ttl : ℕ
  pub dir_ttl : ℕ

module _ (Stat : Type 0) where
  -- `found` and `not_found`, each with the time at which it expires.
  pub data Entry : Type 0 where
    found : Stat → ℕ → Entry
    not_found : ℕ → Entry

  pub record Lru : Type 1 where
    pub State : Type 0
    pub empty : ℕ → State
    pub peek : Name → State → Option Entry
    pub get : Name → State → State × Option Entry
    pub put : Name → Entry → State → State
    pub pop : Name → State → State
    pub clear : State → State

  pub record LruLaws (lru : Lru) : Type 0 where
    pub empty_none : (n : ℕ) (p : Name) → lru.peek p (lru.empty n) ≡ none
    pub get_peek : (p : Name) (c : lru.State) → (lru.get p c).1 ≡ lru.peek p c
    pub get_keeps : (p q : Name) (c : lru.State) → lru.peek q (lru.get p c).0 ≡ lru.peek q c
    pub put_same : (p : Name) (e : Entry) (c : lru.State) → lru.peek p (lru.put p e c) ≡ some e
    pub put_other :
        (p q : Name) (e : Entry) (c : lru.State)
        → name_eq p q ≡ false
        → (lru.peek q (lru.put p e c) ≡ none) ⊎ (lru.peek q (lru.put p e c) ≡ lru.peek q c)
    pub pop_peek :
        (p q : Name) (c : lru.State)
        → lru.peek q (lru.pop p c) ≡ (if name_eq p q then none else lru.peek q c)
    pub clear_none : (p : Name) (c : lru.State) → lru.peek p (lru.clear c) ≡ none

-- The text in front of the last slash.
abbrev before_last : Name → Option Name
before_last [] = none
before_last (c ∷ cs) = elim (before_last cs) [
  | some p ↦ some (c ∷ p)
  | none ↦ if c == slash then some [] else none
]

-- `Path::new(path).parent()`
unfoldable pub parent : Name → Option Name
parent path =
    if name_eq path []
    then none
    else if name_eq path (slash ∷ [])
    then none
    else elim (before_last path) [ none ↦ some [] | some [] ↦ some (slash ∷ []) | some p ↦ some p ]

module _ {Stat : Type 0} (lru : Lru Stat) (cfg : CacheConfig) where
  -- `NonZeroUsize::new(cfg.max_entries)`, or 8192
  unfoldable pub new : lru.State
  new = lru.empty (if cfg.max_entries == 0 then 8192 else cfg.max_entries)

  abbrev pub expires : Entry Stat → ℕ
  expires (found stat t) = t
  expires (not_found t) = t

  -- `Some(Ok(stat))`, or `Some(Err(()))` as `some none`.
  abbrev pub answer : Option (Entry Stat) → Option (Option Stat)
  answer (some (found stat t)) = some (some stat)
  answer (some (not_found t)) = some none
  answer none = none

  unfoldable pub get : ℕ → Name → lru.State → lru.State × Option (Option Stat)
  get now path c = elim (lru.peek path c) [
    | none ↦ (c, none)
    | some e ↦
        if leb (expires e) now
        then (lru.pop path c, none)
        else ((lru.get path c).0, answer (lru.get path c).1)
  ]

  unfoldable pub insert : ℕ → Name → Stat → Bool → lru.State → lru.State
  insert now path stat is_dir c =
      lru.put path (found stat (now + (if is_dir then cfg.dir_ttl else cfg.pos_ttl))) c

  unfoldable pub insert_negative : ℕ → Name → lru.State → lru.State
  insert_negative now path c = lru.put path (not_found (now + cfg.neg_ttl)) c

  unfoldable pub invalidate : Name → lru.State → lru.State
  unfolding parent
  invalidate path c = elim (parent path) [
    | none ↦ lru.pop path c
    | some p ↦ lru.pop p (lru.pop path c)
  ]

  unfoldable pub clear : lru.State → lru.State
  clear c = lru.clear c
