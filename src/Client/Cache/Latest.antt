-- ===== src/Client/Cache/Latest.antt =====
-- client/src/cache.rs: a hit tells what was last put in for its path, within its time.
use quicfs.Base.{
  ℕ, ◌+◌, ◌<◌, ◌≡◌, refl, sym, ◌∙◌, ◌⊎◌, inl, inr, Bool, false, ◌||◌, Option, none, some, List, [],
  ◌∷◌, arith, leb, if◌then◌else◌, Bool-cases, Option-cases, lt→leb,
}
use quicfs.Server.Sanitize.{Name, name_eq}
use quicfs.Server.Sanitize.Complete.{name_eq-eq}
use quicfs.Client.Cache.{
  CacheConfig, Entry, found, not_found, Lru, LruLaws, parent, new, expires, answer, get, insert,
  insert_negative, invalidate, clear,
}

module _ (Stat : Type 0) where
  -- A call of a method of the cache.
  pub data Call : Type 0 where
    look : ℕ → Name → Call
    put_stat : ℕ → Name → Stat → Bool → Call
    put_negative : ℕ → Name → Call
    drop_path : Name → Call
    drop_all : Call

-- The path is dropped when `q` is invalidated: it is `q`, or the directory of `q`.
unfoldable pub dropped_by : Name → Name → Bool
dropped_by q p = name_eq q p || elim (parent q) [ none ↦ false | some d ↦ name_eq d p ]

module _ {Stat : Type 0} (cfg : CacheConfig) where
  -- What a call makes of the entry that was last put in for the path.
  unfoldable pub after : Name → Call Stat → Option (Entry Stat) → Option (Entry Stat)
  unfolding dropped_by
  after p (look now q) last = last
  after p (put_stat now q stat is_dir) last =
      if name_eq q p
      then some (found stat (now + (if is_dir then cfg.dir_ttl else cfg.pos_ttl)))
      else last
  after p (put_negative now q) last =
      if name_eq q p then some (not_found (now + cfg.neg_ttl)) else last
  after p (drop_path q) last = if dropped_by q p then none else last
  after p drop_all last = none

  unfoldable pub latest : Name → List (Call Stat) → Option (Entry Stat) → Option (Entry Stat)
  unfolding after
  latest p [] last = last
  latest p (c ∷ cs) last = latest p cs (after p c last)

module _ {Stat : Type 0} (lru : Lru Stat) (cfg : CacheConfig) where
  unfoldable pub step : Call Stat → lru.State → lru.State
  unfolding get insert insert_negative invalidate clear
  step (look now q) c = (get lru cfg now q c).0
  step (put_stat now q stat is_dir) c = insert lru cfg now q stat is_dir c
  step (put_negative now q) c = insert_negative lru cfg now q c
  step (drop_path q) c = invalidate lru cfg q c
  step drop_all c = clear lru cfg c

  unfoldable pub run : List (Call Stat) → lru.State → lru.State
  unfolding step
  run [] c = c
  run (call ∷ cs) c = run cs (step call c)

module _ {Stat : Type 0} (lru : Lru Stat) (laws : LruLaws Stat lru) (cfg : CacheConfig)
    (p : Name) where
  -- The cache has nothing for the path, or what was last put in.
  abbrev Agrees : lru.State → Option (Entry Stat) → Type 0
  Agrees c last = (lru.peek p c ≡ none) ⊎ (lru.peek p c ≡ last)

  pop-Agrees :
      (q : Name) (c : lru.State) (last : Option (Entry Stat))
      → Agrees c last
      → Agrees (lru.pop q c) (if name_eq q p then none else last)
  pop-Agrees q c last a = ground (arith, laws.pop_peek q p c)

  pop_only-Agrees :
      (q : Name) (c : lru.State) (last : Option (Entry Stat))
      → Agrees c last
      → Agrees (lru.pop q c) last
  pop_only-Agrees q c last a = ground (arith, laws.pop_peek q p c)

  put_other-Agrees :
      (q : Name) (e : Entry Stat) (c : lru.State) (last : Option (Entry Stat))
      → name_eq q p ≡ false
      → Agrees c last
      → Agrees (lru.put q e c) last
  put_other-Agrees q e c last other a = elim (laws.put_other q p e c other) [
    | inl gone ↦ inl gone
    | inr same ↦ elim a [ inl z ↦ inl (same ∙ z) | inr z ↦ inr (same ∙ z) ]
  ]

  put-Agrees :
      (q : Name) (e : Entry Stat) (c : lru.State) (last : Option (Entry Stat))
      → Agrees c last
      → Agrees (lru.put q e c) (if name_eq q p then some e else last)
  put-Agrees q e c last a = elim (Bool-cases (name_eq q p)) [
    | inl same ↦ rw (same, name_eq-eq q p same) (inr (laws.put_same p e c))
    | inr other ↦ rw other (put_other-Agrees q e c last other a)
  ]

  look-Agrees :
      (now : ℕ) (q : Name) (c : lru.State) (last : Option (Entry Stat))
      → Agrees c last
      → Agrees (get lru cfg now q c).0 last
  unfolding get
  look-Agrees now q c last a = ground (arith, laws.get_keeps q p c, pop_only-Agrees q c last a)

  drop-Agrees :
      (q : Name) (c : lru.State) (last : Option (Entry Stat))
      → Agrees c last
      → Agrees (invalidate lru cfg q c) (if dropped_by q p then none else last)
  unfolding invalidate dropped_by
  drop-Agrees q c last a = elim (Option-cases (parent q)) [
    | inl e ↦ rw (e, invalidate, dropped_by) (ground (arith, laws.pop_peek q p c))
    | inr (d, e) ↦
        rw (e, invalidate, dropped_by)
          (ground (arith, laws.pop_peek d p (lru.pop q c), laws.pop_peek q p c))
  ]

  step-Agrees :
      (call : Call Stat) (c : lru.State) (last : Option (Entry Stat))
      → Agrees c last
      → Agrees (step lru cfg call c) (after cfg p call last)
  unfolding step after insert insert_negative clear
  step-Agrees (look now q) c last a = look-Agrees now q c last a
  step-Agrees (put_stat now q stat is_dir) c last a =
      put-Agrees q (found stat (now + (if is_dir then cfg.dir_ttl else cfg.pos_ttl))) c last a
  step-Agrees (put_negative now q) c last a = put-Agrees q (not_found (now + cfg.neg_ttl)) c last a
  step-Agrees (drop_path q) c last a = drop-Agrees q c last a
  step-Agrees drop_all c last a = inl (laws.clear_none p c)

  run-Agrees :
      (cs : List (Call Stat)) (c : lru.State) (last : Option (Entry Stat))
      → Agrees c last
      → Agrees (run lru cfg cs c) (latest cfg p cs last)
  unfolding run latest
  run-Agrees [] c last a = a
  run-Agrees (call ∷ cs) c last a =
      run-Agrees cs (step lru cfg call c) (after cfg p call last) (step-Agrees call c last a)

  hit_entry :
      (now : ℕ) (c : lru.State) (a : Option Stat)
      → (get lru cfg now p c).1 ≡ some a
      → (e : Entry Stat) × (lru.peek p c ≡ some e)
        × (answer lru cfg (some e) ≡ some a)
        × (now < expires lru cfg e)
  unfolding get
  hit_entry now c a h = elim (Option-cases (lru.peek p c)) [
    | inl gone ↦ absurd (cc (rw (gone, get) at h))
    | inr (e, there) ↦ elim (Bool-cases (leb (expires lru cfg e) now)) [
      | inl old ↦ absurd (cc (rw (there, get, old) at h))
      | inr young ↦ (
        e,
        there,
        rw there at (rw (there, get, young, laws.get_peek p c) at h),
        ground (arith, young),
      )
    ]
  ]

  -- A hit for a path, after any calls on a new cache, tells what was last put in for it: the entry
  -- was put in after the last clearing and after the last invalidation of the path and of anything
  -- directly in it, and its time is not over.
  pub hit_latest :
      (now : ℕ) (cs : List (Call Stat)) (a : Option Stat)
      → (get lru cfg now p (run lru cfg cs (new lru cfg))).1 ≡ some a
      → (e : Entry Stat) × (latest cfg p cs none ≡ some e)
        × (answer lru cfg (some e) ≡ some a)
        × (now < expires lru cfg e)
  unfolding new
  hit_latest now cs a h =
      let (e, there, told, young) = hit_entry now (run lru cfg cs (new lru cfg)) a h in
      let last : Agrees (run lru cfg cs (new lru cfg)) (latest cfg p cs none) =
        run-Agrees cs (new lru cfg) none (inl (laws.empty_none _ p)) in
      elim last [
        | inl gone ↦ absurd (cc (gone, there))
        | inr same ↦ (e, sym same ∙ there, told, young)
      ]

  -- What is put in is found until its time is over, if nothing else is put in meanwhile.
  pub get-insert :
      (now later : ℕ) (stat : Stat) (is_dir : Bool) (c : lru.State)
      → later < now + (if is_dir then cfg.dir_ttl else cfg.pos_ttl)
      → (get lru cfg later p (insert lru cfg now p stat is_dir c)).1 ≡ some (some stat)
  unfolding get insert
  get-insert now later stat is_dir c h =
      let t : ℕ = now + (if is_dir then cfg.dir_ttl else cfg.pos_ttl) in
      rw
        (
          laws.put_same p (found stat t) c,
          get,
          lt→leb t later h,
          laws.get_peek p (lru.put p (found stat t) c),
          laws.put_same p (found stat t) c,
        )
        refl
