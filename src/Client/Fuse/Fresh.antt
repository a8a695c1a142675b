-- ===== src/Client/Fuse/Fresh.antt =====
-- client/src/fuse_ops.rs: what the cache and the table of numbers hold of names that were removed or
-- renamed, and of names that were made.
use quicfs.Base.{
  ℕ, ◌≡◌, ◌≢◌, refl, sym, ◌∙◌, ap, Option, none, some, List, [], ◌∷◌, ◌++◌, All, inl, inr,
  Option-cases, arith, append-nil, append_assoc,
}
use quicfs.Client.Mount.{Conn}
use quicfs.Client.Inodes.{InodeTable, remove_path}
use quicfs.Client.Inodes.Numbers.{path_eq_refl}
use quicfs.Client.Cache.{CacheConfig, Lru, LruLaws, parent, invalidate}
use quicfs.Client.Cache.Parents.{parent-append, parent_root, invalidate_gone, invalidate_keeps}
use quicfs.Server.Sanitize.{Name, FilePath, slash}
use quicfs.Server.Sanitize.Split.{Lacks}
use quicfs.Server.Meta.{Stat}
use quicfs.Server.Confined.{split_last}
use quicfs.Client.Fuse.{
  Answer, got, failed, Told, answered, Remote, path_text, join_names, child_path, QuicFs, with_link,
  path_for, invalidate_cache,
}
use quicfs.Client.Fuse.Names.{unlink, rmdir, rename, removed, renamed}

join_names-append : (p q : FilePath) → join_names (p ++ q) ≡ join_names p ++ join_names q
join_names-append [] q = refl
join_names-append (n ∷ p) q =
    ap (λ (t : Name). slash ∷ (n ++ t)) (join_names-append p q)
    ∙ ap (◌∷◌ slash) (sym (append_assoc n (join_names p) (join_names q)))

-- A name in a directory: neither empty nor with a slash.
abbrev pub IsName : Name → Type 0
IsName name = (name ≢ []) × Lacks slash name

-- The directory of a child is the directory.
parent-child_path :
    (dir : FilePath) (name : Name)
    → IsName name
    → parent (path_text (child_path dir name)) ≡ some (path_text dir)
unfolding path_text child_path
parent-child_path [] name ok =
    ap (λ (t : Name). parent (slash ∷ t)) (append-nil name) ∙ parent_root name ok.0 ok.1
parent-child_path (n ∷ dir) name ok =
    let whole : join_names (n ∷ (dir ++ name ∷ []))
        ≡ (slash ∷ (n ++ join_names dir)) ++ slash ∷ name =
      join_names-append (n ∷ dir) (name ∷ [])
      ∙ ap (λ (t : Name). join_names (n ∷ dir) ++ slash ∷ t) (append-nil name) in
    ap parent whole ∙ parent-append slash (n ++ join_names dir) name ok.1

split_last-child_path :
    (dir : FilePath) (name : Name) → split_last (child_path dir name) ≡ some (dir, name)
unfolding child_path split_last
split_last-child_path [] name = refl
split_last-child_path (n ∷ dir) name = rw (split_last-child_path dir name, split_last) refl

-- What takes names away.
pub data Removal : Type 0 where
  unlinks rmdirs : ℕ → Name → Removal
  renames : ℕ → Name → ℕ → Name → ℕ → Removal

abbrev pub AreNames : Removal → Type 0
AreNames (unlinks parent name) = IsName name
AreNames (rmdirs parent name) = IsName name
AreNames (renames parent name new_parent new_name flags) = IsName name × IsName new_name

abbrev child_and_dir : Option FilePath → Name → List Name
child_and_dir none name = []
child_and_dir (some dir) name = path_text (child_path dir name) ∷ path_text dir ∷ []

abbrev child_of : Option FilePath → Name → List FilePath
child_of none name = []
child_of (some dir) name = child_path dir name ∷ []

remove_path_lem : (path : FilePath) (t : InodeTable) → (remove_path path t).path_to_ino path ≡ none
unfolding remove_path
remove_path_lem path t = elim (Option-cases (t.path_to_ino path)) [
  | inl e ↦ rw (e, remove_path) e
  | inr (ino, e) ↦ rw (e, remove_path) (rw (path_eq_refl path) refl)
]

module _ {conn : Conn} {lru : Lru Stat} where
  -- The paths of the names, and of their directories.
  abbrev pub gone : Removal → QuicFs conn lru → List Name
  gone (unlinks parent name) fs = child_and_dir (path_for parent fs) name
  gone (rmdirs parent name) fs = child_and_dir (path_for parent fs) name
  gone (renames parent name new_parent new_name flags) fs =
      child_and_dir (path_for parent fs) name ++ child_and_dir (path_for new_parent fs) new_name

  -- The paths that do not exist any more.
  abbrev pub removed_paths : Removal → QuicFs conn lru → List FilePath
  removed_paths (unlinks parent name) fs = child_of (path_for parent fs) name
  removed_paths (rmdirs parent name) fs = child_of (path_for parent fs) name
  removed_paths (renames parent name new_parent new_name flags) fs = []

  removed-ok :
      (remote : Remote conn) (cfg : CacheConfig) (path : FilePath) (fs : QuicFs conn lru)
      (a : Answer (Unit {0}))
      → (removed cfg remote path fs a).1 ≡ answered tt
      → ((removed cfg remote path fs a).0.cache ≡ fs.cache)
        × ((removed cfg remote path fs a).0.inodes.path_to_ino path ≡ none)
  unfolding removed
  removed-ok remote cfg path fs (got u) h = (refl, remove_path_lem path fs.inodes)
  removed-ok remote cfg path fs (failed e) h = absurd (cc)

module _ {conn : Conn} {lru : Lru Stat} (cfg : CacheConfig) (remote : Remote conn) where
  abbrev pub perform : Removal → QuicFs conn lru → QuicFs conn lru × Told (Unit {0})
  perform (unlinks parent name) fs = unlink cfg remote parent name fs
  perform (rmdirs parent name) fs = rmdir cfg remote parent name fs
  perform (renames parent name new_parent new_name flags) fs =
      rename cfg remote parent name new_parent new_name flags fs

module _ {conn : Conn} {lru : Lru Stat} where
  -- Nothing in the cache for the paths, and no number.
  abbrev pub Forgotten : List Name → List FilePath → QuicFs conn lru → Type 0
  Forgotten names paths fs =
      All (λ p. lru.peek p fs.cache ≡ none) names × All (λ q. fs.inodes.path_to_ino q ≡ none) paths

module _ {conn : Conn} {lru : Lru Stat} (laws : LruLaws Stat lru) (cfg : CacheConfig)
    (remote : Remote conn) where
  removed-Forgotten :
      (dir : FilePath) (name : Name) (fs : QuicFs conn lru) (link : conn.State)
      (a : Answer (Unit {0}))
      → IsName name
      → (removed cfg remote
          (child_path dir name)
          (with_link link (invalidate_cache cfg (path_text (child_path dir name)) fs))
          a).1
        ≡ answered tt
      → Forgotten
          (child_and_dir (some dir) name)
          (child_of (some dir) name)
          (removed cfg remote
            (child_path dir name)
            (with_link link (invalidate_cache cfg (path_text (child_path dir name)) fs))
            a).0
  unfolding invalidate_cache
  removed-Forgotten dir name fs link a ok h =
      let text : Name = path_text (child_path dir name) in
      let fs' : QuicFs conn lru = with_link link (invalidate_cache cfg text fs) in
      let (same, unnumbered) = removed-ok remote cfg (child_path dir name) fs' a h in
      let (child_gone, dir_gone) =
        invalidate_gone lru laws cfg text (path_text dir) fs.cache
          (parent-child_path dir name ok) in
      rw same ((child_gone, (dir_gone, tt)), (unnumbered, tt))

  unlink-some :
      (parent : ℕ) (name : Name) (fs : QuicFs conn lru) (dir : FilePath)
      → path_for parent fs ≡ some dir
      → unlink cfg remote parent name fs
        ≡ removed cfg remote
            (child_path dir name)
            (with_link
              (remote.unlink (path_text (child_path dir name)) fs.mount.link).0
              (invalidate_cache cfg (path_text (child_path dir name)) fs))
            (remote.unlink (path_text (child_path dir name)) fs.mount.link).1
  unfolding unlink invalidate_cache
  unlink-some parent name fs dir e = rw (e, unlink) refl

  rmdir-some :
      (parent : ℕ) (name : Name) (fs : QuicFs conn lru) (dir : FilePath)
      → path_for parent fs ≡ some dir
      → rmdir cfg remote parent name fs
        ≡ removed cfg remote
            (child_path dir name)
            (with_link
              (remote.rmdir (path_text (child_path dir name)) fs.mount.link).0
              (invalidate_cache cfg (path_text (child_path dir name)) fs))
            (remote.rmdir (path_text (child_path dir name)) fs.mount.link).1
  unfolding rmdir invalidate_cache
  rmdir-some parent name fs dir e = rw (e, rmdir) refl

  rename-some :
      (parent : ℕ) (name : Name) (new_parent : ℕ) (new_name : Name) (flags : ℕ)
      (fs : QuicFs conn lru) (dir new_dir : FilePath)
      → path_for parent fs ≡ some dir
      → path_for new_parent fs ≡ some new_dir
      → (reply : conn.State × Answer (Unit {0})) × (rename cfg remote parent name new_parent
            new_name flags fs
          ≡ renamed cfg remote
              (child_path dir name)
              (child_path new_dir new_name)
              (with_link reply.0 fs)
              reply.1)
  unfolding rename
  rename-some parent name new_parent new_name flags fs dir new_dir e f = (
    remote.rename (path_text (child_path dir name)) (path_text (child_path new_dir new_name)) flags
        fs.mount.link,
    rw (e, rename, f) refl,
  )

  renamed-Forgotten :
      (dir new_dir : FilePath) (name new_name : Name) (fs : QuicFs conn lru) (a : Answer (Unit {0}))
      → IsName name
      → IsName new_name
      → (renamed cfg remote (child_path dir name) (child_path new_dir new_name) fs a).1
        ≡ answered tt
      → Forgotten
          (child_and_dir (some dir) name ++ child_and_dir (some new_dir) new_name)
          []
          (renamed cfg remote (child_path dir name) (child_path new_dir new_name) fs a).0
  unfolding renamed invalidate_cache
  renamed-Forgotten dir new_dir name new_name fs (failed e) ok new_ok h = absurd (cc)
  renamed-Forgotten dir new_dir name new_name fs (got u) ok new_ok h =
      let old : Name = path_text (child_path dir name) in
      let new : Name = path_text (child_path new_dir new_name) in
      let c : lru.State = invalidate lru cfg old fs.cache in
      let c' : lru.State = invalidate lru cfg new c in
      let (old_gone, dir_gone) =
        invalidate_gone lru laws cfg old (path_text dir) fs.cache (parent-child_path dir name ok) in
      let (new_gone, new_dir_gone) =
        invalidate_gone lru laws cfg new (path_text new_dir) c
          (parent-child_path new_dir new_name new_ok) in
      let keeps : (p : Name)
          → lru.peek p c' ≡ none
          → lru.peek p (invalidate lru cfg (path_text new_dir) c') ≡ none =
        λ p e. invalidate_keeps lru laws cfg (path_text new_dir) p c' e in
      rw (split_last-child_path new_dir new_name, renamed)
        (
          (
            keeps old (invalidate_keeps lru laws cfg new old c old_gone),
            (
              keeps (path_text dir) (invalidate_keeps lru laws cfg new (path_text dir) c dir_gone),
              (keeps new new_gone, (keeps (path_text new_dir) new_dir_gone, tt)),
            ),
          ),
          tt,
        )

  no_source :
      (parent : ℕ) (name : Name) (new_parent : ℕ) (new_name : Name) (flags : ℕ)
      (fs : QuicFs conn lru)
      → path_for parent fs ≡ none
      → (rename cfg remote parent name new_parent new_name flags fs).1 ≡ answered tt
      → ⊥
  unfolding rename
  no_source parent name new_parent new_name flags fs e h = ground (arith, e, h)

  no_target :
      (parent : ℕ) (name : Name) (new_parent : ℕ) (new_name : Name) (flags : ℕ)
      (fs : QuicFs conn lru) (dir : FilePath)
      → path_for parent fs ≡ some dir
      → path_for new_parent fs ≡ none
      → (rename cfg remote parent name new_parent new_name flags fs).1 ≡ answered tt
      → ⊥
  unfolding rename
  no_target parent name new_parent new_name flags fs dir e f h = ground (arith, e, f, h)

  -- After an unlink, a rmdir or a rename that is answered with success the cache knows nothing of the
  -- names and of their directories any more, neither that they exist nor that they do not, and a path
  -- that was removed has no number; so the next stat asks the server.
  pub perform-Forgotten :
      (r : Removal) (fs : QuicFs conn lru)
      → AreNames r
      → (perform cfg remote r fs).1 ≡ answered tt
      → Forgotten (gone r fs) (removed_paths r fs) (perform cfg remote r fs).0
  perform-Forgotten (unlinks parent name) fs ok h = elim (Option-cases (path_for parent fs)) [
    | inl e ↦ rw e (tt, tt)
    | inr (dir, e) ↦
        let same = unlink-some parent name fs dir e in
        rw (e, same)
          (removed-Forgotten dir name fs
            (remote.unlink (path_text (child_path dir name)) fs.mount.link).0
            (remote.unlink (path_text (child_path dir name)) fs.mount.link).1 ok
            (sym (ap (λ (q : QuicFs conn lru × Told (Unit {0})). q.1) same) ∙ h))
  ]
  perform-Forgotten (rmdirs parent name) fs ok h = elim (Option-cases (path_for parent fs)) [
    | inl e ↦ rw e (tt, tt)
    | inr (dir, e) ↦
        let same = rmdir-some parent name fs dir e in
        rw (e, same)
          (removed-Forgotten dir name fs
            (remote.rmdir (path_text (child_path dir name)) fs.mount.link).0
            (remote.rmdir (path_text (child_path dir name)) fs.mount.link).1 ok
            (sym (ap (λ (q : QuicFs conn lru × Told (Unit {0})). q.1) same) ∙ h))
  ]
  perform-Forgotten (renames parent name new_parent new_name flags) fs ok h =
      elim (Option-cases (path_for parent fs)) [
        | inl e ↦ absurd (no_source parent name new_parent new_name flags fs e h)
        | inr (dir, e) ↦ elim (Option-cases (path_for new_parent fs)) [
          | inl f ↦ absurd (no_target parent name new_parent new_name flags fs dir e f h)
          | inr (new_dir, f) ↦
              let (reply, same) =
                rename-some parent name new_parent new_name flags fs dir new_dir e f in
              rw (e, f, same)
                (renamed-Forgotten dir new_dir name new_name (with_link reply.0 fs) reply.1 ok.0
                  ok.1 (sym (ap (λ (q : QuicFs conn lru × Told (Unit {0})). q.1) same) ∙ h))
        ]
      ]
