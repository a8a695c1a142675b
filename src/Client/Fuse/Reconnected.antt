-- ===== src/Client/Fuse/Reconnected.antt =====
-- client/src/fuse_ops.rs, `get_stat`: after a reconnection nothing is answered from the cache.
use quicfs.Base.{ℕ, ◌≡◌, ◌≢◌, refl, ◌∙◌, ap, Bool, none, arith, if◌then◌else◌}
use quicfs.Common.Status.{ErrorKind}
use quicfs.Client.Errno.{contains, io_to_errno}
use quicfs.Client.Mount.{Conn}
use quicfs.Client.Cache.{CacheConfig, Lru, LruLaws, get}
use quicfs.Server.Sanitize.{Name}
use quicfs.Server.Meta.{Stat}
use quicfs.Client.Fuse.{
  Answer, got, failed, Told, answered, error, Remote, QuicFs, with_link, check_reconnect,
  flush_pending, flush_all_handles, cached_getattr, stat_replied, stat_seen, get_stat,
}

-- What the kernel is told of an answer of the server.
abbrev pub told_answer : Answer Stat → Told Stat
told_answer (got s) = answered s
told_answer (failed msg) =
    if contains msg "NotFound"
    then error (io_to_errno ErrorKind.not_found_kind)
    else error (io_to_errno ErrorKind.other)

module _ {conn : Conn} {lru : Lru Stat} (laws : LruLaws Stat lru) (cfg : CacheConfig)
    (remote : Remote conn) where
  stat_replied-told :
      (now : ℕ) (path : Name) (flush_ok : Bool) (fs : QuicFs conn lru) (a : Answer Stat)
      → ((stat_replied cfg now path flush_ok fs a).1 ≡ told_answer a)
        × ((stat_replied cfg now path flush_ok fs a).0.last_reconnect_gen ≡ fs.last_reconnect_gen)
  unfolding stat_replied
  stat_replied-told now path flush_ok fs (got s) = (refl, ground arith)
  stat_replied-told now path flush_ok fs (failed msg) = (ground arith, ground arith)

  cleared :
      (fs : QuicFs conn lru) (p : Name)
      → conn.reconnect_gen fs.mount.link ≢ fs.last_reconnect_gen
      → (lru.peek p (check_reconnect cfg fs).cache ≡ none)
        × ((check_reconnect cfg fs).last_reconnect_gen ≡ conn.reconnect_gen fs.mount.link)
  unfolding check_reconnect
  cleared fs p ne = (ground (arith, laws.clear_none p fs.cache, ne), ground (arith, ne))

  flush_pending_keeps :
      (fs : QuicFs conn lru)
      → ((flush_pending cfg fs).0.cache ≡ fs.cache)
        × ((flush_pending cfg fs).0.last_reconnect_gen ≡ fs.last_reconnect_gen)
  unfolding flush_pending flush_all_handles
  flush_pending_keeps fs = (ground arith, ground arith)

  missed :
      (now : ℕ) (path : Name) (fs : QuicFs conn lru)
      → lru.peek path fs.cache ≡ none
      → cached_getattr cfg now path fs ≡ (fs, none)
  unfolding cached_getattr get
  missed now path fs e = rw (e, get) refl

  get_stat_lem :
      (now : ℕ) (path : Name) (fs : QuicFs conn lru)
      → get_stat cfg remote now path fs
        ≡ stat_seen cfg remote now path
            (flush_pending cfg (check_reconnect cfg fs)).1
            (cached_getattr cfg now path (flush_pending cfg (check_reconnect cfg fs)).0)
  unfolding get_stat
  get_stat_lem now path fs = refl

  -- With nothing in the cache the server is asked.
  asked :
      (now : ℕ) (path : Name) (flush_ok : Bool) (fs : QuicFs conn lru)
      → let reply : conn.State × Answer Stat = remote.getattr path fs.mount.link in
        stat_seen cfg remote now path flush_ok (fs, none)
        ≡ stat_replied cfg now path flush_ok (with_link reply.0 fs) reply.1
  unfolding stat_seen
  asked now path flush_ok fs = refl

  -- If the connection was made anew since the cache was last looked at, then whatever the cache holds,
  -- a stat tells the kernel what the server answers now, and the new generation is noted.
  pub get_stat_reconnected :
      (now : ℕ) (path : Name) (fs : QuicFs conn lru)
      → conn.reconnect_gen fs.mount.link ≢ fs.last_reconnect_gen
      → (link : conn.State) × ((get_stat cfg remote now path fs).1
          ≡ told_answer (remote.getattr path link).1)
        × ((get_stat cfg remote now path fs).0.last_reconnect_gen
            ≡ conn.reconnect_gen fs.mount.link)
  get_stat_reconnected now path fs ne =
      let fs' : QuicFs conn lru = check_reconnect cfg fs in
      let flushed : QuicFs conn lru × Bool = flush_pending cfg fs' in
      let (empty, noted) = cleared fs path ne in
      let (same, kept) = flush_pending_keeps fs' in
      let reply : conn.State × Answer Stat = remote.getattr path flushed.0.mount.link in
      let (told, still) =
        stat_replied-told now path flushed.1 (with_link reply.0 flushed.0) reply.1 in
      rw
        (
          get_stat_lem now path fs,
          missed now path flushed.0 (ap (lru.peek path) same ∙ empty),
          asked now path flushed.1 flushed.0,
        )
        (flushed.0.mount.link, told, still ∙ (kept ∙ noted))
