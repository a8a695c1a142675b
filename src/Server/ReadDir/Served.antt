-- ===== src/Server/ReadDir/Served.antt =====
-- server/src/ops/meta.rs, `handle_readdir` as a program: the one call that it makes is `read_dir`, by the
-- path that was resolved.
use quicfs.Base.{◌≡◌, refl, [], true, inl, inr}
use quicfs.Common.Status.{ErrorKind, permission}
use quicfs.Server.Meta.Steps.{Result-cases}
use quicfs.Server.Os.{read_dir, Reply, Prog, done, call}
use quicfs.Server.Os.Run.{Machine, run}
use quicfs.Server.ReadDir.{Listing, ReadDirRequest, ReadDirResponse, page_response, handle_readdir}
use quicfs.Server.Sanitize.{FilePath, Fs, resolve}

abbrev pub as_listing : Reply → Listing
as_listing (Reply.listing l) = l
as_listing (Reply.failed k) = Listing.failed k
as_listing _ = Listing.failed ErrorKind.other

unfoldable pub serve_readdir : Fs → FilePath → ReadDirRequest → Prog ReadDirResponse
unfolding resolve page_response
serve_readdir fs root req = elim (resolve fs root req.path) [
  | quicfs.Server.Sanitize.Result.ok resolved ↦
      call (read_dir resolved) (λ r. done (page_response req (as_listing r)))
  | quicfs.Server.Sanitize.Result.err e ↦
      done (record { seq = req.seq; status = permission; entries = []; cursor = 0; eof = true })
]

-- The program gives the page of what the call finds.
pub run-serve_readdir :
    (machine : Machine) (fs : Fs) (root : FilePath) (req : ReadDirRequest) (s : machine.State)
    → (run machine (serve_readdir fs root req) s).1
      ≡ handle_readdir fs root (λ p. as_listing (machine.reply (read_dir p) s).1) req
unfolding serve_readdir handle_readdir run
run-serve_readdir machine fs root req s = elim (Result-cases (resolve fs root req.path)) [
  | inl (e, z) ↦ rw (z, serve_readdir, handle_readdir) refl
  | inr (p, z) ↦ rw (z, serve_readdir, handle_readdir) refl
]
