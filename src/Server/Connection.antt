-- ===== src/Server/Connection.antt =====
-- server/src/ops/ctrl.rs, server/src/dispatch.rs, server/src/session.rs and `handle_connection` of
-- server/src/lib.rs: a connection from its first stream to the RPCs. The decoders of MessagePack and
-- the handlers of the RPCs are interfaces. What a stream carries is its first frame, `none` if none can
-- be read; the streams are served one after the other, and no deadline strikes but that of the
-- handshake, which is a stream that is not there.
pub mod Gate
use quicfs.Base.{
  ℕ, ◌+◌, ◌*◌, ◌%◌, ◌^◌, min, Bool, true, false, ◌||◌, not, Option, none, some, List, [], ◌∷◌, ltb,
  ◌==◌, if◌then◌else◌, length, Map, lookup,
}
use quicfs.Common.Status.{Status, invalid_arg, permission}
use quicfs.Common.Text.{codes}
use quicfs.Common.Trust.{Crypto, cert_fingerprint}
use quicfs.Server.Admission.{ConnLimits}
use quicfs.Server.Auth.{ClientIdentity, from_mtls_fingerprint}
use quicfs.Server.Confined.{split_last}
use quicfs.Server.Sanitize.{Name, FilePath, name_eq, dot_dot}

abbrev pub max_chunk_size : ℕ
max_chunk_size = 4 * 1024 * 1024

abbrev pub op_handshake : ℕ
op_handshake = 0xf0

pub record Envelope : Type 0 where
  pub op : ℕ
  pub seq : ℕ

pub record HandshakeRequest : Type 0 where
  pub seq : ℕ
  pub features : List Name
  pub chunk_size : ℕ
  pub auth_type : Name

pub record HandshakeResponse : Type 0 where
  pub seq : ℕ
  pub status : Status
  pub features : List Name
  pub chunk_size : ℕ
  pub server_id : Name
  pub export_root : Name

-- `decode`
pub record Codec : Type 0 where
  pub envelope : List ℕ → Option Envelope
  pub handshake_request : List ℕ → Option HandshakeRequest

pub data Op : Type 0 where
  op_ping op_get_attr op_set_attr op_read_dir op_mkdir op_rmdir op_unlink op_rename op_symlink : Op
  op_readlink op_link op_stat_fs op_open op_release op_read op_write op_create op_fsync : Op

-- The operations that `dispatch_inner` knows.
abbrev pub op_table : Map Op
op_table =
    (0xf1, op_ping)
    ∷ (0x01, op_get_attr)
    ∷ (0x02, op_set_attr)
    ∷ (0x03, op_read_dir)
    ∷ (0x04, op_mkdir)
    ∷ (0x05, op_rmdir)
    ∷ (0x06, op_unlink)
    ∷ (0x07, op_rename)
    ∷ (0x08, op_symlink)
    ∷ (0x09, op_readlink)
    ∷ (0x0a, op_link)
    ∷ (0x0b, op_stat_fs)
    ∷ (0x10, op_open)
    ∷ (0x11, op_release)
    ∷ (0x20, op_read)
    ∷ (0x21, op_write)
    ∷ (0x12, op_create)
    ∷ (0x22, op_fsync)
    ∷ []

-- The handlers, on their own state.
pub record Handlers : Type 1 where
  pub State : Type 0
  pub handle : Op → List ℕ → State → State

abbrev pub any : (Name → Bool) → List Name → Bool
any test [] = false
any test (x ∷ xs) = test x || any test xs

-- `supported_features()`
abbrev pub supported_features : List Name
supported_features = []

-- `filter(|f| supported.contains(f))`
unfoldable pub negotiated : List Name → List Name
negotiated [] = []
negotiated (f ∷ fs) =
    let rest = negotiated fs in if any (name_eq f) supported_features then f ∷ rest else rest

-- `file_name()` of a path, or "export".
unfoldable pub export_name : FilePath → Name
unfolding split_last
export_name root = elim (split_last root) [
  | none ↦ codes "export"
  | some (dir, name) ↦ if name_eq name dot_dot then codes "export" else name
]

unfoldable pub handshake_error : ℕ → Status → HandshakeResponse
handshake_error seq status = record {
  seq = seq;
  status = status;
  features = [];
  chunk_size = 0;
  server_id = [];
  export_root = [];
}

-- `extract_mtls_fingerprint`, by the certificates of the peer.
unfoldable pub extract_mtls_fingerprint :
    (crypto : Crypto) → Option (List crypto.Cert) → Option Name
unfolding cert_fingerprint
extract_mtls_fingerprint crypto none = none
extract_mtls_fingerprint crypto (some []) = none
extract_mtls_fingerprint crypto (some (cert ∷ certs)) = cert_fingerprint crypto cert

abbrev pub or_unknown : Option Name → Name
or_unknown none = codes "unknown"
or_unknown (some fp) = fp

module _ (codec : Codec) (root : FilePath) (server_id : Name) where
  -- The response to a request that is well formed, and the identity if it is accepted.
  unfoldable pub greet : Option Name → HandshakeRequest → HandshakeResponse × Option ClientIdentity
  unfolding negotiated export_name handshake_error from_mtls_fingerprint
  greet fingerprint req =
      if ltb max_chunk_size req.chunk_size
      then (handshake_error req.seq invalid_arg, none)
      else if not (name_eq req.auth_type (codes "mtls"))
      then (handshake_error req.seq permission, none)
      else (
        record {
          seq = req.seq;
          status = Status.ok;
          features = negotiated req.features;
          chunk_size = min req.chunk_size max_chunk_size;
          server_id = server_id;
          export_root = export_name root;
        },
        some (from_mtls_fingerprint (or_unknown fingerprint)),
      )

  -- `delivers` tells whether a response can be written to the stream.
  unfoldable pub handle_handshake :
      (HandshakeResponse → Bool) → Option Name → Option (List ℕ) → Option ClientIdentity
  unfolding greet
  handle_handshake delivers fingerprint none = none
  handle_handshake delivers fingerprint (some raw) = elim (codec.envelope raw) [
    | none ↦ none
    | some env ↦ if not (env.op == op_handshake) then none else elim (codec.handshake_request raw) [
      | none ↦ none
      | some req ↦ if delivers (greet fingerprint req).0 then (greet fingerprint req).1 else none
    ]
  ]

pub record ClientSession : Type 0 where
  pub identity : ClientIdentity
  pub features : List Name
  pub max_handles : ℕ
  pub rx_bytes : ℕ
  pub sync_on_close : Bool
  pub sync_metadata : Bool

-- `ClientSession::new` with the limits of the server
unfoldable pub new : ClientIdentity → ConnLimits → ClientSession
new identity limits = record {
  identity = identity;
  features = [];
  max_handles = limits.max_open_handles;
  rx_bytes = 0;
  sync_on_close = limits.sync_on_close;
  sync_metadata = limits.sync_metadata;
}

unfoldable pub record_rx : ℕ → ClientSession → ClientSession
record_rx n session = record session { rx_bytes = (session.rx_bytes + n) % 2 ^ 64 }

-- What became of a stream: an error, a handler's, or the response to an operation that is unknown.
pub data Served : Type 0 where
  stream_error : Served
  handled : Op → Served
  unknown : ℕ → ℕ → Status → Served

module _ (codec : Codec) (handlers : Handlers) where
  unfoldable pub dispatch_inner :
      Option (List ℕ) → ClientSession × handlers.State → (ClientSession × handlers.State) × Served
  unfolding record_rx
  dispatch_inner none (session, s) = ((session, s), stream_error)
  dispatch_inner (some raw) (session, s) =
      let session' : ClientSession = record_rx (length raw) session in
      elim (codec.envelope raw) [
        | none ↦ ((session', s), stream_error)
        | some env ↦ elim (lookup env.op op_table) [
          | some op ↦ ((session', handlers.handle op raw s), handled op)
          | none ↦ ((session', s), unknown env.op env.seq invalid_arg)
        ]
      ]

  -- The loop over the streams that the peer opens.
  unfoldable pub serve_streams :
      List (Option (List ℕ))
      → ClientSession × handlers.State
      → (ClientSession × handlers.State) × List Served
  unfolding dispatch_inner
  serve_streams [] state = (state, [])
  serve_streams (raw ∷ streams) state =
      let once = dispatch_inner raw state in
      let rest = serve_streams streams once.0 in (rest.0, once.1 ∷ rest.1)

  -- The streams of a connection whose peer has shown these certificates: the session at the end if
  -- there was one, the state of the handlers, and what became of the streams after the first.
  unfoldable pub handle_connection :
      FilePath
      → Name
      → ConnLimits
      → (HandshakeResponse → Bool)
      → Option Name
      → List (Option (List ℕ))
      → handlers.State
      → Option ClientSession × handlers.State × List Served
  unfolding handle_handshake new serve_streams
  handle_connection root server_id limits delivers fingerprint [] s = (none, s, [])
  handle_connection root server_id limits delivers fingerprint (first ∷ streams) s =
      elim (handle_handshake codec root server_id delivers fingerprint first) [
        | none ↦ (none, s, [])
        | some identity ↦
            let ended = serve_streams streams (new identity limits, s) in
            (some ended.0.0, ended.0.1, ended.1)
      ]
