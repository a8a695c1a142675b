-- ===== src/Client/Pinning.antt =====
-- client/src/verify.rs, and of client/src/conn.rs `connect`, `establish`, `app_handshake`, `reconnect`,
-- `do_connect` and the questions at a first contact. QUIC with TLS is an interface: a handshake asks
-- the verifier about the certificate of the peer. The client's own certificate and the address are
-- part of its state. What the user types is a list of lines, `none` for an error of the input.
pub mod Trusted
pub mod Backoff
pub mod Again
use quicfs.Base.{
  ℕ, suc, zero, ◌+◌, ◌*◌, ◌/◌, ◌%◌, ◌^◌, min, ◌≡◌, Bool, true, false, Option, none, some, List, [],
  ◌∷◌, ◌==◌, if◌then◌else◌,
}
use quicfs.Server.Sanitize.{Name, name_eq}
use quicfs.Common.Text.{codes, trim}
use quicfs.Common.Trust.{
  Crypto, cert_fingerprint, Disk, KnownHosts, load_hosts, save_hosts, get_host, insert_host,
}
use quicfs.Client.WriteBuf.{word_mod}

-- Accept any key and record its fingerprint, or require one.
pub data PinMode : Type 0 where
  capture : PinMode
  enforce : Name → PinMode

pub data TofuPolicy : Type 0 where
  strict accept_new prompt : TofuPolicy

-- The fingerprint that a verifier recorded, and whether it accepts the certificate.
unfoldable pub verify_server_cert :
    (crypto : Crypto) → PinMode → crypto.Cert → Option Name → Option Name × Bool
unfolding cert_fingerprint
verify_server_cert crypto mode cert sink = elim (cert_fingerprint crypto cert) [
  | none ↦ (sink, false)
  | some fp ↦ elim mode [
    | capture ↦ (some fp, true)
    | enforce expected ↦ (sink, name_eq fp expected)
  ]
]

-- `handshake` is given the verifier and what it recorded so far; `request` sends the handshake request
-- of the application and gives the status of the response, or `none` for an error or the deadline.
pub record Quic (crypto : Crypto) : Type 1 where
  pub State : Type 0
  pub Conn : Type 0
  pub peer_cert : Conn → crypto.Cert
  pub handshake :
      (crypto.Cert → Option Name → Option Name × Bool)
      → Option Name
      → State
      → State × Option Name × Option Conn
  pub request : Conn → State → State × Option ℕ

-- A connection is made only if the verifier has accepted the certificate of the peer.
pub record QuicLaws (crypto : Crypto) (quic : Quic crypto) : Type 0 where
  pub verified :
      (verify : crypto.Cert → Option Name → Option Name × Bool) (sink : Option Name)
      (q : quic.State) (c : quic.Conn)
      → (quic.handshake verify sink q).2 ≡ some c
      → (verify (quic.peer_cert c) sink).1 ≡ true
  pub recorded :
      (verify : crypto.Cert → Option Name → Option Name × Bool) (sink : Option Name)
      (q : quic.State) (c : quic.Conn)
      → (quic.handshake verify sink q).2 ≡ some c
      → (quic.handshake verify sink q).1 ≡ (verify (quic.peer_cert c) sink).0

-- `yes` or `no`, or the question again.
unfoldable pub prompt_yes_no : List (Option Name) → Option Bool
unfolding trim
prompt_yes_no [] = some false
prompt_yes_no (none ∷ input) = none
prompt_yes_no (some line ∷ input) =
    let again : Option Bool = prompt_yes_no input in
    if name_eq (trim line) (codes "yes")
    then some true
    else if name_eq (trim line) (codes "no")
    then some false
    else again

unfoldable pub decide_first_contact : TofuPolicy → Bool → List (Option Name) → Option Bool
unfolding prompt_yes_no
decide_first_contact strict terminal input = some false
decide_first_contact accept_new terminal input = some true
decide_first_contact prompt terminal input = if terminal then prompt_yes_no input else some false

module _ (crypto : Crypto) (quic : Quic crypto) where
  -- `Inner`, with the state of the network.
  pub record Manager : Type 0 where
    pub conn : Option quic.Conn
    pub expected_fp : Option Name
    pub capture_sink : Option Name
    pub reconnect_gen : ℕ
    pub net : quic.State

abbrev pub pin_mode : Option Name → PinMode
pin_mode none = capture
pin_mode (some fp) = enforce fp

abbrev pub is_ok : Option ℕ → Bool
is_ok none = false
is_ok (some status) = status == 0

-- The pause after a failed attempt, in milliseconds.
unfoldable pub pause : ℕ → ℕ → ℕ
pause delay attempt = delay + delay / 4 * (attempt % 3)

module _ {crypto : Crypto} {quic : Quic crypto} where
  unfoldable pub establish : Manager crypto quic → Manager crypto quic × Option quic.Conn
  unfolding verify_server_cert
  establish m =
      let done : quic.State × Option Name × Option quic.Conn =
        quic.handshake (verify_server_cert crypto (pin_mode m.expected_fp)) m.capture_sink m.net in
      (record m { capture_sink = done.1; net = done.0 }, done.2)

  unfoldable pub app_handshake : quic.Conn → Manager crypto quic → Manager crypto quic × Bool
  app_handshake c m = (record m { net = (quic.request c m.net).0 }, is_ok (quic.request c m.net).1)

  -- The handshake of the application on a connection, which is kept if it succeeds.
  unfoldable pub adopt : quic.Conn → Manager crypto quic → Manager crypto quic × Bool
  unfolding app_handshake
  adopt c m =
      if (app_handshake c m).1
      then (record (app_handshake c m).0 { conn = some c }, true)
      else ((app_handshake c m).0, false)

  unfoldable pub adopt_any : Manager crypto quic × Option quic.Conn → Manager crypto quic × Bool
  unfolding adopt
  adopt_any (m, none) = (m, false)
  adopt_any (m, some c) = adopt c m

  unfoldable pub do_connect : Manager crypto quic → Manager crypto quic × Bool
  unfolding establish adopt_any
  do_connect m = adopt_any (establish m)

  -- The loop, for so many attempts: the pauses, and whether a connection was made.
  unfoldable pub reconnect_loop :
      ℕ → ℕ → ℕ → Manager crypto quic → Manager crypto quic × List ℕ × Bool
  unfolding do_connect pause
  reconnect_loop zero delay attempt m = (m, [], false)
  reconnect_loop (suc fuel) delay attempt m =
      let count : ℕ = (attempt + 1) % 2 ^ 32 in
      elim (do_connect m).1 [
        | true ↦ (
          record (do_connect m).0 {
            reconnect_gen = ((do_connect m).0.reconnect_gen + 1) % word_mod;
          },
          [],
          true,
        )
        | false ↦
            let rest : Manager crypto quic × List ℕ × Bool =
              reconnect_loop fuel (min (delay * 2) 30000) count (do_connect m).0 in
            (rest.0, pause delay count ∷ rest.1, rest.2)
      ]

  unfoldable pub reconnect : ℕ → Manager crypto quic → Manager crypto quic × List ℕ × Bool
  unfolding reconnect_loop
  reconnect fuel m = reconnect_loop fuel 100 0 m

  module _ (disk : Disk) (host : Name) where
    -- The end of `connect`.
    unfoldable pub finish :
        disk.State → Manager crypto quic × Bool → disk.State × Option (Manager crypto quic)
    finish d (m, true) = (d, some m)
    finish d (m, false) = (d, none)

    -- The key that was captured is pinned, and saved before the connection is used.
    unfoldable pub pin :
        KnownHosts
        → quic.Conn
        → Name
        → disk.State
        → Manager crypto quic
        → disk.State × Option (Manager crypto quic)
    unfolding insert_host save_hosts finish adopt
    pin known c captured d m =
        if (save_hosts disk (insert_host host captured known) d).1
        then finish (save_hosts disk (insert_host host captured known) d).0
            (adopt c (record m { expected_fp = some captured; capture_sink = none }))
        else ((save_hosts disk (insert_host host captured known) d).0, none)

    unfoldable pub first_contact :
        Option Bool
        → KnownHosts
        → quic.Conn
        → disk.State
        → Manager crypto quic
        → disk.State × Option (Manager crypto quic)
    unfolding pin
    first_contact accepted known c d m = elim m.capture_sink [
      | none ↦ (d, none)
      | some captured ↦ elim accepted [
        | none ↦ (d, none)
        | some false ↦ (d, none)
        | some true ↦ pin known c captured d m
      ]
    ]

    unfoldable pub connected :
        Option Bool
        → KnownHosts
        → disk.State
        → Manager crypto quic × Option quic.Conn
        → disk.State × Option (Manager crypto quic)
    unfolding get_host finish adopt first_contact
    connected accepted known d (m, none) = (d, none)
    connected accepted known d (m, some c) = elim (get_host host known) [
      | some fp ↦ finish d (adopt c m)
      | none ↦ first_contact accepted known c d m
    ]

    unfoldable pub connect :
        Name
        → TofuPolicy
        → Bool
        → List (Option Name)
        → disk.State
        → quic.State
        → disk.State × Option (Manager crypto quic)
    unfolding load_hosts get_host establish connected decide_first_contact
    connect path policy terminal input d q = elim (load_hosts disk path d) [
      | none ↦ (d, none)
      | some known ↦ connected (decide_first_contact policy terminal input) known d (
          establish (record {
            conn = none;
            expected_fp = get_host host known;
            capture_sink = none;
            reconnect_gen = 0;
            net = q;
          }))
    ]
