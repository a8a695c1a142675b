-- ===== src/Client/Pinning/Trusted.antt =====
-- client/src/conn.rs, `connect`: a new mount is connected to the pinned key, or pins the key it saw.
use quicfs.Base.{
  ◌≡◌, ◌⊎◌, refl, sym, subst, ◌∙◌, ap, Bool, true, false, Option, none, some, List, arith,
  Bool-cases, Option-cases, inl, inr,
}
use quicfs.Server.Sanitize.{Name}
use quicfs.Common.Trust.{
  Crypto, cert_fingerprint, Disk, KnownHosts, load_hosts, save_hosts, get_host, insert_host,
}
use quicfs.Client.Pinning.{
  capture, verify_server_cert, TofuPolicy, decide_first_contact, Quic, QuicLaws, Manager, pin_mode,
  establish, adopt, finish, pin, first_contact, connected, connect,
}
use quicfs.Client.Pinning.Backoff.{Serves, establish_pinned, adopt-Serves, adopt_keeps}

captured :
    (crypto : Crypto) (cert : crypto.Cert) (sink : Option Name) (fp : Name)
    → (verify_server_cert crypto capture cert sink).1 ≡ true
    → (verify_server_cert crypto capture cert sink).0 ≡ some fp
    → cert_fingerprint crypto cert ≡ some fp
unfolding verify_server_cert
captured crypto cert sink fp e f = elim (Option-cases (cert_fingerprint crypto cert)) [
  | inl z ↦ absurd (ground (arith, z, e))
  | inr (key, z) ↦ ground (arith, z, f)
]

module _ {crypto : Crypto} {quic : Quic crypto} (laws : QuicLaws crypto quic) (disk : Disk)
    (host : Name) where
  -- What the mount may trust: the host was pinned to the key and the disk is as it was, or the host
  -- was unknown, the first contact was accepted, and the key was saved for the host.
  abbrev pub Trusted : Option Bool → KnownHosts → Name → disk.State → disk.State → Type 0
  Trusted accepted known fp d d' =
      ((get_host host known ≡ some fp) × (d' ≡ d))
      ⊎ ((get_host host known ≡ none)
          × (accepted ≡ some true)
          × (d' ≡ (save_hosts disk (insert_host host fp known) d).0)
          × ((save_hosts disk (insert_host host fp known) d).1 ≡ true))

  -- A success is connected to the key, which it goes on to require.
  abbrev pub Pins : Name → Manager crypto quic → Type 0
  Pins fp m = Serves laws fp m × (m.expected_fp ≡ some fp)

  establish_captured :
      (m : Manager crypto quic) (c : quic.Conn) (fp : Name)
      → m.expected_fp ≡ none
      → (establish m).1 ≡ some c
      → (establish m).0.capture_sink ≡ some fp
      → cert_fingerprint crypto (quic.peer_cert c) ≡ some fp
  unfolding establish
  establish_captured m c fp e h s =
      let mode : pin_mode m.expected_fp ≡ capture = ap pin_mode e in
      captured crypto (quic.peer_cert c) m.capture_sink fp
        (subst
          (λ (o : Option Name).
            (verify_server_cert crypto (pin_mode o) (quic.peer_cert c) m.capture_sink).1 ≡ true)
          e
          (laws.verified (verify_server_cert crypto (pin_mode m.expected_fp)) m.capture_sink m.net c
            h))
        (subst
          (λ (o : Option Name).
            (verify_server_cert crypto (pin_mode o) (quic.peer_cert c) m.capture_sink).0 ≡ some fp)
          e
          (sym (
              laws.recorded (verify_server_cert crypto (pin_mode m.expected_fp)) m.capture_sink
                m.net c h)
            ∙ s))

  finish-some :
      (r : Manager crypto quic × Bool) (m' : Manager crypto quic) (d d' : disk.State)
      → finish disk host d r ≡ (d', some m')
      → (r.1 ≡ true) × (r.0 ≡ m') × (d' ≡ d)
  unfolding finish
  finish-some (m, true) m' d d' h = (refl, cc, cc)
  finish-some (m, false) m' d d' h = absurd (cc)

  finish-adopt :
      (fp : Name) (m m' : Manager crypto quic) (c : quic.Conn) (d d' : disk.State)
      → cert_fingerprint crypto (quic.peer_cert c) ≡ some fp
      → m.expected_fp ≡ some fp
      → finish disk host d (adopt c m) ≡ (d', some m')
      → Pins fp m' × (d' ≡ d)
  finish-adopt fp m m' c d d' k e h =
      let (ok, same, disk_same) = finish-some (adopt c m) m' d d' h in
      (
        subst (Pins fp) same (adopt-Serves laws fp m c k ok, (adopt_keeps laws m c).0 ∙ e),
        disk_same,
      )

  pin-Trusted :
      (known : KnownHosts) (c : quic.Conn) (fp : Name) (d d' : disk.State)
      (m m' : Manager crypto quic)
      → cert_fingerprint crypto (quic.peer_cert c) ≡ some fp
      → get_host host known ≡ none
      → pin disk host known c fp d m ≡ (d', some m')
      → Pins fp m' × Trusted (some true) known fp d d'
  unfolding pin
  pin-Trusted known c fp d d' m m' k new h =
      elim (Bool-cases (save_hosts disk (insert_host host fp known) d).1) [
        | inr f ↦ absurd (ground (arith, f, h))
        | inl f ↦
            let (pins, same) =
              finish-adopt fp (record m { expected_fp = some fp; capture_sink = none }) m' c
                (save_hosts disk (insert_host host fp known) d).0 d' k refl
                (sym (pin_saved known c fp d m f) ∙ h) in
            (pins, inr (new, refl, same, f))
      ]
    where
      pin_saved :
          (known : KnownHosts) (c : quic.Conn) (fp : Name) (d : disk.State)
          (m : Manager crypto quic)
          → (save_hosts disk (insert_host host fp known) d).1 ≡ true
          → pin disk host known c fp d m
            ≡ finish disk host
                (save_hosts disk (insert_host host fp known) d).0
                (adopt c (record m { expected_fp = some fp; capture_sink = none }))
      pin_saved known c fp d m f = rw (f, pin) refl

  first_contact-Trusted :
      (accepted : Option Bool) (known : KnownHosts) (c : quic.Conn) (d d' : disk.State)
      (m m' : Manager crypto quic)
      → ((fp : Name)
          → m.capture_sink ≡ some fp
          → cert_fingerprint crypto (quic.peer_cert c) ≡ some fp)
      → get_host host known ≡ none
      → first_contact disk host accepted known c d m ≡ (d', some m')
      → (fp : Name) × Pins fp m' × Trusted accepted known fp d d'
  unfolding first_contact
  first_contact-Trusted none known c d d' m m' k new h = elim (Option-cases m.capture_sink) [
    | inl e ↦ absurd (ground (arith, e, h))
    | inr (fp, e) ↦ absurd (ground (arith, e, h))
  ]
  first_contact-Trusted (some false) known c d d' m m' k new h =
      elim (Option-cases m.capture_sink) [
        | inl e ↦ absurd (ground (arith, e, h))
        | inr (fp, e) ↦ absurd (ground (arith, e, h))
      ]
  first_contact-Trusted (some true) known c d d' m m' k new h = elim (Option-cases m.capture_sink) [
    | inl e ↦ absurd (ground (arith, e, h))
    | inr (fp, e) ↦
        let (pins, trusted) =
          pin-Trusted known c fp d d' m m' (k fp e) new (pinned known c fp d m e ∙ h) in
        (fp, pins, trusted)
  ]
    where
      pinned :
          (known : KnownHosts) (c : quic.Conn) (fp : Name) (d : disk.State)
          (m : Manager crypto quic)
          → m.capture_sink ≡ some fp
          → pin disk host known c fp d m ≡ first_contact disk host (some true) known c d m
      pinned known c fp d m e = rw (e, first_contact) refl

  establish_expects : (m : Manager crypto quic) → (establish m).0.expected_fp ≡ m.expected_fp
  unfolding establish
  establish_expects m = refl

  no_connection :
      (accepted : Option Bool) (known : KnownHosts) (d d' : disk.State)
      (r : Manager crypto quic × Option quic.Conn) (m' : Manager crypto quic)
      → r.1 ≡ none
      → connected disk host accepted known d r ≡ (d', some m')
      → ⊥
  unfolding connected
  no_connection accepted known d d' (m, none) m' e h = cc
  no_connection accepted known d d' (m, some c) m' e h = cc

  is_new :
      (accepted : Option Bool) (known : KnownHosts) (d : disk.State)
      (r : Manager crypto quic × Option quic.Conn) (c : quic.Conn)
      → r.1 ≡ some c
      → get_host host known ≡ none
      → connected disk host accepted known d r ≡ first_contact disk host accepted known c d r.0
  unfolding connected
  is_new accepted known d r c e f = rw (e, connected, f) refl

  is_old :
      (accepted : Option Bool) (known : KnownHosts) (d : disk.State)
      (r : Manager crypto quic × Option quic.Conn) (c : quic.Conn) (fp : Name)
      → r.1 ≡ some c
      → get_host host known ≡ some fp
      → connected disk host accepted known d r ≡ finish disk host d (adopt c r.0)
  unfolding connected
  is_old accepted known d r c fp e f = rw (e, connected, f) refl

  abbrev start : KnownHosts → quic.State → Manager crypto quic
  start known q = record {
    conn = none;
    expected_fp = get_host host known;
    capture_sink = none;
    reconnect_gen = 0;
    net = q;
  }

  not_loaded :
      (path : Name) (policy : TofuPolicy) (terminal : Bool) (input : List (Option Name))
      (d d' : disk.State) (q : quic.State) (m : Manager crypto quic)
      → load_hosts disk path d ≡ none
      → connect disk host path policy terminal input d q ≡ (d', some m)
      → ⊥
  unfolding connect
  not_loaded path policy terminal input d d' q m e h = ground (arith, e, h)

  is_loaded :
      (path : Name) (policy : TofuPolicy) (terminal : Bool) (input : List (Option Name))
      (d : disk.State) (q : quic.State) (known : KnownHosts)
      → load_hosts disk path d ≡ some known
      → connect disk host path policy terminal input d q
        ≡ connected disk host
            (decide_first_contact policy terminal input)
            known
            d
            (establish (start known q))
  unfolding connect
  is_loaded path policy terminal input d q known e = rw (e, connect) refl

  connected-Trusted :
      (accepted : Option Bool) (known : KnownHosts) (d d' : disk.State) (m m' : Manager crypto quic)
      → m.expected_fp ≡ get_host host known
      → connected disk host accepted known d (establish m) ≡ (d', some m')
      → (fp : Name) × Pins fp m' × Trusted accepted known fp d d'
  connected-Trusted accepted known d d' m m' expects h = elim (Option-cases (establish m).1) [
    | inl none_made ↦ absurd (no_connection accepted known d d' (establish m) m' none_made h)
    | inr (c, made) ↦ elim (Option-cases (get_host host known)) [
      | inl new ↦
          first_contact-Trusted accepted known c d d' (establish m).0 m'
            (λ fp s. establish_captured m c fp (expects ∙ new) made s) new
            (sym (is_new accepted known d (establish m) c made new) ∙ h)
      | inr (fp, old) ↦
          let (pins, same) =
            finish-adopt fp (establish m).0 m' c d d'
              (establish_pinned laws fp m c (expects ∙ old) made)
              (establish_expects m ∙ (expects ∙ old))
              (sym (is_old accepted known d (establish m) c fp made old) ∙ h) in
          (fp, pins, inl (old, same))
    ]
  ]

  -- Whoever the mount is connected to after `connect` holds the key that the mount goes on to require;
  -- and either the host was pinned to this key in `known_hosts`, and the disk is as it was, or the host
  -- was not in the file, the first contact was accepted by the policy or the user, and the key was
  -- saved for the host.
  pub connect-Trusted :
      (path : Name) (policy : TofuPolicy) (terminal : Bool) (input : List (Option Name))
      (d d' : disk.State) (q : quic.State) (m : Manager crypto quic)
      → connect disk host path policy terminal input d q ≡ (d', some m)
      → (known : KnownHosts) × (load_hosts disk path d ≡ some known)
        × (fp : Name) × Pins fp m
        × Trusted (decide_first_contact policy terminal input) known fp d d'
  connect-Trusted path policy terminal input d d' q m h =
      elim (Option-cases (load_hosts disk path d)) [
        | inl e ↦ absurd (not_loaded path policy terminal input d d' q m e h)
        | inr (known, e) ↦
            let (fp, pins, trusted) =
              connected-Trusted (decide_first_contact policy terminal input) known d d'
                (start known q) m refl
                (sym (is_loaded path policy terminal input d q known e) ∙ h) in
            (known, e, fp, pins, trusted)
      ]
