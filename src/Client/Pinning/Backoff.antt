-- ===== src/Client/Pinning/Backoff.antt =====
-- client/src/conn.rs, `reconnect`: it goes on until an attempt succeeds, accepts the pinned key only,
-- and never pauses long.
use quicfs.Base.{
  ℕ, suc, zero, ◌+◌, ◌*◌, ◌%◌, ◌^◌, ◌≤◌, ◌<◌, min, ◌≡◌, refl, subst, ◌∙◌, ap, Bool, true, false,
  Option, none, some, List, All, length, arith, Bool-cases, Option-cases, inl, inr,
}
use quicfs.Server.Sanitize.{Name}
use quicfs.Server.Sanitize.Complete.{name_eq-eq}
use quicfs.Common.Trust.{Crypto, cert_fingerprint}
use quicfs.Client.WriteBuf.{word_mod}
use quicfs.Client.Pinning.{
  enforce, verify_server_cert, Quic, QuicLaws, Manager, pin_mode, establish, app_handshake, adopt,
  adopt_any, do_connect, pause, reconnect_loop, reconnect,
}

module _ {crypto : Crypto} {quic : Quic crypto} (laws : QuicLaws crypto quic) where
  -- The connection in use is to a peer with this key.
  abbrev pub Serves : Name → Manager crypto quic → Type 0
  Serves fp m =
      (c : quic.Conn) × (m.conn ≡ some c) × (cert_fingerprint crypto (quic.peer_cert c) ≡ some fp)

  enforced :
      (fp : Name) (cert : crypto.Cert) (sink : Option Name)
      → (verify_server_cert crypto (enforce fp) cert sink).1 ≡ true
      → cert_fingerprint crypto cert ≡ some fp
  unfolding verify_server_cert
  enforced fp cert sink e = elim (Option-cases (cert_fingerprint crypto cert)) [
    | inl z ↦ absurd (ground (arith, z, e))
    | inr (key, z) ↦ z ∙ ap some (name_eq-eq key fp (ground (arith, z, e)))
  ]

  -- With a pinned key, only a peer with that key is connected to.
  pub establish_pinned :
      (fp : Name) (m : Manager crypto quic) (c : quic.Conn)
      → m.expected_fp ≡ some fp
      → (establish m).1 ≡ some c
      → cert_fingerprint crypto (quic.peer_cert c) ≡ some fp
  unfolding establish
  establish_pinned fp m c e h = enforced fp (quic.peer_cert c) m.capture_sink (
      subst
        (λ (o : Option Name).
          (verify_server_cert crypto (pin_mode o) (quic.peer_cert c) m.capture_sink).1 ≡ true)
        e
        (laws.verified (verify_server_cert crypto (pin_mode m.expected_fp)) m.capture_sink m.net c
          h))

  establish_keeps : (m : Manager crypto quic) → (establish m).0.expected_fp ≡ m.expected_fp
  unfolding establish
  establish_keeps m = refl

  pub adopt_keeps :
      (m : Manager crypto quic) (c : quic.Conn)
      → ((adopt c m).0.expected_fp ≡ m.expected_fp)
        × ((adopt c m).0.reconnect_gen ≡ m.reconnect_gen)
  unfolding adopt app_handshake
  adopt_keeps m c = (ground arith, ground arith)

  pub adopt-Serves :
      (fp : Name) (m : Manager crypto quic) (c : quic.Conn)
      → cert_fingerprint crypto (quic.peer_cert c) ≡ some fp
      → (adopt c m).1 ≡ true
      → Serves fp (adopt c m).0
  unfolding adopt
  adopt-Serves fp m c k h = elim (Bool-cases (app_handshake c m).1) [
    | inl e ↦ rw (e, adopt) (c, refl, k)
    | inr e ↦ absurd (ground (arith, e, h))
  ]

  do_connect-none :
      (m : Manager crypto quic) → (establish m).1 ≡ none → do_connect m ≡ ((establish m).0, false)
  unfolding do_connect adopt_any
  do_connect-none m e = rw (e, do_connect, adopt_any) refl

  do_connect-some :
      (m : Manager crypto quic) (c : quic.Conn)
      → (establish m).1 ≡ some c
      → do_connect m ≡ adopt c (establish m).0
  unfolding do_connect adopt_any
  do_connect-some m c e = rw (e, do_connect, adopt_any) refl

  do_connect_keeps :
      (m : Manager crypto quic)
      → ((do_connect m).0.expected_fp ≡ m.expected_fp)
        × ((do_connect m).0.reconnect_gen ≡ m.reconnect_gen)
  unfolding establish
  do_connect_keeps m = elim (Option-cases (establish m).1) [
    | inl e ↦ rw (do_connect-none m e) (refl, refl)
    | inr (c, e) ↦ rw (do_connect-some m c e) (adopt_keeps (establish m).0 c)
  ]

  do_connect-Serves :
      (fp : Name) (m : Manager crypto quic)
      → m.expected_fp ≡ some fp
      → (do_connect m).1 ≡ true
      → Serves fp (do_connect m).0
  do_connect-Serves fp m e h = elim (Option-cases (establish m).1) [
    | inl f ↦ absurd (cc (do_connect-none m f))
    | inr (c, f) ↦
        let same : do_connect m ≡ adopt c (establish m).0 = do_connect-some m c f in
        rw same (
          adopt-Serves fp (establish m).0 c (establish_pinned fp m c e f)
            (subst (λ (r : Manager crypto quic × Bool). r.1 ≡ true) same h))
  ]

  -- The manager after so many attempts.
  unfoldable pub after : ℕ → Manager crypto quic → Manager crypto quic
  after zero m = m
  after (suc n) m = after n (do_connect m).0

pause_bounds :
    (delay attempt : ℕ)
    → 100 ≤ delay
    → delay ≤ 30000
    → (100 ≤ pause delay attempt) × (pause delay attempt ≤ 45000)
unfolding pause
pause_bounds delay attempt lo hi = grind arith

abbrev pub IsPause : ℕ → Type 0
IsPause p = (100 ≤ p) × (p ≤ 45000)

module _ {crypto : Crypto} {quic : Quic crypto} (laws : QuicLaws crypto quic) (fp : Name) where
  -- What a reconnection that succeeds gives: a connection to the pinned key, a new generation, pauses
  -- between a tenth of a second and 45 seconds, and one pause for each attempt that failed.
  abbrev pub Reconnected : ℕ → Manager crypto quic → Manager crypto quic × List ℕ × Bool → Type 0
  Reconnected n m r =
      (r.2 ≡ true)
      × Serves laws fp r.0
      × (r.0.expected_fp ≡ some fp)
      × (r.0.reconnect_gen ≡ (m.reconnect_gen + 1) % word_mod)
      × All IsPause r.1
      × (length r.1 ≤ n)

  reconnect_now :
      (n fuel delay attempt : ℕ) (m : Manager crypto quic)
      → m.expected_fp ≡ some fp
      → (do_connect m).1 ≡ true
      → Reconnected n m (reconnect_loop (suc fuel) delay attempt m)
  unfolding reconnect_loop
  reconnect_now n fuel delay attempt m e now =
      rw (now, reconnect_loop)
        (
          refl,
          do_connect-Serves laws fp m e now,
          (do_connect_keeps laws m).0 ∙ e,
          ap (λ (g : ℕ). (g + 1) % word_mod) (do_connect_keeps laws m).1,
          tt,
          omega arith,
        )

  reconnect_later :
      (n fuel delay attempt : ℕ) (m : Manager crypto quic)
      → 100 ≤ delay
      → delay ≤ 30000
      → (do_connect m).1 ≡ false
      → Reconnected n
          (do_connect m).0
          (reconnect_loop fuel (min (delay * 2) 30000) ((attempt + 1) % 2 ^ 32) (do_connect m).0)
      → Reconnected (suc n) m (reconnect_loop (suc fuel) delay attempt m)
  unfolding reconnect_loop
  reconnect_later n fuel delay attempt m lo hi failed r =
      rw (failed, reconnect_loop)
        (
          r.0,
          r.1,
          r.2,
          r.3 ∙ ap (λ (g : ℕ). (g + 1) % word_mod) (do_connect_keeps laws m).1,
          (pause_bounds delay ((attempt + 1) % 2 ^ 32) lo hi, r.4),
          omega (arith, r.5),
        )

  reconnect_loop_ends :
      (n fuel delay attempt : ℕ) (m : Manager crypto quic)
      → m.expected_fp ≡ some fp
      → 100 ≤ delay
      → delay ≤ 30000
      → (do_connect (after laws n m)).1 ≡ true
      → n < fuel
      → Reconnected n m (reconnect_loop fuel delay attempt m)
  unfolding after
  reconnect_loop_ends n zero delay attempt m e lo hi ok lt = absurd (omega arith)
  reconnect_loop_ends zero (suc fuel) delay attempt m e lo hi ok lt =
      reconnect_now zero fuel delay attempt m e ok
  reconnect_loop_ends (suc n) (suc fuel) delay attempt m e lo hi ok lt =
      elim (Bool-cases (do_connect m).1) [
        | inl now ↦ reconnect_now (suc n) fuel delay attempt m e now
        | inr later ↦ reconnect_later n fuel delay attempt m lo hi later (
            reconnect_loop_ends n fuel (min (delay * 2) 30000) ((attempt + 1) % 2 ^ 32)
              (do_connect m).0 ((do_connect_keeps laws m).0 ∙ e) (omega arith) (omega arith) ok
              (omega arith))
      ]

  -- If the attempt after so many others succeeds, a reconnection comes to an end: it is then
  -- connected, and to a peer with the pinned key only, which stays pinned; the generation has gone up
  -- by one; and it paused at most so many times, for between 100 and 45000 milliseconds each.
  pub reconnect_ends :
      (n fuel : ℕ) (m : Manager crypto quic)
      → m.expected_fp ≡ some fp
      → (do_connect (after laws n m)).1 ≡ true
      → n < fuel
      → Reconnected n m (reconnect fuel m)
  unfolding reconnect
  reconnect_ends n fuel m e ok lt =
      reconnect_loop_ends n fuel 100 0 m e (omega arith) (omega arith) ok lt
