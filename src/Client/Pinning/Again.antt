-- ===== src/Client/Pinning/Again.antt =====
-- client/src/conn.rs, `connect`: trust on first use. What one mount pins, the next one requires.
use quicfs.Base.{
  ℕ, ◌≡◌, ◌≢◌, refl, subst, ◌∙◌, ap, Bool, false, Option, some, List, [], ◌++◌, arith, Option-cases,
  inl, inr,
}
use quicfs.Server.Sanitize.{Name}
use quicfs.Common.Text.{codes, begins_with, is_whitespace}
use quicfs.Common.Text.Lines.{IsWord}
use quicfs.Common.Trust.{
  Crypto, cert_fingerprint, fingerprint_of_spki, Disk, DiskLaws, KnownHosts, load_hosts, get_host,
  insert_host,
}
use quicfs.Common.Trust.Reload.{IsFingerprint}
use quicfs.Common.Trust.Saved.{pin_reloaded}
use quicfs.Client.Pinning.{TofuPolicy, decide_first_contact, Quic, QuicLaws, Manager, connect}
use quicfs.Client.Pinning.Backoff.{Serves}
use quicfs.Client.Pinning.Trusted.{Trusted, connect-Trusted}

-- Base64 has no white space.
abbrev pub DigestLaws : Crypto → Type 0
DigestLaws crypto = (key : List ℕ) → IsWord (crypto.encode_digest key)

-- `host:port`, without white space and not like a comment.
abbrev pub IsHost : Name → Type 0
IsHost host = IsWord host × (host ≢ []) × (begins_with b'#' host ≡ false)

prefix-IsWord : (w : Name) → IsWord w → IsWord (codes "SHA256:" ++ w)
unfolding is_whitespace
prefix-IsWord w h = (refl, (refl, (refl, (refl, (refl, (refl, (refl, h)))))))

cert_fingerprint-IsFingerprint :
    (crypto : Crypto) (cert : crypto.Cert) (fp : Name)
    → DigestLaws crypto
    → cert_fingerprint crypto cert ≡ some fp
    → IsFingerprint fp
unfolding cert_fingerprint fingerprint_of_spki
cert_fingerprint-IsFingerprint crypto cert fp digests e = elim (Option-cases (crypto.spki cert)) [
  | inl z ↦ absurd (ground (arith, z, e))
  | inr (key, z) ↦
      let same : fp ≡ codes "SHA256:" ++ crypto.encode_digest key = ground (arith, z, e) in
      rw same (prefix-IsWord (crypto.encode_digest key) (digests key), λ e. cc)
]

module _ {crypto : Crypto} {quic : Quic crypto} (laws : QuicLaws crypto quic)
    (digests : DigestLaws crypto) (disk : Disk) (disk_laws : DiskLaws disk) (host : Name)
    (host_ok : IsHost host) where
  -- After a mount the file has the key for the host.
  pinned_after :
      (path : Name) (d d' : disk.State) (known : KnownHosts) (accepted : Option Bool) (fp : Name)
      → load_hosts disk path d ≡ some known
      → IsFingerprint fp
      → Trusted laws disk host accepted known fp d d'
      → (known' : KnownHosts) × (load_hosts disk path d' ≡ some known')
        × (get_host host known' ≡ some fp)
  pinned_after path d d' known accepted fp e word (inl (old, same)) =
      (known, ap (load_hosts disk path) same ∙ e, old)
  pinned_after path d d' known accepted fp e word (inr (new, accept, same, saved)) =
      let (reloaded, found) =
        pin_reloaded disk disk_laws path d known host fp e (host_ok, word) saved in
      (insert_host host fp known, ap (load_hosts disk path) same ∙ reloaded, found)

  required :
      (known known' : KnownHosts) (accepted : Option Bool) (fp fp' : Name) (path : Name)
      (d d' : disk.State)
      → load_hosts disk path d ≡ some known
      → load_hosts disk path d ≡ some known'
      → get_host host known ≡ some fp
      → Trusted laws disk host accepted known' fp' d d'
      → (fp' ≡ fp) × (d' ≡ d)
  required known known' accepted fp fp' path d d' e e' g (inl (old, same)) =
      (cc (e, e', g, old), same)
  required known known' accepted fp fp' path d d' e e' g (inr (new, accept, same, saved)) =
      absurd (cc (e, e', g, new))

  -- Trust on first use: if a mount connects to a host, whether the host was known or not, then a later
  -- mount from the same `known_hosts`, with any policy and whatever the user types, connects to
  -- nobody but a holder of the same key, and leaves the disk as it is.
  pub connect_again :
      (path : Name) (policy policy' : TofuPolicy) (terminal terminal' : Bool)
      (input input' : List (Option Name)) (d d' d'' : disk.State) (q q' : quic.State)
      (m m' : Manager crypto quic)
      → connect disk host path policy terminal input d q ≡ (d', some m)
      → connect disk host path policy' terminal' input' d' q' ≡ (d'', some m')
      → (fp : Name) × Serves laws fp m × Serves laws fp m' × (d'' ≡ d')
  connect_again path policy policy' terminal terminal' input input' d d' d'' q q' m m' h h' =
      let (known, e, fp, pins, trusted) =
        connect-Trusted laws disk host path policy terminal input d d' q m h in
      let (known', e', fp', pins', trusted') =
        connect-Trusted laws disk host path policy' terminal' input' d' d'' q' m' h' in
      let (later, loaded, found) =
        pinned_after path d d' known (decide_first_contact policy terminal input) fp e
          (cert_fingerprint-IsFingerprint crypto (quic.peer_cert pins.0.0) fp digests pins.0.2)
          trusted in
      let (same, kept) =
        required later known' (decide_first_contact policy' terminal' input') fp fp' path d' d''
          loaded e' found trusted' in
      (fp, pins.0, subst (λ (k : Name). Serves laws k m') same pins'.0, kept)
