-- ===== src/Server/Connection/Gate.antt =====
-- server/src/lib.rs and server/src/ops/ctrl.rs: no RPC is served before a handshake, and none for a peer
-- whose key is not trusted.
use quicfs.Base.{
  ℕ, suc, ◌≤◌, ◌≡◌, refl, ap, ◌∙◌, ◌⊎◌, inl, inr, Bool, true, ◌&&◌, Option, none, some, List, [],
  ◌∷◌, ltb, ◌==◌, length, lookup, arith, Bool-cases, Option-cases,
}
use quicfs.Common.Text.{codes}
use quicfs.Common.Trust.{Crypto, cert_fingerprint, has_no_keys, contains_key}
use quicfs.Server.Admission.{ConnLimits}
use quicfs.Server.Auth.{
  AuthorizedKeysVerifier, verify_client_cert, ClientIdentity, from_mtls_fingerprint,
}
use quicfs.Server.Connection.{
  max_chunk_size, op_handshake, Envelope, HandshakeRequest, HandshakeResponse, Codec, op_table,
  Handlers, extract_mtls_fingerprint, or_unknown, greet, handle_handshake, ClientSession, new,
  Served, dispatch_inner, serve_streams, handle_connection,
}
use quicfs.Server.Sanitize.{Name, FilePath, name_eq}

module _ (codec : Codec) where
  -- The first stream carries a handshake with a scheme and a chunk size that the server accepts.
  abbrev pub Greeted : List (Option (List ℕ)) → Type 0
  Greeted streams =
      (raw : List ℕ) × (rest : List (Option (List ℕ))) × (env : Envelope) × (req : HandshakeRequest)
      × (streams ≡ some raw ∷ rest)
      × (codec.envelope raw ≡ some env)
      × (env.op ≡ op_handshake)
      × (codec.handshake_request raw ≡ some req)
      × (req.chunk_size ≤ max_chunk_size)
      × (name_eq req.auth_type (codes "mtls") ≡ true)

-- The verifier knows the key, or has no keys and takes any.
abbrev pub Trusts : AuthorizedKeysVerifier → Name → Type 0
Trusts v fp =
    (contains_key fp v.authorized ≡ true) ⊎ ((has_no_keys v.authorized && v.allow_any) ≡ true)

trusted :
    (v : AuthorizedKeysVerifier) (fingerprint : Option Name)
    → verify_client_cert v fingerprint ≡ true
    → (fp : Name) × (fingerprint ≡ some fp) × Trusts v fp
unfolding verify_client_cert
trusted v none h = absurd (cc)
trusted v (some fp) h = (fp, refl, ground (arith, h))

module _ (codec : Codec) (root : FilePath) (server_id : Name) where
  greet_accepts :
      (fingerprint : Option Name) (req : HandshakeRequest) (identity : ClientIdentity)
      → (greet codec root server_id fingerprint req).1 ≡ some identity
      → (req.chunk_size ≤ max_chunk_size)
        × (name_eq req.auth_type (codes "mtls") ≡ true)
        × (identity ≡ from_mtls_fingerprint (or_unknown fingerprint))
  unfolding greet
  greet_accepts fingerprint req identity h = elim (Bool-cases (ltb max_chunk_size req.chunk_size)) [
    | inl large ↦ absurd (cc (rw (large, greet) at h))
    | inr fits ↦ elim (Bool-cases (name_eq req.auth_type (codes "mtls"))) [
      | inr differs ↦ absurd (cc (rw (fits, differs, greet) at h))
      | inl same ↦ (ground (arith, fits), same, ground (arith, rw (fits, same, greet) at h))
    ]
  ]

  handshake_accepts :
      (delivers : HandshakeResponse → Bool) (fingerprint : Option Name) (first : Option (List ℕ))
      (rest : List (Option (List ℕ))) (identity : ClientIdentity)
      → handle_handshake codec root server_id delivers fingerprint first ≡ some identity
      → Greeted codec (first ∷ rest) × (identity ≡ from_mtls_fingerprint (or_unknown fingerprint))
  unfolding handle_handshake
  handshake_accepts delivers fingerprint none rest identity h = absurd (cc)
  handshake_accepts delivers fingerprint (some raw) rest identity h =
      elim (Option-cases (codec.envelope raw)) [
        | inl e ↦ absurd (cc (rw (e, handle_handshake) at h))
        | inr (env, e) ↦ elim (Bool-cases (env.op == op_handshake)) [
          | inr other ↦ absurd (cc (rw (e, other, handle_handshake) at h))
          | inl op ↦ elim (Option-cases (codec.handshake_request raw)) [
            | inl d ↦ absurd (cc (rw (e, op, d, handle_handshake) at h))
            | inr (req, d) ↦
                elim (Bool-cases (delivers (greet codec root server_id fingerprint req).0)) [
                  | inr lost ↦ absurd (cc (rw (e, op, d, lost, handle_handshake) at h))
                  | inl sent ↦
                      let (fits, mtls, same) =
                        greet_accepts fingerprint req identity
                          (rw (e, op, d, sent, handle_handshake) at h) in
                      ((raw, rest, env, req, refl, e, ground (arith, op), d, fits, mtls), same)
                ]
          ]
        ]
      ]

module _ (codec : Codec) (handlers : Handlers) where
  dispatch_keeps :
      (raw : Option (List ℕ)) (session : ClientSession) (s : handlers.State)
      → (dispatch_inner codec handlers raw (session, s)).0.0.identity ≡ session.identity
  unfolding dispatch_inner
  dispatch_keeps none session s = refl
  dispatch_keeps (some raw) session s = elim (Option-cases (codec.envelope raw)) [
    | inl e ↦ rw (e, dispatch_inner) refl
    | inr (env, e) ↦ elim (Option-cases (lookup env.op op_table)) [
      | inl f ↦ rw (e, f, dispatch_inner) refl
      | inr (op, f) ↦ rw (e, f, dispatch_inner) refl
    ]
  ]

  streams_keep :
      (streams : List (Option (List ℕ))) (session : ClientSession) (s : handlers.State)
      → ((serve_streams codec handlers streams (session, s)).0.0.identity ≡ session.identity)
        × (length (serve_streams codec handlers streams (session, s)).1 ≡ length streams)
  unfolding serve_streams
  streams_keep [] session s = (refl, refl)
  streams_keep (raw ∷ streams) session s =
      let once = dispatch_inner codec handlers raw (session, s) in
      let (kept, len) = streams_keep streams once.0.0 once.0.1 in
      (kept ∙ dispatch_keeps raw session s, ap suc len)

module _ (codec : Codec) (handlers : Handlers) (crypto : Crypto) (root : FilePath)
    (server_id : Name) (limits : ConnLimits) (delivers : HandshakeResponse → Bool) where
  -- If the verifier accepts the certificate of a peer, whatever the peer then sends, its key is one
  -- that the verifier knows, or the verifier has no keys and takes any; and either there is no session,
  -- no handler has run and nothing but the first stream was looked at, or the first stream carried a
  -- handshake request with the scheme `mtls` and a chunk size within the limit, the session's identity
  -- is the fingerprint of the certificate until the end, and every later stream was dealt with.
  pub served_after_handshake :
      (v : AuthorizedKeysVerifier) (cert : crypto.Cert) (certs : List crypto.Cert)
      (streams : List (Option (List ℕ))) (s : handlers.State)
      → verify_client_cert v (cert_fingerprint crypto cert) ≡ true
      → let r : Option ClientSession × handlers.State × List Served =
          handle_connection codec handlers root server_id limits delivers
            (extract_mtls_fingerprint crypto (some (cert ∷ certs)))
            streams
            s in
        (fp : Name) × (cert_fingerprint crypto cert ≡ some fp)
        × Trusts v fp
        × ((r ≡ (none, s, []))
            ⊎ ((session : ClientSession) × (r.0 ≡ some session)
                × (session.identity.subject ≡ fp)
                × Greeted codec streams
                × (suc (length r.2) ≡ length streams)))
  unfolding handle_connection extract_mtls_fingerprint new from_mtls_fingerprint
  served_after_handshake v cert certs [] s accepted =
      let (fp, e, t) = trusted v (cert_fingerprint crypto cert) accepted in (fp, e, t, inl refl)
  served_after_handshake v cert certs (first ∷ streams) s accepted =
      let (fp, e, t) = trusted v (cert_fingerprint crypto cert) accepted in
      let fingerprint : Option Name = cert_fingerprint crypto cert in
      elim (Option-cases (handle_handshake codec root server_id delivers fingerprint first)) [
        | inl refused ↦ (fp, e, t, inl (rw (refused, handle_connection) refl))
        | inr (identity, greeted) ↦
            let (first_lem, same) =
              handshake_accepts codec root server_id delivers fingerprint first streams identity
                greeted in
            let session : ClientSession = new identity limits in
            let (kept, len) = streams_keep codec handlers streams session s in
            rw (greeted, handle_connection)
              (
                fp,
                e,
                t,
                inr (
                  (serve_streams codec handlers streams (session, s)).0.0,
                  refl,
                  ap (λ (i : ClientIdentity). i.subject) (kept ∙ same) ∙ ap or_unknown e,
                  first_lem,
                  ap suc len,
                ),
              )
      ]
