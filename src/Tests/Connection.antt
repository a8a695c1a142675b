-- ===== src/Tests/Connection.antt =====
-- server/src/lib.rs and server/src/ops/ctrl.rs: a handshake and two requests.
use quicfs.Base.{
  ℕ, suc, ◌+◌, ◌≡◌, refl, ◌⊎◌, inl, inr, Bool, true, false, Option, none, some, List, [], ◌∷◌, ◌==◌,
  if◌then◌else◌, length,
}
use quicfs.Common.Status.{invalid_arg}
use quicfs.Common.Text.{codes}
use quicfs.Common.Trust.{cert_fingerprint}
use quicfs.Server.Admission.{ConnLimits}
use quicfs.Server.Auth.{AuthorizedKeysVerifier, verify_client_cert}
use quicfs.Server.Connection.{
  HandshakeRequest, HandshakeResponse, Codec, Handlers, extract_mtls_fingerprint, ClientSession,
  Served, handled, op_ping, unknown, handle_connection,
}
use quicfs.Server.Connection.Gate.{Trusts, Greeted, served_after_handshake}
use quicfs.Server.Sanitize.{Name}
use quicfs.Tests.Trust.{letters}

-- A frame is its operation and its number; the handshake asks for 64 KiB.
abbrev asked : HandshakeRequest
asked = record { seq = 1; features = []; chunk_size = 65536; auth_type = codes "mtls" }

abbrev envelope_of : List ℕ → Option quicfs.Server.Connection.Envelope
envelope_of (op ∷ seq ∷ body) = some (record { op = op; seq = seq })
envelope_of _ = none

abbrev pairs : Codec
pairs = record { envelope = envelope_of; handshake_request = λ raw. some asked }

abbrev counted : Handlers
counted = record { State = ℕ; handle = λ op raw n. n + 1 }

abbrev limits : ConnLimits
limits = record {
  max_open_handles = 8;
  rpc_timeout = 30000;
  sync_on_close = false;
  sync_metadata = false;
}

abbrev anyone : AuthorizedKeysVerifier
anyone = record { authorized = record { path = []; fingerprints = [] }; allow_any = true }

abbrev streams : List (Option (List ℕ))
streams = some (0xf0 ∷ 1 ∷ []) ∷ some (0xf1 ∷ 2 ∷ []) ∷ some (0x99 ∷ 3 ∷ []) ∷ []

abbrev ran : Option ClientSession × ℕ × List Served
ran =
    handle_connection pairs counted (codes "srv" ∷ []) [] limits (λ resp. true)
      (extract_mtls_fingerprint letters (some (0 ∷ []))) streams 0

one_handled : ran.2 ≡ handled op_ping ∷ unknown 0x99 3 invalid_arg ∷ []
unfolding handle_connection extract_mtls_fingerprint quicfs.Base.lookup
one_handled = refl

anyone_accepts : verify_client_cert anyone (cert_fingerprint letters 0) ≡ true
unfolding verify_client_cert cert_fingerprint
anyone_accepts = refl

served_after_handshake_example :
    (fp : Name) × (cert_fingerprint letters 0 ≡ some fp)
    × Trusts anyone fp
    × ((ran ≡ (none, 0, []))
        ⊎ ((session : ClientSession) × (ran.0 ≡ some session)
            × (session.identity.subject ≡ fp)
            × Greeted pairs streams
            × (suc (length ran.2) ≡ length streams)))
served_after_handshake_example =
    served_after_handshake pairs counted letters (codes "srv" ∷ []) [] limits (λ resp. true) anyone
      0 [] streams 0 anyone_accepts
