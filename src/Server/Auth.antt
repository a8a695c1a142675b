-- ===== src/Server/Auth.antt =====
-- server/src/verify.rs and server/src/auth.rs: which client keys the server accepts. The fingerprint of
-- a certificate, and whether the peer holds its key, are matters of the TLS library.
pub mod Listed
use quicfs.Base.{
  Bool, true, false, ◌&&◌, ◌||◌, not, Option, none, some, List, [], ◌∷◌, if◌then◌else◌,
}
use quicfs.Server.Sanitize.{Name, name_eq}
use quicfs.Common.Text.{trim, split_word, lines}
use quicfs.Common.Trust.{AuthorizedKeys, is_skipped, has_no_keys, contains_key}

pub record AuthorizedKeysVerifier : Type 0 where
  pub authorized : AuthorizedKeys
  pub allow_any : Bool

-- `verify_client_cert`, by the fingerprint of the certificate if it has one.
unfoldable pub verify_client_cert : AuthorizedKeysVerifier → Option Name → Bool
unfolding contains_key has_no_keys
verify_client_cert v none = false
verify_client_cert v (some fp) =
    if contains_key fp v.authorized then true else has_no_keys v.authorized && v.allow_any

-- A connection without a certificate is refused.
unfoldable pub client_auth_mandatory : Bool
client_auth_mandatory = true

pub record ClientIdentity : Type 0 where
  pub subject : Name

unfoldable pub from_mtls_fingerprint : Name → ClientIdentity
from_mtls_fingerprint fingerprint = record { subject = fingerprint }
