-- ===== src/Tests/Trust.antt =====
-- A disk in memory, and a server that takes connections after some that fail: pinned keys, authorized
-- keys and reconnections on them.
use quicfs.Base.{
  ℕ, zero, suc, ◌≡◌, ◌≢◌, refl, subst, ap, Bool, true, false, Option, none, some, List, [], ◌∷◌,
  ◌++◌, ◌==◌, not, ◌&&◌, ◌||◌, if◌then◌else◌, Bool-cases, inl, inr, arith,
}
use quicfs.Server.Sanitize.{Name, name_eq}
use quicfs.Server.Sanitize.Split.{name_eq_refl}
use quicfs.Common.Text.{codes, lines, is_whitespace, begins_with}
use quicfs.Common.Text.Lines.{IsWord}
use quicfs.Common.Trust.{
  Disk, DiskLaws, Crypto, KnownHosts, AuthorizedKeys, load_hosts, save_hosts, get_host, insert_host,
  load_keys,
}
use quicfs.Common.Trust.Reload.{IsPinned}
use quicfs.Common.Trust.Saved.{pin_reloaded}
use quicfs.Server.Auth.{verify_client_cert}
use quicfs.Server.Auth.Listed.{is_listed, any_key, verify_client_cert-listed}
use quicfs.Client.Pinning.{
  Quic, QuicLaws, Manager, accept_new, strict, connect, do_connect, reconnect,
}
use quicfs.Client.Pinning.Backoff.{Serves, after, Reconnected, reconnect_ends}
use quicfs.Client.Pinning.Again.{DigestLaws, connect_again}

abbrev is_there : Option Name → Bool
is_there none = false
is_there (some t) = true

memory_has : (p t : Name) (d : Name → Option Name) → (if name_eq p p then some t else d p) ≡ some t
memory_has p t d = rw (name_eq_refl p) refl

abbrev memory : Disk
memory = record {
  State = Name → Option Name;
  exists = λ p d. is_there (d p);
  read_to_string = λ p d. d p;
  create_dir_all = λ p d. (d, true);
  write = λ p t d. ((λ q. if name_eq p q then some t else d q), true);
  set_permissions = λ p mode d. d;
}

memory-DiskLaws : DiskLaws memory
memory-DiskLaws = record {
  write_exists = λ p t d h. ap is_there (memory_has p t d);
  write_read = λ p t d h. memory_has p t d;
  permissions_exists = λ p q mode d. refl;
  permissions_read = λ p mode d. refl;
}

abbrev hosts_file : Name
hosts_file = codes "/k"

abbrev one_host : Name → Option Name
one_host p = if name_eq hosts_file p then some (codes "h:1 SHA256:A" ++ 10 ∷ codes "# x") else none

abbrev one_known : KnownHosts
one_known = record { path = hosts_file; entries = (codes "h:1", codes "SHA256:A") ∷ [] }

one_host_loads : load_hosts memory hosts_file one_host ≡ some one_known
unfolding load_hosts
one_host_loads = refl

new_pin : IsPinned (codes "g:2", codes "SHA256:B")
unfolding is_whitespace
new_pin = (
  ((refl, (refl, (refl, tt))), λ e. cc, refl),
  ((refl, (refl, (refl, (refl, (refl, (refl, (refl, (refl, tt)))))))), λ e. cc),
)

saves :
    (save_hosts memory (insert_host (codes "g:2") (codes "SHA256:B") one_known) one_host).1 ≡ true
unfolding save_hosts insert_host
saves = refl

pin_reloaded_example :
    (load_hosts memory hosts_file
        (save_hosts memory (insert_host (codes "g:2") (codes "SHA256:B") one_known) one_host).0
      ≡ some (insert_host (codes "g:2") (codes "SHA256:B") one_known))
    × (get_host (codes "g:2") (insert_host (codes "g:2") (codes "SHA256:B") one_known)
        ≡ some (codes "SHA256:B"))
pin_reloaded_example =
    pin_reloaded memory memory-DiskLaws hosts_file one_host one_known (codes "g:2")
      (codes "SHA256:B") one_host_loads new_pin saves

abbrev keys_text : Name
keys_text = codes "# keys" ++ 10 ∷ codes " SHA256:A  alice"

abbrev keys_disk : Name → Option Name
keys_disk p = if name_eq hosts_file p then some keys_text else none

verify_client_cert-listed_example :
    (keys : AuthorizedKeys) × (load_keys memory hosts_file keys_disk ≡ some keys)
    × (verify_client_cert (record { authorized = keys; allow_any = true }) (some (codes "SHA256:A"))
        ≡ (is_listed (codes "SHA256:A") (lines keys_text)
            || (not (any_key (lines keys_text)) && true)))
    × (verify_client_cert (record { authorized = keys; allow_any = true }) none ≡ false)
verify_client_cert-listed_example =
    verify_client_cert-listed memory hosts_file keys_text (codes "SHA256:A") true keys_disk refl
      refl

listed_there : is_listed (codes "SHA256:A") (lines keys_text) ≡ true
unfolding is_listed lines quicfs.Common.Text.trim quicfs.Common.Text.split_word
listed_there = refl

abbrev first : List ℕ → ℕ
first [] = 0
first (k ∷ ks) = k

-- A certificate is the number of its key.
abbrev pub letters : Crypto
letters = record {
  Cert = ℕ;
  spki = λ key. some (key ∷ []);
  encode_digest = λ key. if first key == 0 then b'A' ∷ [] else b'B' ∷ [];
}

letters-DigestLaws : DigestLaws letters
unfolding is_whitespace
letters-DigestLaws key = elim (Bool-cases (first key == 0)) [
  | inl e ↦ rw e (refl, tt)
  | inr e ↦ rw e (refl, tt)
]

-- The state: how many handshakes fail, and the certificate.
abbrev shake :
    (ℕ → Option Name → Option Name × Bool) → Option Name → ℕ × ℕ → (ℕ × ℕ) × Option Name × Option ℕ
shake verify sink (suc n, cert) = ((n, cert), sink, none)
shake verify sink (zero, cert) =
    ((0, cert), (verify cert sink).0, if (verify cert sink).1 then some cert else none)

abbrev flaky : Quic letters
flaky = record {
  State = ℕ × ℕ;
  Conn = ℕ;
  peer_cert = λ c. c;
  handshake = shake;
  request = λ c q. (q, some 0);
}

shake-some :
    (verify : ℕ → Option Name → Option Name × Bool) (sink : Option Name) (q : ℕ × ℕ) (c : ℕ)
    → (shake verify sink q).2 ≡ some c
    → ((verify c sink).1 ≡ true) × ((shake verify sink q).1 ≡ (verify c sink).0)
shake-some verify sink (suc n, cert) c h = absurd (cc)
shake-some verify sink (zero, cert) c h = elim (Bool-cases (verify cert sink).1) [
  | inr e ↦ absurd (ground (arith, e, h))
  | inl e ↦
      let same : cert ≡ c = ground (arith, e, h) in
      (subst (λ (k : ℕ). (verify k sink).1 ≡ true) same e, ap (λ (k : ℕ). (verify k sink).0) same)
]

flaky-QuicLaws : QuicLaws letters flaky
flaky-QuicLaws = record {
  verified = λ verify sink q c h. (shake-some verify sink q c h).0;
  recorded = λ verify sink q c h. (shake-some verify sink q c h).1;
}

abbrev host : Name
host = codes "h:1"

abbrev fresh : Option Name → ℕ × ℕ → Manager letters flaky
fresh fp q = record {
  conn = none;
  expected_fp = fp;
  capture_sink = none;
  reconnect_gen = 0;
  net = q;
}

abbrev empty_disk : Name → Option Name
empty_disk p = none

abbrev pinned_disk : Name → Option Name
pinned_disk =
    (connect {quic = flaky} memory host hosts_file accept_new false [] empty_disk (0, 0)).0

abbrev pinned_manager : Manager letters flaky
pinned_manager = record (fresh (some (codes "SHA256:A")) (0, 0)) { conn = some 0 }

first_mount :
    connect {quic = flaky} memory host hosts_file accept_new false [] empty_disk (0, 0)
    ≡ (pinned_disk, some pinned_manager)
unfolding connect
first_mount = refl

second_mount :
    connect {quic = flaky} memory host hosts_file strict false [] pinned_disk (0, 0)
    ≡ (pinned_disk, some pinned_manager)
unfolding connect
second_mount = refl

-- The pinned host with another key is not connected to.
impostor :
    (connect {quic = flaky} memory host hosts_file accept_new true [] pinned_disk (0, 1)).1 ≡ none
unfolding connect
impostor = refl

host_ok : (IsWord host) × (host ≢ []) × (begins_with b'#' host ≡ false)
unfolding is_whitespace
host_ok = ((refl, (refl, (refl, tt))), λ e. cc, refl)

connect_again_example :
    (fp : Name) × Serves flaky-QuicLaws fp pinned_manager
    × Serves flaky-QuicLaws fp pinned_manager
    × (◌≡◌ {A = Name → Option Name} pinned_disk pinned_disk)
connect_again_example =
    connect_again flaky-QuicLaws letters-DigestLaws memory memory-DiskLaws host host_ok hosts_file
      accept_new strict false false [] [] empty_disk pinned_disk pinned_disk (0, 0) (0, 0)
      pinned_manager pinned_manager first_mount second_mount

third_works :
    (do_connect (after flaky-QuicLaws 2 (fresh (some (codes "SHA256:A")) (2, 0)))).1 ≡ true
unfolding do_connect after
third_works = refl

reconnect_ends_example :
    Reconnected flaky-QuicLaws
      (codes "SHA256:A")
      2
      (fresh (some (codes "SHA256:A")) (2, 0))
      (reconnect 5 (fresh (some (codes "SHA256:A")) (2, 0)))
reconnect_ends_example =
    reconnect_ends flaky-QuicLaws (codes "SHA256:A") 2 5 (fresh (some (codes "SHA256:A")) (2, 0))
      refl third_works (omega arith)

two_pauses :
    (reconnect {quic = flaky} 5 (fresh (some (codes "SHA256:A")) (2, 0))).1 ≡ 125 ∷ 300 ∷ []
unfolding reconnect
two_pauses = refl
