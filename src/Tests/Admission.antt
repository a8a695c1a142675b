-- ===== src/Tests/Admission.antt =====
-- server/src/main.rs and server/src/config.rs: a small configuration and some connections.
use quicfs.Base.{
  ℕ, ◌≤◌, ◌≡◌, refl, ◌⊎◌, Bool, true, false, ◌&&◌, none, some, List, [], ◌∷◌, ltb, length, arith,
}
use quicfs.Common.Text.{codes}
use quicfs.Server.Admission.{
  Config, ConfigError, short_idle, validate, Admission, no_connections, accept, Event, arrives,
  ends, accept_loop,
}
use quicfs.Server.Admission.Limits.{count, below_cap, served_within}

abbrev two_each : Config
two_each = record {
  max_clients = 3;
  max_conns_per_ip = 2;
  max_open_handles = 8192;
  rpc_timeout_ms = 30000;
  idle_timeout_ms = 300000;
  keep_alive_interval_ms = 15000;
  export_root = codes "/srv";
  listen = codes "[::]:4433";
  log_level = codes "info";
  sync_on_close = false;
  sync_metadata = false;
}

two_each_valid : validate two_each ≡ none
unfolding validate quicfs.Server.Admission.is_level
two_each_valid = refl

idle_too_short : validate (record two_each { idle_timeout_ms = 14999 }) ≡ some short_idle
unfolding validate
idle_too_short = refl

abbrev busy : List Event
busy = arrives 7 ∷ arrives 7 ∷ arrives 7 ∷ arrives 9 ∷ ends 1 ∷ []

third_refused :
    (accept 2 7 (accept_loop 2 (arrives 7 ∷ arrives 7 ∷ []) (no_connections two_each))).1 ≡ false
unfolding accept accept_loop no_connections quicfs.Base.lookup quicfs.Base.insert
third_refused = refl

served_within_example :
    let s : Admission = accept_loop 2 busy (no_connections two_each) in
    (length s.live ≤ 3)
    × ((ip : ℕ) → (two_each.max_conns_per_ip ≡ 0) ⊎ (count ip s.live ≤ 2))
    × ((ip : ℕ) → (accept 2 ip s).1 ≡ (ltb (length s.live) 3 && below_cap 2 (count ip s.live)))
served_within_example = served_within two_each busy (omega arith) two_each_valid
