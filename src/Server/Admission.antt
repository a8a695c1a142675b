-- ===== src/Server/Admission.antt =====
-- server/src/main.rs: which connections the accept loop lets in, with the permits of the semaphore and
-- the counts by address, and server/src/config.rs with the limits that go into it. A task that drives
-- a connection is its address in the list of those that live; when it ends, its permit and its `IpSlot`
-- are dropped. An address is a number, and the TOML parser gives the values of a configuration.
pub mod Limits
use quicfs.Base.{
  ℕ, zero, suc, ◌+◌, ◌-◌, ◌%◌, ◌^◌, max, Bool, true, false, ◌&&◌, ◌||◌, not, Option, none, some,
  List, [], ◌∷◌, ltb, leb, ◌==◌, if◌then◌else◌, Map, lookup, insert, without,
}
use quicfs.Server.Sanitize.{Name, name_eq}
use quicfs.Common.Text.{codes}

-- The values of `Config` that `validate` looks at, and the policy of durability.
pub record Config : Type 0 where
  pub max_clients : ℕ
  pub max_conns_per_ip : ℕ
  pub max_open_handles : ℕ
  pub rpc_timeout_ms : ℕ
  pub idle_timeout_ms : ℕ
  pub keep_alive_interval_ms : ℕ
  pub export_root : Name
  pub listen : Name
  pub log_level : Name
  pub sync_on_close : Bool
  pub sync_metadata : Bool

pub data ConfigError : Type 0 where
  no_clients cap_above_clients no_handles many_handles no_timeout short_idle : ConfigError
  no_root no_address : ConfigError
  unknown_level : Name → ConfigError

abbrev no_text : Name → Bool
no_text [] = true
no_text (c ∷ name) = false

unfoldable pub is_level : Name → Bool
is_level level =
    name_eq level (codes "error")
    || name_eq level (codes "warn")
    || name_eq level (codes "info")
    || name_eq level (codes "debug")
    || name_eq level (codes "trace")

-- The first check that fails.
unfoldable pub validate : Config → Option ConfigError
unfolding is_level
validate cfg =
    if cfg.max_clients == 0
    then some no_clients
    else if ltb cfg.max_clients cfg.max_conns_per_ip
    then some cap_above_clients
    else if cfg.max_open_handles == 0
    then some no_handles
    else if ltb 1000000 cfg.max_open_handles
    then some many_handles
    else if cfg.rpc_timeout_ms == 0
    then some no_timeout
    else if ltb cfg.idle_timeout_ms cfg.keep_alive_interval_ms
    then some short_idle
    else if no_text cfg.export_root
    then some no_root
    else if no_text cfg.listen
    then some no_address
    else if is_level cfg.log_level
    then none
    else some (unknown_level cfg.log_level)

pub record ConnLimits : Type 0 where
  pub max_open_handles : ℕ
  pub rpc_timeout : ℕ
  pub sync_on_close : Bool
  pub sync_metadata : Bool

unfoldable pub from_config : Config → ConnLimits
from_config cfg = record {
  max_open_handles = cfg.max_open_handles;
  rpc_timeout = cfg.rpc_timeout_ms;
  sync_on_close = cfg.sync_on_close;
  sync_metadata = cfg.sync_metadata;
}

abbrev pub or_zero : Option ℕ → ℕ
or_zero none = 0
or_zero (some c) = c

-- `IpSlot::try_acquire`: the counts, and whether a slot was reserved.
unfoldable pub try_acquire : ℕ → ℕ → Map ℕ → Map ℕ × Bool
try_acquire ip cap m =
    let count : ℕ = or_zero (lookup ip m) in
    let entered : Map ℕ = insert ip count m in
    if not (cap == 0) && leb cap count
    then (if count == 0 then without ip entered else entered, false)
    else (insert ip ((count + 1) % 2 ^ 32) entered, true)

-- `Drop for IpSlot`
unfoldable pub release_slot : ℕ → Map ℕ → Map ℕ
release_slot ip m = elim (lookup ip m) [
  | none ↦ m
  | some c ↦ if c - 1 == 0 then without ip (insert ip (c - 1) m) else insert ip (c - 1) m
]

pub record Admission : Type 0 where
  pub conn_slots : ℕ
  pub ip_counts : Map ℕ
  pub live : List ℕ

-- `cfg.server.max_clients.max(1)` permits, and no counts.
unfoldable pub no_connections : Config → Admission
no_connections cfg = record { conn_slots = max cfg.max_clients 1; ip_counts = []; live = [] }

abbrev pub with_slot : ℕ → Map ℕ × Bool → Admission → Admission × Bool
with_slot ip (counts, false) s = (record s { ip_counts = counts }, false)
with_slot ip (counts, true) s =
    (record { conn_slots = s.conn_slots - 1; ip_counts = counts; live = ip ∷ s.live }, true)

-- One round of the accept loop: whether the connection is let in, or refused.
unfoldable pub accept : ℕ → ℕ → Admission → Admission × Bool
unfolding try_acquire
accept cap ip s =
    if s.conn_slots == 0 then (s, false) else with_slot ip (try_acquire ip cap s.ip_counts) s

-- The task at a place of the list ends.
abbrev pub nth : ℕ → List ℕ → Option ℕ
nth i [] = none
nth zero (x ∷ xs) = some x
nth (suc i) (x ∷ xs) = nth i xs

abbrev pub remove_nth : ℕ → List ℕ → List ℕ
remove_nth i [] = []
remove_nth zero (x ∷ xs) = xs
remove_nth (suc i) (x ∷ xs) = x ∷ remove_nth i xs

unfoldable pub ended : ℕ → Admission → Admission
unfolding release_slot
ended i s = elim (nth i s.live) [
  | none ↦ s
  | some ip ↦ record {
    conn_slots = s.conn_slots + 1;
    ip_counts = release_slot ip s.ip_counts;
    live = remove_nth i s.live;
  }
]

pub data Event : Type 0 where
  arrives ends : ℕ → Event

unfoldable pub accept_loop : ℕ → List Event → Admission → Admission
unfolding accept ended
accept_loop cap [] s = s
accept_loop cap (arrives ip ∷ events) s = accept_loop cap events (accept cap ip s).0
accept_loop cap (ends i ∷ events) s = accept_loop cap events (ended i s)
