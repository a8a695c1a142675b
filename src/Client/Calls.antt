-- ===== src/Client/Calls.antt =====
-- client/src/conn.rs: the RPCs of one request and one response. `rpc` is an interface, the service; it
-- gives the response, or the text of the error where the connection or the deadline failed.
use quicfs.Base.{ℕ, ◌+◌, ◌%◌, String, Bool, Option, none, some}
use quicfs.Common.Status.{Status, as_u8}
use quicfs.Client.Errno.{check_status}
use quicfs.Client.Fuse.{Answer, got, failed}
use quicfs.Client.WriteBuf.{word_mod}
use quicfs.Server.Files.{OpenResponse}
use quicfs.Server.Meta.{Stat, StatResponse, StatusResponse, ReadLinkResponse}
use quicfs.Server.Sanitize.{Name}
use quicfs.Server.SetAttr.{SetAttrRequest, StatFs, StatFsResponse}

pub data Sent {ℓ} (R : Type ℓ) : Type ℓ where
  received : R → Sent R
  lost : String → Sent R

-- What the RPCs ask of the server. The first argument is the number of the request.
pub record Service : Type 1 where
  pub State : Type 0
  pub get_attr : ℕ → Name → State → State × Sent StatResponse
  pub set_attr : SetAttrRequest → State → State × Sent StatResponse
  pub make_dir : ℕ → Name → ℕ → State → State × Sent StatResponse
  pub remove_dir : ℕ → Name → State → State × Sent StatusResponse
  pub remove_file : ℕ → Name → State → State × Sent StatusResponse
  pub move : ℕ → Name → Name → ℕ → State → State × Sent StatusResponse
  pub make_symlink : ℕ → Name → Name → State → State × Sent StatResponse
  pub read_link : ℕ → Name → State → State × Sent ReadLinkResponse
  pub make_link : ℕ → Name → Name → State → State × Sent StatResponse
  pub stat_fs : ℕ → Name → State → State × Sent StatFsResponse
  pub open_file : ℕ → Name → ℕ → State → State × Sent OpenResponse
  pub create_file : ℕ → Name → ℕ → ℕ → State → State × Sent OpenResponse
  pub release_file : ℕ → ℕ → State → State × Sent StatusResponse
  pub sync_file : ℕ → ℕ → Bool → State → State × Sent StatusResponse

-- `check_status(status)?`, then the rest.
abbrev pub on_ok {ℓ} : {A : Type ℓ} → Status → Answer A → Answer A
on_ok status next = elim (check_status (as_u8 status)) [ some e ↦ failed e | none ↦ next ]

abbrev pub or_missing {ℓ} : {A : Type ℓ} → String → Option A → Answer A
or_missing message none = failed message
or_missing message (some a) = got a

abbrev pub stat_of : Sent StatResponse → Answer Stat
stat_of (lost e) = failed e
stat_of (received resp) = on_ok resp.status (or_missing "missing stat" resp.stat)

abbrev pub unit_of : Sent StatusResponse → Answer (Unit {0})
unit_of (lost e) = failed e
unit_of (received resp) = on_ok resp.status (got tt)

abbrev pub target_of : Sent ReadLinkResponse → Answer Name
target_of (lost e) = failed e
target_of (received resp) = on_ok resp.status (got resp.target)

abbrev pub statfs_of : Sent StatFsResponse → Answer StatFs
statfs_of (lost e) = failed e
statfs_of (received resp) = on_ok resp.status (or_missing "missing statfs" resp.statfs)

abbrev pub with_handle : ℕ → Answer Stat → Answer (ℕ × Stat)
with_handle handle (failed e) = failed e
with_handle handle (got stat) = got (handle, stat)

abbrev pub opened_of : Sent OpenResponse → Answer (ℕ × Stat)
opened_of (lost e) = failed e
opened_of (received resp) =
    on_ok resp.status (with_handle resp.handle (or_missing "missing stat" resp.stat))

module _ (service : Service) where
  -- `ConnManager`, by the number of its next request and the state of the other end.
  pub record Link : Type 0 where
    pub next : ℕ
    pub server : service.State

module _ {service : Service} where
  -- One RPC with the next number, and what its response becomes.
  unfoldable pub rpc {ℓ κ} :
      {R : Type ℓ} {A : Type κ}
      → (ℕ → service.State → service.State × Sent R)
      → (Sent R → Answer A)
      → Link service
      → Link service × Answer A
  rpc request result link = (
    record { next = (link.next + 1) % word_mod; server = (request link.next link.server).0 },
    result (request link.next link.server).1,
  )

  unfoldable pub getattr : Name → Link service → Link service × Answer Stat
  unfolding rpc
  getattr path = rpc (λ seq. service.get_attr seq path) stat_of

  unfoldable pub setattr : SetAttrRequest → Link service → Link service × Answer Stat
  unfolding rpc
  setattr req = rpc (λ seq. service.set_attr (record req { seq = seq })) stat_of

  unfoldable pub mkdir : Name → ℕ → Link service → Link service × Answer Stat
  unfolding rpc
  mkdir path mode = rpc (λ seq. service.make_dir seq path mode) stat_of

  unfoldable pub rmdir : Name → Link service → Link service × Answer (Unit {0})
  unfolding rpc
  rmdir path = rpc (λ seq. service.remove_dir seq path) unit_of

  unfoldable pub unlink : Name → Link service → Link service × Answer (Unit {0})
  unfolding rpc
  unlink path = rpc (λ seq. service.remove_file seq path) unit_of

  unfoldable pub rename : Name → Name → ℕ → Link service → Link service × Answer (Unit {0})
  unfolding rpc
  rename old new flags = rpc (λ seq. service.move seq old new flags) unit_of

  unfoldable pub symlink : Name → Name → Link service → Link service × Answer Stat
  unfolding rpc
  symlink target link_path = rpc (λ seq. service.make_symlink seq target link_path) stat_of

  unfoldable pub readlink : Name → Link service → Link service × Answer Name
  unfolding rpc
  readlink path = rpc (λ seq. service.read_link seq path) target_of

  unfoldable pub link : Name → Name → Link service → Link service × Answer Stat
  unfolding rpc
  link path link_path = rpc (λ seq. service.make_link seq path link_path) stat_of

  unfoldable pub statfs : Name → Link service → Link service × Answer StatFs
  unfolding rpc
  statfs path = rpc (λ seq. service.stat_fs seq path) statfs_of

  unfoldable pub open_rpc : Name → ℕ → Link service → Link service × Answer (ℕ × Stat)
  unfolding rpc
  open_rpc path flags = rpc (λ seq. service.open_file seq path flags) opened_of

  unfoldable pub create : Name → ℕ → ℕ → Link service → Link service × Answer (ℕ × Stat)
  unfolding rpc
  create path flags mode = rpc (λ seq. service.create_file seq path flags mode) opened_of

  unfoldable pub release : ℕ → Link service → Link service × Answer (Unit {0})
  unfolding rpc
  release handle = rpc (λ seq. service.release_file seq handle) unit_of

  unfoldable pub fsync : ℕ → Bool → Link service → Link service × Answer (Unit {0})
  unfolding rpc
  fsync handle datasync = rpc (λ seq. service.sync_file seq handle datasync) unit_of
