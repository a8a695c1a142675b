-- ===== src/Common/Status.antt =====
-- common/src/status.rs: the status codes of the protocol. `std::io::ErrorKind` is given by the kinds
-- that the code names, those that the file operations of the server raise beside them, and `other`.
use quicfs.Base.{ℕ, ◌≡◌, ◌≢◌, ◌⊎◌, refl, arith, ◌==◌, if◌then◌else◌}

pub data Status : Type 0 where
  ok not_found permission io exists not_empty not_dir is_dir invalid_arg no_space too_large : Status
  stale unknown : Status

-- `status as u8`
unfoldable pub as_u8 : Status → ℕ
as_u8 ok = 0
as_u8 not_found = 1
as_u8 permission = 2
as_u8 io = 3
as_u8 exists = 4
as_u8 not_empty = 5
as_u8 not_dir = 6
as_u8 is_dir = 7
as_u8 invalid_arg = 8
as_u8 no_space = 9
as_u8 too_large = 10
as_u8 stale = 11
as_u8 unknown = 255

-- `impl From<u8> for Status`
unfoldable pub from_u8 : ℕ → Status
from_u8 v =
    if v == 0
    then ok
    else if v == 1
    then not_found
    else if v == 2
    then permission
    else if v == 3
    then io
    else if v == 4
    then exists
    else if v == 5
    then not_empty
    else if v == 6
    then not_dir
    else if v == 7
    then is_dir
    else if v == 8
    then invalid_arg
    else if v == 9
    then no_space
    else if v == 10
    then too_large
    else if v == 11
    then stale
    else unknown

pub data ErrorKind : Type 0 where
  not_found_kind permission_denied already_exists invalid_input invalid_data : ErrorKind
  directory_not_empty not_a_directory is_a_directory storage_full other : ErrorKind

-- `impl From<std::io::Error> for Status`
unfoldable pub from_io : ErrorKind → Status
from_io not_found_kind = not_found
from_io permission_denied = permission
from_io already_exists = exists
from_io invalid_input = invalid_arg
from_io invalid_data = invalid_arg
from_io _ = io

-- A status survives the wire: decoding its code gives it back.
pub from_u8-as_u8 : (s : Status) → from_u8 (as_u8 s) ≡ s
unfolding from_u8 as_u8
from_u8-as_u8 ok = refl
from_u8-as_u8 _ = refl

-- Every byte that is not a code of the protocol decodes to the unknown status, and no other does.
pub from_u8-unknown : (v : ℕ) → (from_u8 v ≡ unknown) ⊎ (as_u8 (from_u8 v) ≡ v)
unfolding from_u8 as_u8
from_u8-unknown v = ground arith

-- No failure of a file operation is told as a success.
pub from_io-ne-ok : (k : ErrorKind) → from_io k ≢ ok
unfolding from_io
from_io-ne-ok not_found_kind = λ e. cc
from_io-ne-ok _ = λ e. cc
