-- ===== src/OpFailure.antt =====
-- The kinds of failure of an operation on one path, and the size limit of a read
-- (crates/remote-merge-core/src/op_failure/mod.rs and size_limit.rs).
use remote_merge.Prelude.{ℕ, String, Bool, true, false, Result, ok, err, if◌then◌else◌, ltb}

-- Whether the request was not sent, or was sent and never answered.
pub data Disconnection : Type 0 where
  not_sent : String → Disconnection
  no_answer : String → Disconnection

pub data OpFailure : Type 0 where
  not_found : OpFailure
  not_a_directory : OpFailure
  permission_denied : OpFailure
  too_large : ℕ → ℕ → OpFailure
  io : String → OpFailure
  disconnected : Disconnection → OpFailure
  root_gone : OpFailure

unfoldable pub is_disconnection : OpFailure → Bool
is_disconnection (disconnected _) = true
is_disconnection _ = false

abbrev pub max_file_size : ℕ
max_file_size = 104_857_600

pub data SizeLimit : Type 0 where
  bytes : ℕ → SizeLimit
  unlimited : SizeLimit

unfoldable pub from_force : Bool → SizeLimit
from_force true = unlimited
from_force false = bytes max_file_size

unfoldable pub check_size : ℕ → SizeLimit → Result OpFailure (Unit {0})
check_size size (bytes limit) = if ltb limit size then err (too_large size limit) else ok tt
check_size size unlimited = ok tt
