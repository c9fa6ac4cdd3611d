-- ===== src/Failure.antt =====
-- kaonic/include/kaonic/common/error.hpp: error codes as values, and their accumulation by `+=`.
pub mod Laws
mod Tests
use Prim.Native.String.{String}
use kaonic_comm.Shared.{Bool, true, false, ℤ, is_negative, if◌then◌else◌, ◌&&◌, List, [], ◌∷◌}

-- `struct error` holds one `error_code`, and is modelled by it.
pub data Error : Type 0 where
  ok fail invalid_arg precondition_failed timeout not_ready : Error

unfoldable pub is_ok : Error → Bool
is_ok ok = true
is_ok _ = false

unfoldable pub from_rc : ℤ → Error
from_rc rc = if is_negative rc then fail else ok

-- `error::with`, and `operator+=`, which calls it: the new value of `*this`.
unfoldable pub with_error : Error → Error → Error
unfolding is_ok
with_error e err = if is_ok e && is_ok err then e else fail

-- `e += a; e += b; …`
unfoldable pub accumulate : Error → List Error → Error
unfolding with_error
accumulate e [] = e
accumulate e (a ∷ rest) = accumulate (with_error e a) rest

-- `as_str`, which `to_str` calls; no code is outside the cases.
unfoldable pub as_str : Error → String
as_str ok = "ok"
as_str fail = "fail"
as_str invalid_arg = "invalid arg"
as_str precondition_failed = "precondition_failed"
as_str timeout = "timeout"
as_str not_ready = "not_ready"
