-- ===== src/Failure/Tests.antt =====
-- Instances of the laws of error accumulation.
use kaonic_comm.Shared.{◌≡◌, refl, [], ◌∷◌, negsuc}
use kaonic_comm.Failure.{ok, fail, timeout, accumulate, from_rc}

accumulate_timeout : accumulate ok (ok ∷ timeout ∷ []) ≡ fail
unfolding accumulate
accumulate_timeout = refl

from_rc_negative : from_rc (negsuc 3) ≡ fail
unfolding from_rc
from_rc_negative = refl
