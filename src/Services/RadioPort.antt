-- ===== src/Services/RadioPort.antt =====
-- What the serial and the gRPC service use of `radio_service`: its two fallible calls, over any
-- state. Services/Radio implements it.
use kaonic_comm.Shared.{ℕ}
use kaonic_comm.Failure.{Error}
use kaonic_comm.Radio.{Frame, RadioConfig}

pub record RadioPort {ℓ} (S : Type ℓ) : Type ℓ where
  pub configure : S → ℕ → RadioConfig → Error × S
  pub transmit : S → ℕ → Frame → Error × S
