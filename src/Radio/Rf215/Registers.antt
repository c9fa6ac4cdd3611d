-- ===== src/Radio/Rf215/Registers.antt =====
-- The registers that rf215_radio::configure writes, by the names of the driver's tables.
use kaonic_comm.Shared.{ℕ}

-- `RF215_TRX_TYPE_RF09` and `RF215_TRX_TYPE_RF24`: the transceivers of the chip.
pub data TrxType : Type 0 where
  rf09 rf24 : TrxType

pub data RadioRegister : Type 0 where
  cmd irqm pac padfe auxs rxbwc rxdfe txcutc txdfe edd agcc agcs : RadioRegister

pub data BasebandRegister : Type 0 where
  irqm pc ofdmc ofdmphrtx ofdmsw : BasebandRegister
  fskc0 fskc1 fskc2 fskc3 fskc4 fskpll : BasebandRegister
  fsksfd0l fsksfd0h fsksfd1l fsksfd1h fskphrtx fskdm : BasebandRegister
  fskpe0 fskpe1 fskpe2 : BasebandRegister

pub data Register : Type 0 where
  rf_clko : Register
  radio : TrxType → RadioRegister → Register
  baseband : TrxType → BasebandRegister → Register

-- A register and the value written to it: `rf215_reg_value`.
abbrev pub RegValue : Type 0
RegValue = Register × ℕ
