-- ===== src/Radio/Rf215/Fsk/Laws.antt =====
-- What holds of the FSK values for every rate, both transceivers and every index.
use kaonic_comm.Shared.{ℕ, zero, suc, ◌<◌, Bool, true, false, arith}
use kaonic_comm.Radio.Rf215.Registers.{TrxType, rf09, rf24}
use kaonic_comm.Radio.Rf215.Fsk.{FskValues, fsk_values, final_txdfe}

-- The values are bytes, and RXBWC stays below its bit 4.
abbrev pub IsNarrow : FskValues → Bool → Type 0
IsNarrow v z = (final_txdfe v z < 256) × (v.txcutc < 256) × (v.rxdfe < 256) × (v.rxbwc < 16)

-- For every symbol rate, index and transceiver the values of the FSK branch are bytes, and RXBWC
-- stays below 16: the bit by which the OFDM branch shifts the intermediate frequency (0b10000) is
-- never set here, also for the rates whose table entries mean to set it.
fsk_values-IsNarrow : (srate : ℕ) (trx : TrxType) (z : Bool) → IsNarrow (fsk_values srate trx z) z
unfolding fsk_values
fsk_values-IsNarrow zero rf09 true = omega arith
fsk_values-IsNarrow zero rf09 false = omega arith
fsk_values-IsNarrow zero rf24 true = omega arith
fsk_values-IsNarrow zero rf24 false = omega arith
fsk_values-IsNarrow (suc zero) rf09 true = omega arith
fsk_values-IsNarrow (suc zero) rf09 false = omega arith
fsk_values-IsNarrow (suc zero) rf24 true = omega arith
fsk_values-IsNarrow (suc zero) rf24 false = omega arith
fsk_values-IsNarrow (suc (suc zero)) rf09 true = omega arith
fsk_values-IsNarrow (suc (suc zero)) rf09 false = omega arith
fsk_values-IsNarrow (suc (suc zero)) rf24 true = omega arith
fsk_values-IsNarrow (suc (suc zero)) rf24 false = omega arith
fsk_values-IsNarrow (suc (suc (suc zero))) rf09 true = omega arith
fsk_values-IsNarrow (suc (suc (suc zero))) rf09 false = omega arith
fsk_values-IsNarrow (suc (suc (suc zero))) rf24 true = omega arith
fsk_values-IsNarrow (suc (suc (suc zero))) rf24 false = omega arith
fsk_values-IsNarrow (suc (suc (suc (suc zero)))) rf09 true = omega arith
fsk_values-IsNarrow (suc (suc (suc (suc zero)))) rf09 false = omega arith
fsk_values-IsNarrow (suc (suc (suc (suc zero)))) rf24 true = omega arith
fsk_values-IsNarrow (suc (suc (suc (suc zero)))) rf24 false = omega arith
fsk_values-IsNarrow (suc (suc (suc (suc (suc zero))))) rf09 true = omega arith
fsk_values-IsNarrow (suc (suc (suc (suc (suc zero))))) rf09 false = omega arith
fsk_values-IsNarrow (suc (suc (suc (suc (suc zero))))) rf24 true = omega arith
fsk_values-IsNarrow (suc (suc (suc (suc (suc zero))))) rf24 false = omega arith
fsk_values-IsNarrow (suc (suc (suc (suc (suc (suc n)))))) trx true = omega arith
fsk_values-IsNarrow (suc (suc (suc (suc (suc (suc n)))))) trx false = omega arith
