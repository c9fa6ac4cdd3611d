-- ===== src/Radio/Rf215/Ofdm/Laws.antt =====
-- What holds of the OFDM values for every option and both transceivers.
use kaonic_comm.Shared.{ℕ, zero, suc, ◌%◌, ◌<◌, ◌≡◌, arith}
use kaonic_comm.Radio.Rf215.Registers.{TrxType, rf09, rf24}
use kaonic_comm.Radio.Rf215.Ofdm.{OfdmValues, ofdm_values}

-- The values of a set are bytes, with one sampling rate for both directions.
abbrev pub IsConsistent : OfdmValues → Type 0
IsConsistent v =
    (v.txdfe < 256)
    × (v.txcutc < 256)
    × (v.rxdfe < 256)
    × (v.rxbwc < 256)
    × (v.ofdmsw < 256)
    × (v.txdfe % 16 ≡ v.rxdfe % 16)

-- For every option, also those above 3, and both transceivers the values of the OFDM branch are
-- bytes, and the transmitter and the receiver have one sampling rate, which is the low four bits
-- of TXDFE and of RXDFE.
ofdm_values-IsConsistent : (opt : ℕ) (trx : TrxType) → IsConsistent (ofdm_values opt trx)
unfolding ofdm_values
ofdm_values-IsConsistent zero rf09 = omega arith
ofdm_values-IsConsistent zero rf24 = omega arith
ofdm_values-IsConsistent (suc zero) rf09 = omega arith
ofdm_values-IsConsistent (suc zero) rf24 = omega arith
ofdm_values-IsConsistent (suc (suc zero)) rf09 = omega arith
ofdm_values-IsConsistent (suc (suc zero)) rf24 = omega arith
ofdm_values-IsConsistent (suc (suc (suc zero))) rf09 = omega arith
ofdm_values-IsConsistent (suc (suc (suc zero))) rf24 = omega arith
ofdm_values-IsConsistent (suc (suc (suc (suc n)))) trx = omega arith
