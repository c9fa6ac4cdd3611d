-- ===== src/Radio/Rf215/Ofdm.antt =====
-- The OFDM branch of rf215_radio::configure: the recommended values for each option, and the
-- registers that they go to.
pub mod Laws
use kaonic_comm.Shared.{ℕ, zero, suc, ◌*◌, ◌^◌, min, List, [], ◌∷◌, ◌|||◌, ◌<<<◌, u8}
use kaonic_comm.Radio.{OfdmConfig}
use kaonic_comm.Radio.Rf215.Registers.{TrxType, rf09, rf24, Register, radio, baseband, RegValue}
use kaonic_comm.Radio.Rf215.Registers

pub record OfdmValues : Type 0 where
  pub txdfe : ℕ
  pub txcutc : ℕ
  pub rxdfe : ℕ
  pub rxbwc : ℕ
  pub ofdmsw : ℕ

-- `switch (phy_config.opt)`; an option above 3 has no case.
pub ofdm_values : ℕ → TrxType → OfdmValues
ofdm_values zero rf09 = record {
  txdfe = 0x03 ||| 0x04 <<< 5;
  txcutc = 0x0a;
  rxdfe = 0x03 ||| 0x04 <<< 5;
  rxbwc = 0x09 ||| 0b10000;
  ofdmsw = 0b10000 ||| 5 <<< 5;
}
ofdm_values zero rf24 = record {
  txdfe = 0x03 ||| 0x04 <<< 5;
  txcutc = 0x0a;
  rxdfe = 0x03 ||| 0x04 <<< 5;
  rxbwc = 0x0a ||| 0b10000;
  ofdmsw = 0b10000 ||| 5 <<< 5;
}
ofdm_values (suc zero) rf09 = record {
  txdfe = 0x03 ||| 0x03 <<< 5;
  txcutc = 0x08;
  rxdfe = 0x03 ||| 0x02 <<< 5;
  rxbwc = 0x07 ||| 0b10000;
  ofdmsw = 0b10000 ||| 5 <<< 5;
}
ofdm_values (suc zero) rf24 = record {
  txdfe = 0x03 ||| 0x03 <<< 5;
  txcutc = 0x08;
  rxdfe = 0x03 ||| 0x02 <<< 5;
  rxbwc = 0x07 ||| 0b10000;
  ofdmsw = 0b10000 ||| 5 <<< 5;
}
ofdm_values (suc (suc zero)) rf09 = record {
  txdfe = 0x06 ||| 0x03 <<< 5;
  txcutc = 0x05;
  rxdfe = 0x06 ||| 0x02 <<< 5;
  rxbwc = 0x04 ||| 0b00000;
  ofdmsw = 0b10000 ||| 4 <<< 5;
}
ofdm_values (suc (suc zero)) rf24 = record {
  txdfe = 0x06 ||| 0x03 <<< 5;
  txcutc = 0x05;
  rxdfe = 0x06 ||| 0x03 <<< 5;
  rxbwc = 0x05 ||| 0b10000;
  ofdmsw = 0b10000 ||| 4 <<< 5;
}
ofdm_values (suc (suc (suc zero))) rf09 = record {
  txdfe = 0x06 ||| 0x02 <<< 5;
  txcutc = 0x03;
  rxdfe = 0x06 ||| 0x01 <<< 5;
  rxbwc = 0x02 ||| 0b10000;
  ofdmsw = 0b10000 ||| 3 <<< 5;
}
ofdm_values (suc (suc (suc zero))) rf24 = record {
  txdfe = 0x06 ||| 0x02 <<< 5;
  txcutc = 0x03;
  rxdfe = 0x06 ||| 0x01 <<< 5;
  rxbwc = 0x03 ||| 0b00000;
  ofdmsw = 0b10000 ||| 3 <<< 5;
}
ofdm_values _ _ = record { txdfe = 0; txcutc = 0; rxdfe = 0; rxbwc = 0; ofdmsw = 0b10000 }

-- `mod_values` of the OFDM branch.
unfoldable pub ofdm_set : TrxType → OfdmConfig → List RegValue
unfolding ofdm_values
ofdm_set trx c =
    let v = ofdm_values c.opt trx in
    (radio trx Registers.RadioRegister.rxbwc, v.rxbwc)
    ∷ (radio trx Registers.RadioRegister.rxdfe, v.rxdfe)
    ∷ (radio trx Registers.RadioRegister.txcutc, v.txcutc)
    ∷ (radio trx Registers.RadioRegister.txdfe, v.txdfe)
    ∷ (radio trx Registers.RadioRegister.edd, 0x7a)
    ∷ (baseband trx Registers.BasebandRegister.pc, 0b1110)
    ∷ (baseband trx Registers.BasebandRegister.ofdmc, u8 (min c.opt 3))
    ∷ (baseband trx Registers.BasebandRegister.ofdmphrtx, u8 (min c.mcs 6))
    ∷ (baseband trx Registers.BasebandRegister.ofdmsw, v.ofdmsw)
    ∷ []
