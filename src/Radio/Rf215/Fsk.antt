-- ===== src/Radio/Rf215/Fsk.antt =====
-- The FSK branch of rf215_radio::configure: the values for each symbol rate, the packing of the
-- settings into register fields, and the registers that they go to.
pub mod Laws
pub mod Fields
use kaonic_comm.Shared.{
  ℕ, zero, suc, ◌+◌, ◌*◌, ◌/◌, ◌^◌, Bool, List, [], ◌∷◌, ◌|||◌, ◌&&&◌, ◌<<<◌, ◌>>>◌, u8, ◌==◌,
  if◌then◌else◌,
}
use kaonic_comm.Radio.{FskConfig}
use kaonic_comm.Radio.Rf215.Registers.{TrxType, rf09, rf24, Register, radio, baseband, RegValue}
use kaonic_comm.Radio.Rf215.Registers

pub record FskValues : Type 0 where
  pub txdfe : ℕ
  pub txcutc : ℕ
  pub rxdfe : ℕ
  pub rxbwc : ℕ

-- `phy_config.midx == 0 ? a : b`, given the test.
abbrev pub sel : Bool → ℕ → ℕ → ℕ
sel z a b = if z then a else b

-- `switch (phy_config.srate)`, where `z` tells whether `midx` is 0; a rate above 5 has no case.
unfoldable pub fsk_values : ℕ → TrxType → Bool → FskValues
fsk_values zero rf09 z = record {
  txdfe = 8;
  txcutc = 3 <<< 6 ||| 0;
  rxdfe = 10 ||| 0;
  rxbwc = 0 ||| 0;
}
fsk_values zero rf24 z = record {
  txdfe = 8;
  txcutc = 3 <<< 6 ||| 0;
  rxdfe = 10 ||| sel z 0 (1 <<< 5);
  rxbwc = sel z 0 1 ||| sel z 0 1;
}
fsk_values (suc zero) rf09 z = record {
  txdfe = 4;
  txcutc = 2 <<< 6 ||| sel z 1 3;
  rxdfe = 5 ||| 0;
  rxbwc = sel z 1 3 ||| 0;
}
fsk_values (suc zero) rf24 z = record {
  txdfe = 4;
  txcutc = 2 <<< 6 ||| sel z 1 3;
  rxdfe = 5 ||| sel z 0 (1 <<< 5);
  rxbwc = sel z 1 4 ||| 0;
}
fsk_values (suc (suc zero)) rf09 z = record {
  txdfe = 2;
  txcutc = 2 <<< 6 ||| sel z 3 5;
  rxdfe = 4 ||| 0;
  rxbwc = sel z 3 4 ||| 0;
}
fsk_values (suc (suc zero)) rf24 z = record {
  txdfe = 2;
  txcutc = 2 <<< 6 ||| sel z 3 5;
  rxdfe = 4 ||| sel z 0 (2 <<< 5);
  rxbwc = sel z 3 6 ||| 0;
}
fsk_values (suc (suc (suc zero))) rf09 z = record {
  txdfe = 2;
  txcutc = 2 <<< 6 ||| sel z 4 6;
  rxdfe = 4 ||| sel z (1 <<< 5) (1 <<< 5);
  rxbwc = sel z 3 5 ||| sel z 0 0b1000;
}
fsk_values (suc (suc (suc zero))) rf24 z = record {
  txdfe = 2;
  txcutc = 2 <<< 6 ||| sel z 4 6;
  rxdfe = 4 ||| sel z (1 <<< 5) (3 <<< 5);
  rxbwc = sel z 4 6 ||| 0;
}
fsk_values (suc (suc (suc (suc zero)))) rf09 z = record {
  txdfe = 1;
  txcutc = 1 <<< 6 ||| sel z 6 8;
  rxdfe = 2 ||| 0;
  rxbwc = sel z 5 6 ||| sel z 1 0;
}
fsk_values (suc (suc (suc (suc zero)))) rf24 z = record {
  txdfe = 1;
  txcutc = 1 <<< 6 ||| sel z 6 8;
  rxdfe = 2 ||| sel z 0 (1 <<< 5);
  rxbwc = sel z 6 7 ||| 0;
}
fsk_values (suc (suc (suc (suc (suc zero))))) rf09 z = record {
  txdfe = 1;
  txcutc = 1 <<< 6 ||| sel z 7 9;
  rxdfe = 2 ||| sel z 0 (1 <<< 5);
  rxbwc = sel z 6 8 ||| sel z 0 0b1000;
}
fsk_values (suc (suc (suc (suc (suc zero))))) rf24 z = record {
  txdfe = 1;
  txcutc = 1 <<< 6 ||| sel z 7 9;
  rxdfe = 2 ||| sel z (1 <<< 5) (2 <<< 5);
  rxbwc = sel z 7 8 ||| sel z 0 0b1000;
}
fsk_values _ _ z = record { txdfe = 0; txcutc = 0; rxdfe = 0; rxbwc = 0 }

-- `txdfe |= phy_config.midx == 0 ? 0 : (4 << 5)`, behind the switch.
abbrev pub final_txdfe : FskValues → Bool → ℕ
final_txdfe v z = v.txdfe ||| sel z 0 (4 <<< 5)

pub fskc0 : FskConfig → ℕ
fskc0 c = u8 (
    (c.bt &&& 0b11) <<< 6
    ||| (c.midxs &&& 0b11) <<< 4
    ||| (c.midx &&& 0b111) <<< 1
    ||| (c.mord &&& 0b1))

pub fskc1 : FskConfig → ℕ
fskc1 c = u8 (
    (if c.freq_inversion then 0b10000 else 0)
    ||| (c.srate &&& 0b1111)
    ||| u8 (c.preamble_length &&& 0b1100000000))

pub fskc2 : FskConfig → ℕ
fskc2 c = u8 (
    (c.pdtm &&& 1) <<< 7
    ||| (c.rxo &&& 0b11) <<< 5
    ||| (c.rxpto &&& 1) <<< 4
    ||| (c.mse &&& 1) <<< 3
    ||| (if c.preamble_inversion then 0b100 else 0)
    ||| (c.fecs &&& 1) <<< 1
    ||| (if c.fecie then 1 else 0))

pub fskc3 : FskConfig → ℕ
fskc3 c = u8 ((c.sfdt &&& 0b1111) <<< 4 ||| (c.pdt &&& 0b1111))

pub fskc4 : FskConfig → ℕ
fskc4 c = u8 (
    (if c.sftq then 0b1000000 else 0)
    ||| (c.sfd32 &&& 0b1) <<< 5
    ||| (if c.rawbit then 0b10000 else 0)
    ||| (c.csfd1 &&& 0b11) <<< 2
    ||| (c.csfd0 &&& 0b11))

pub fskpll : FskConfig → ℕ
fskpll c = u8 (c.preamble_length &&& 0b11111111)

-- The two halves of a start-of-frame delimiter.
pub low_half : ℕ → ℕ
low_half sfd = u8 (sfd &&& 0b11111111)

unfoldable pub high_half : ℕ → ℕ
high_half sfd = u8 (sfd >>> 8 &&& 0b11111111)

pub fskphrtx : FskConfig → ℕ
fskphrtx c = u8 ((c.sfd &&& 0b1) <<< 3 ||| (c.dw &&& 0b1) <<< 2)

pub fskdm : FskConfig → ℕ
fskdm c = u8 ((if c.pe then 0b10 else 0) ||| (if c.en then 0b01 else 0))

-- `mod_values` of the FSK branch.
unfoldable pub fsk_set : TrxType → FskConfig → List RegValue
unfolding fsk_values fskc0 fskc1 fskc2 fskc3 fskc4 fskpll low_half high_half fskphrtx fskdm
fsk_set trx c =
    let z = c.midx == 0 in
    let v = fsk_values c.srate trx z in
    (radio trx Registers.RadioRegister.rxbwc, v.rxbwc)
    ∷ (radio trx Registers.RadioRegister.rxdfe, v.rxdfe)
    ∷ (radio trx Registers.RadioRegister.edd, 0x7a)
    ∷ (radio trx Registers.RadioRegister.txcutc, v.txcutc)
    ∷ (radio trx Registers.RadioRegister.txdfe, final_txdfe v z)
    ∷ (radio trx Registers.RadioRegister.agcc, 0b1000000 ||| 0b1)
    ∷ (radio trx Registers.RadioRegister.agcs, 0b100000 ||| 0b10111)
    ∷ (baseband trx Registers.BasebandRegister.pc, 0b1101)
    ∷ (baseband trx Registers.BasebandRegister.fskc0, fskc0 c)
    ∷ (baseband trx Registers.BasebandRegister.fskc1, fskc1 c)
    ∷ (baseband trx Registers.BasebandRegister.fskc2, fskc2 c)
    ∷ (baseband trx Registers.BasebandRegister.fskc3, fskc3 c)
    ∷ (baseband trx Registers.BasebandRegister.fskc4, fskc4 c)
    ∷ (baseband trx Registers.BasebandRegister.fskpll, fskpll c)
    ∷ (baseband trx Registers.BasebandRegister.fsksfd0l, low_half c.sfd0)
    ∷ (baseband trx Registers.BasebandRegister.fsksfd0h, high_half c.sfd0)
    ∷ (baseband trx Registers.BasebandRegister.fsksfd1l, low_half c.sfd1)
    ∷ (baseband trx Registers.BasebandRegister.fsksfd1h, high_half c.sfd1)
    ∷ (baseband trx Registers.BasebandRegister.fskphrtx, fskphrtx c)
    ∷ (baseband trx Registers.BasebandRegister.fskdm, fskdm c)
    ∷ (baseband trx Registers.BasebandRegister.fskpe0, c.fskpe0)
    ∷ (baseband trx Registers.BasebandRegister.fskpe1, c.fskpe1)
    ∷ (baseband trx Registers.BasebandRegister.fskpe2, c.fskpe2)
    ∷ []
