-- ===== src/Radio.antt =====
-- kaonic/include/kaonic/comm/radio/radio.hpp and network_interface.hpp: frames and the settings of
-- a radio.
pub mod Rf215
use kaonic_comm.Shared.{ℕ, Bool, true, false, List}

-- `mesh::frame`: its `buffer`.
abbrev pub Frame : Type 0
Frame = List ℕ

abbrev pub data_max_size : ℕ
data_max_size = 2048

-- `radio_frame`: `payload` is the array `data`.
pub record RadioFrame : Type 0 where
  pub len : ℕ
  pub payload : List ℕ

pub record OfdmConfig : Type 0 where
  pub mcs : ℕ
  pub opt : ℕ

abbrev pub default_ofdm : OfdmConfig
default_ofdm = record { mcs = 6; opt = 0 }

pub record FskConfig : Type 0 where
  pub bt : ℕ
  pub midxs : ℕ
  pub midx : ℕ
  pub mord : ℕ
  pub preamble_length : ℕ
  pub freq_inversion : Bool
  pub srate : ℕ
  pub pdtm : ℕ
  pub rxo : ℕ
  pub rxpto : ℕ
  pub mse : ℕ
  pub preamble_inversion : Bool
  pub fecs : ℕ
  pub fecie : Bool
  pub sfdt : ℕ
  pub pdt : ℕ
  pub sftq : Bool
  pub sfd32 : ℕ
  pub rawbit : Bool
  pub csfd1 : ℕ
  pub csfd0 : ℕ
  pub sfd0 : ℕ
  pub sfd1 : ℕ
  pub sfd : ℕ
  pub dw : ℕ
  pub pe : Bool
  pub en : Bool
  pub fskpe0 : ℕ
  pub fskpe1 : ℕ
  pub fskpe2 : ℕ

-- `radio_phy_config_fsk {}`
abbrev pub default_fsk : FskConfig
default_fsk = record {
  bt = 3;
  midxs = 1;
  midx = 3;
  mord = 0;
  preamble_length = 0;
  freq_inversion = false;
  srate = 0;
  pdtm = 0;
  rxo = 2;
  rxpto = 0;
  mse = 0;
  preamble_inversion = false;
  fecs = 0;
  fecie = true;
  sfdt = 8;
  pdt = 5;
  sftq = false;
  sfd32 = 0;
  rawbit = true;
  csfd1 = 2;
  csfd0 = 0;
  sfd0 = 0x7209;
  sfd1 = 0x72f6;
  sfd = 0;
  dw = 1;
  pe = false;
  en = false;
  fskpe0 = 0;
  fskpe1 = 0;
  fskpe2 = 0;
}

-- `radio_phy_config_t`
pub data PhyConfig : Type 0 where
  ofdm : OfdmConfig → PhyConfig
  fsk : FskConfig → PhyConfig

pub record RadioConfig : Type 0 where
  pub freq : ℕ
  pub channel : ℕ
  pub channel_spacing : ℕ
  pub tx_power : ℕ
  pub phy_config : PhyConfig

-- `radio_config {}`
abbrev pub default_config : RadioConfig
default_config = record {
  freq = 869535;
  channel = 1;
  channel_spacing = 200;
  tx_power = 10;
  phy_config = ofdm default_ofdm;
}
