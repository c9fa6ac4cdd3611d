-- ===== src/Messages.antt =====
-- proto/kaonic.proto: the messages, as the accessors of the generated classes show them. An enum
-- and an `int32` are the `uint32` of the same bits.
use kaonic_comm.Shared.{ℕ, Bool, List}

-- `RadioFrame`
pub record FrameMessage : Type 0 where
  pub words : List ℕ
  pub size : ℕ

-- `RadioPhyConfigOFDM`
pub record OfdmMessage : Type 0 where
  pub mcs : ℕ
  pub opt : ℕ

-- `RadioPhyConfigFSK`
pub record FskMessage : Type 0 where
  pub bt : ℕ
  pub midxs : ℕ
  pub midx : ℕ
  pub mord : ℕ
  pub preamble_length : ℕ
  pub freq_inversion : Bool
  pub srate : ℕ
  pub pdtm : ℕ
  pub rxo : ℕ
  pub rxpto : ℕ
  pub mse : ℕ
  pub preamble_inversion : Bool
  pub fecs : ℕ
  pub fecie : Bool
  pub sfdt : ℕ
  pub pdt : ℕ
  pub sftq : Bool
  pub sfd32 : ℕ
  pub rawbit : Bool
  pub csfd1 : ℕ
  pub csfd0 : ℕ
  pub sfd0 : ℕ
  pub sfd1 : ℕ
  pub sfd : ℕ
  pub dw : ℕ
  pub pe : Bool
  pub en : Bool
  pub fskpe0 : ℕ
  pub fskpe1 : ℕ
  pub fskpe2 : ℕ

-- `oneof phy_config`
pub data PhyMessage : Type 0 where
  unset : PhyMessage
  ofdm : OfdmMessage → PhyMessage
  fsk : FskMessage → PhyMessage

pub record ConfigurationRequest : Type 0 where
  pub module_index : ℕ
  pub freq : ℕ
  pub channel : ℕ
  pub channel_spacing : ℕ
  pub tx_power : ℕ
  pub phy_config : PhyMessage

pub record TransmitRequest : Type 0 where
  pub module_index : ℕ
  pub frame : FrameMessage

pub record ReceiveResponse : Type 0 where
  pub module_index : ℕ
  pub frame : FrameMessage
  pub rssi : ℕ
  pub latency : ℕ
