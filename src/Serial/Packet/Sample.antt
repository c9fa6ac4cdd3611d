-- ===== src/Serial/Packet/Sample.antt =====
-- A codec that keeps its promise, for instances: a message is the list of its fields.
use kaonic_comm.Shared.{
  ℕ, zero, suc, ◌≡◌, refl, ap, Bool, true, false, Option, none, some, List, [], ◌∷◌,
}
use kaonic_comm.Messages.{
  FrameMessage, FskMessage, PhyMessage, unset, ofdm, fsk, ConfigurationRequest, TransmitRequest,
  ReceiveResponse,
}
use kaonic_comm.Serial.Packet.{Protobuf}
use kaonic_comm.Serial.Packet.RoundTrip.{IsCodec}

abbrev bit : Bool → ℕ
bit false = 0
bit true = 1

abbrev set_bit : ℕ → Bool
set_bit zero = false
set_bit (suc n) = true

set_bit-bit : (b : Bool) → set_bit (bit b) ≡ b
set_bit-bit true = refl
set_bit-bit false = refl

abbrev fsk_fields : FskMessage → List ℕ
fsk_fields f =
    f.bt
    ∷ f.midxs
    ∷ f.midx
    ∷ f.mord
    ∷ f.preamble_length
    ∷ bit f.freq_inversion
    ∷ f.srate
    ∷ f.pdtm
    ∷ f.rxo
    ∷ f.rxpto
    ∷ f.mse
    ∷ bit f.preamble_inversion
    ∷ f.fecs
    ∷ bit f.fecie
    ∷ f.sfdt
    ∷ f.pdt
    ∷ bit f.sftq
    ∷ f.sfd32
    ∷ bit f.rawbit
    ∷ f.csfd1
    ∷ f.csfd0
    ∷ f.sfd0
    ∷ f.sfd1
    ∷ f.sfd
    ∷ f.dw
    ∷ bit f.pe
    ∷ bit f.en
    ∷ f.fskpe0
    ∷ f.fskpe1
    ∷ f.fskpe2
    ∷ []

abbrev read_fsk : List ℕ → Option FskMessage
read_fsk
      (bt ∷ midxs ∷ midx ∷ mord ∷ preamble_length ∷ freq_inversion ∷ srate ∷ pdtm ∷ rxo ∷ rxpto
        ∷ mse ∷ preamble_inversion ∷ fecs ∷ fecie ∷ sfdt ∷ pdt ∷ sftq ∷ sfd32 ∷ rawbit ∷ csfd1
        ∷ csfd0 ∷ sfd0 ∷ sfd1 ∷ sfd ∷ dw ∷ pe ∷ en ∷ fskpe0 ∷ fskpe1 ∷ fskpe2 ∷ []) =
    some (record {
      bt = bt;
      midxs = midxs;
      midx = midx;
      mord = mord;
      preamble_length = preamble_length;
      freq_inversion = set_bit freq_inversion;
      srate = srate;
      pdtm = pdtm;
      rxo = rxo;
      rxpto = rxpto;
      mse = mse;
      preamble_inversion = set_bit preamble_inversion;
      fecs = fecs;
      fecie = set_bit fecie;
      sfdt = sfdt;
      pdt = pdt;
      sftq = set_bit sftq;
      sfd32 = sfd32;
      rawbit = set_bit rawbit;
      csfd1 = csfd1;
      csfd0 = csfd0;
      sfd0 = sfd0;
      sfd1 = sfd1;
      sfd = sfd;
      dw = dw;
      pe = set_bit pe;
      en = set_bit en;
      fskpe0 = fskpe0;
      fskpe1 = fskpe1;
      fskpe2 = fskpe2;
    })
read_fsk _ = none

abbrev phy_fields : PhyMessage → List ℕ
phy_fields unset = 0 ∷ []
phy_fields (ofdm o) = 1 ∷ o.mcs ∷ o.opt ∷ []
phy_fields (fsk f) = 2 ∷ fsk_fields f

abbrev some_fsk : Option FskMessage → Option PhyMessage
some_fsk none = none
some_fsk (some f) = some (fsk f)

abbrev read_phy : List ℕ → Option PhyMessage
read_phy (zero ∷ []) = some unset
read_phy (suc zero ∷ mcs ∷ opt ∷ []) = some (ofdm (record { mcs = mcs; opt = opt }))
read_phy (suc (suc zero) ∷ fields) = some_fsk (read_fsk fields)
read_phy _ = none

read_fsk-fsk_fields : (f : FskMessage) → read_fsk (fsk_fields f) ≡ some f
read_fsk-fsk_fields f = simp set_bit-bit

read_phy-phy_fields : (p : PhyMessage) → read_phy (phy_fields p) ≡ some p
read_phy-phy_fields unset = refl
read_phy-phy_fields (ofdm o) = refl
read_phy-phy_fields (fsk f) = ap some_fsk (read_fsk-fsk_fields f)

abbrev frame_fields : FrameMessage → List ℕ
frame_fields f = f.size ∷ f.words

abbrev some_config : ℕ → ℕ → ℕ → ℕ → ℕ → Option PhyMessage → Option ConfigurationRequest
some_config m f c s t none = none
some_config m f c s t (some p) = some (record {
  module_index = m;
  freq = f;
  channel = c;
  channel_spacing = s;
  tx_power = t;
  phy_config = p;
})

abbrev read_config : List ℕ → Option ConfigurationRequest
read_config (m ∷ f ∷ c ∷ s ∷ t ∷ phy) = some_config m f c s t (read_phy phy)
read_config _ = none

abbrev read_transmit : List ℕ → Option TransmitRequest
read_transmit (m ∷ size ∷ words) =
    some (record { module_index = m; frame = record { words = words; size = size } })
read_transmit _ = none

abbrev read_receive : List ℕ → Option ReceiveResponse
read_receive (m ∷ rssi ∷ latency ∷ size ∷ words) = some (record {
  module_index = m;
  frame = record { words = words; size = size };
  rssi = rssi;
  latency = latency;
})
read_receive _ = none

abbrev pub field_codec : Protobuf
field_codec = record {
  serialize_config = λ m.
      m.module_index
      ∷ m.freq
      ∷ m.channel
      ∷ m.channel_spacing
      ∷ m.tx_power
      ∷ phy_fields m.phy_config;
  parse_config = read_config;
  serialize_transmit = λ m. m.module_index ∷ frame_fields m.frame;
  parse_transmit = read_transmit;
  serialize_receive = λ m. m.module_index ∷ m.rssi ∷ m.latency ∷ frame_fields m.frame;
  parse_receive = read_receive;
}

read_config-back :
    (m : ConfigurationRequest)
    → some_config m.module_index m.freq m.channel m.channel_spacing m.tx_power
        (read_phy (phy_fields m.phy_config))
      ≡ some m
read_config-back m =
    ap (some_config m.module_index m.freq m.channel m.channel_spacing m.tx_power)
      (read_phy-phy_fields m.phy_config)

pub field_codec-IsCodec : IsCodec field_codec
field_codec-IsCodec = record {
  config_back = read_config-back;
  transmit_back = λ m. refl;
  receive_back = λ m. refl;
}
