-- ===== src/Services/Serial.antt =====
-- kaonic/src/comm/services/serial_service.cpp: packets from the serial port to the radios, and
-- frames from the radios to the serial port. What the port reads is an argument of each round, what
-- is written to it a result; `crc32` is zlib's.
pub mod Handling
pub mod Monitor
pub mod Receive
pub mod Polling
pub mod Session
pub mod Lifecycle
mod Tests
use kaonic_comm.Shared.{
  ℕ, ◌+◌, Bool, true, false, not, Option, none, some, List, [], ◌∷◌, ◌==◌, if◌then◌else◌, u8, u32,
}
use kaonic_comm.Failure.{Error, ok, precondition_failed}
use kaonic_comm.Messages.{FrameMessage, ConfigurationRequest, TransmitRequest, ReceiveResponse}
use kaonic_comm.Radio.{Frame, RadioConfig, ofdm, default_ofdm, default_config}
use kaonic_comm.Serial.Hdlc.{Processor, processor, update, escape, unescape}
use kaonic_comm.Serial.Packet.{
  Protobuf, Payload, transmit, receive, config, error_payload, encode, decode,
}
use kaonic_comm.Services.Buffers.{buf_pack, buf_unpack}
use kaonic_comm.Services.RadioPort.{RadioPort}

abbrev pub max_hdlc_size : ℕ
max_hdlc_size = 10240

-- `radio` is the state of the radio service behind `_radio_service`. `threads` counts the joinable
-- thread in `_rx_thread`.
pub record SerialService {ℓ} (S : Type ℓ) : Type ℓ where
  pub radio : S
  pub is_active : Bool
  pub threads : ℕ
  pub hdlc_processor : Processor
  pub hdlc_buffer : List ℕ
  pub unescaped_buffer : List ℕ
  pub escaped_buffer : List ℕ
  pub tx_payload : Payload
  pub rx_response : ReceiveResponse
  pub rx_protobuf : List ℕ
  pub frame : Frame

abbrev pub empty_frame : FrameMessage
empty_frame = record { words = []; size = 0 }

-- The constructor, over a radio service; `payload_t` begins as its first alternative.
unfoldable pub serial_service {ℓ} : {S : Type ℓ} → S → SerialService S
unfolding processor
serial_service radio = record {
  radio = radio;
  is_active = false;
  threads = 0;
  hdlc_processor = processor max_hdlc_size;
  hdlc_buffer = [];
  unescaped_buffer = [];
  escaped_buffer = [];
  tx_payload = transmit (record { module_index = 0; frame = empty_frame });
  rx_response = record { module_index = 0; frame = empty_frame; rssi = 0; latency = 0 };
  rx_protobuf = [];
  frame = [];
}

-- One pass through the loop of `tx`: the byte that the first read stores, if it stores one, and the
-- count and the value of the second read, of the checksum. The count of the first read is unused:
-- `bytes_read < 0` is false of a `size_t`, and `bytes_read = 0` stores 0.
pub record Round : Type 0 where
  pub stored : Option ℕ
  pub crc_count : ℕ
  pub expected_crc : ℕ

abbrev pub last_byte : ℕ → Option ℕ → ℕ
last_byte byte none = byte
last_byte byte (some b) = b

abbrev pub is_crc_match : (List ℕ → ℕ) → Round → List ℕ → Bool
is_crc_match crc32 r buffer =
    if r.crc_count == 4 then u32 r.expected_crc == u32 (crc32 buffer) else false

abbrev pub requested_config : ConfigurationRequest → RadioConfig
requested_config m = record default_config {
  freq = m.freq;
  channel = u8 m.channel;
  channel_spacing = m.channel_spacing;
}

module _ {ℓ} {S : Type ℓ} (port : RadioPort S) where
  -- The result of a call of the radio service only decides what is logged.
  pub handle_packet : SerialService S → Payload → SerialService S
  handle_packet s (config m) = record s {
    radio = (port.configure s.radio (u8 m.module_index) (requested_config m)).1;
  }
  handle_packet s (transmit m) =
      let packed = buf_pack m.frame s.frame in
      record s { frame = packed; radio = (port.transmit s.radio (u8 m.module_index) packed).1 }
  handle_packet s (receive m) = s
  handle_packet s error_payload = s

module _ {ℓ} {S : Type ℓ} (port : RadioPort S) (pb : Protobuf) where
  -- `unescape`, `decode`, `handle_packet`, once the checksum has matched.
  pub deliver : SerialService S → SerialService S
  unfolding handle_packet
  deliver s =
      let unescaped = unescape s.hdlc_buffer in
      let payload = decode pb unescaped in
      handle_packet port (record s { unescaped_buffer = unescaped; tx_payload = payload }) payload

module _ {ℓ} {S : Type ℓ} (port : RadioPort S) (pb : Protobuf) (crc32 : List ℕ → ℕ) where
  -- One pass, from the value of `byte` that the pass before left.
  unfoldable pub tx_round : SerialService S → ℕ → Round → SerialService S
  tx_round s byte r =
      let (p, buffer, done) = update s.hdlc_processor byte s.hdlc_buffer in
      let s' = record s { hdlc_processor = p; hdlc_buffer = buffer } in
      if done then (if is_crc_match crc32 r buffer then deliver port pb s' else s') else s'

  -- `tx`: the rounds that are run while the service is active.
  pub tx_from : SerialService S → ℕ → List Round → SerialService S
  tx_from s byte [] = s
  tx_from s byte (r ∷ rounds) =
      let byte' = last_byte byte r.stored in tx_from (tx_round s byte' r) byte' rounds

  unfoldable pub tx : SerialService S → List Round → SerialService S
  unfolding tx_from
  tx s rounds = tx_from s 0 rounds

module _ {ℓ} {S : Type ℓ} where
  -- `receive_frame`: the service, and the bytes given to the port. `reserved` is what lies on the
  -- stack where `encode` builds the header.
  unfoldable pub receive_frame :
      Protobuf → List ℕ → SerialService S → Frame → SerialService S × List ℕ
  receive_frame pb reserved s f =
      let response = record s.rx_response { frame = buf_unpack f s.rx_response.frame } in
      let protobuf = encode pb reserved (receive response) in
      let escaped = escape protobuf in
      (
        record s { rx_response = response; rx_protobuf = protobuf; escaped_buffer = escaped },
        protobuf,
      )

  -- `serial_radio_listener::on_receive`, over the service of the listener.
  abbrev pub on_receive : Protobuf → List ℕ → SerialService S → Frame → SerialService S × List ℕ
  on_receive pb reserved s f = receive_frame pb reserved s f

  unfoldable pub start_tx : SerialService S → Error × SerialService S
  start_tx s =
      if s.is_active
      then (precondition_failed, s)
      else (ok, record s { is_active = true; threads = s.threads + 1 })

  unfoldable pub stop_tx : SerialService S → Error × SerialService S
  stop_tx s =
      if not s.is_active
      then (precondition_failed, s)
      else (ok, record s { is_active = false; threads = 0 })
