-- ===== src/Serial/Packet.antt =====
-- kaonic/src/comm/serial/packet.cpp: a header of 20 bytes before a protobuf message. The generated
-- classes' `SerializeToArray` and `ParseFromArray` are the parameter `Protobuf`.
pub mod RoundTrip
pub mod Sample
mod Tests
use mathlib.Core.Option
use kaonic_comm.Shared.{
  ℕ, ◌+◌, ◌*◌, ◌/◌, ◌%◌, Option, none, some, List, [], ◌∷◌, ◌++◌, length, get_or, drop, resize, ltb,
  ◌==◌, if◌then◌else◌,
}
use kaonic_comm.Messages.{ConfigurationRequest, TransmitRequest, ReceiveResponse}

-- What the generated classes do; `none` is a message that cannot be parsed.
pub record Protobuf : Type 0 where
  pub serialize_config : ConfigurationRequest → List ℕ
  pub parse_config : List ℕ → Option ConfigurationRequest
  pub serialize_transmit : TransmitRequest → List ℕ
  pub parse_transmit : List ℕ → Option TransmitRequest
  pub serialize_receive : ReceiveResponse → List ℕ
  pub parse_receive : List ℕ → Option ReceiveResponse

-- `payload_t`
pub data Payload : Type 0 where
  transmit : TransmitRequest → Payload
  receive : ReceiveResponse → Payload
  config : ConfigurationRequest → Payload
  error_payload : Payload

abbrev pub magic : ℕ
magic = 0x22

-- `packet_type`
pub data PacketType : Type 0 where
  unknown config_type transmit_type receive_type : PacketType

abbrev pub type_code : PacketType → ℕ
type_code unknown = 0
type_code config_type = 1
type_code transmit_type = 2
type_code receive_type = 3

abbrev pub header_size : ℕ
header_size = 20

-- The bytes of a `packet_header` whose `reserved` bytes are `reserved`; the machine is
-- little-endian. `encode` leaves these sixteen bytes as they are on its stack.
pub header_bytes : PacketType → List ℕ → List ℕ
header_bytes type reserved =
    magic % 256 ∷ magic / 256 ∷ type_code type % 256 ∷ type_code type / 256 ∷ resize 0 16 reserved

-- The fields `magic` and `type` of the header that `memcpy` reads.
abbrev pub read_magic : List ℕ → ℕ
read_magic buffer = get_or buffer 0 0 + 256 * get_or buffer 1 0

abbrev pub read_type : List ℕ → ℕ
read_type buffer = get_or buffer 2 0 + 256 * get_or buffer 3 0

-- The branches of the switch: the parsed message, or the error.
abbrev pub or_error {ℓ} : {A : Type ℓ} → (A → Payload) → Option A → Payload
or_error f none = error_payload
or_error f (some a) = f a

module _ (pb : Protobuf) where
  pub decode_body : ℕ → List ℕ → Payload
  decode_body type body =
      if type == type_code config_type
      then or_error config (pb.parse_config body)
      else if type == type_code transmit_type
      then or_error transmit (pb.parse_transmit body)
      else if type == type_code receive_type
      then or_error receive (pb.parse_receive body)
      else error_payload

  unfoldable pub decode : List ℕ → Payload
  unfolding decode_body
  decode buffer =
      if ltb (length buffer) header_size
      then error_payload
      else if read_magic buffer == magic
      then decode_body (read_type buffer) (drop header_size buffer)
      else error_payload

  -- `encode(payload, buffer)`: the new buffer.
  unfoldable pub encode : List ℕ → Payload → List ℕ
  unfolding header_bytes
  encode reserved (config m) = header_bytes config_type reserved ++ pb.serialize_config m
  encode reserved (transmit m) = header_bytes transmit_type reserved ++ pb.serialize_transmit m
  encode reserved (receive m) = header_bytes receive_type reserved ++ pb.serialize_receive m
  encode reserved error_payload = header_bytes unknown reserved
