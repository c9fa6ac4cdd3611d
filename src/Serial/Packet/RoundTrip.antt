-- ===== src/Serial/Packet/RoundTrip.antt =====
-- packet::decode undoes packet::encode, alone and through the framing.
use kaonic_comm.Shared.{
  ℕ, zero, suc, ◌≤◌, ◌≡◌, refl, ap, ◌∙◌, ◌≢◌, some, List, [], ◌∷◌, ◌++◌, append-nil, arith, length,
  length-append, drop, resize, length-resize, ltb, le→not-ltb, true, false, ◌↔◌, ◌==◌,
}
use kaonic_comm.Messages.{ConfigurationRequest, TransmitRequest, ReceiveResponse}
use kaonic_comm.Serial.Packet.{
  Protobuf, Payload, config, transmit, receive, error_payload, magic, PacketType, unknown,
  config_type, transmit_type, receive_type, type_code, header_bytes, header_size, read_magic,
  read_type, or_error, decode_body, decode, encode,
}
use kaonic_comm.Serial.Hdlc.{escape, unescape}
use kaonic_comm.Serial.Hdlc.RoundTrip.{unescape-escape}

-- The payload is the message of the type that the header names.
abbrev pub IsBody : Protobuf → ℕ → List ℕ → Payload → Type 0
IsBody pb type body (config m) = (type ≡ 1) × (pb.parse_config body ≡ some m)
IsBody pb type body (transmit m) = (type ≡ 2) × (pb.parse_transmit body ≡ some m)
IsBody pb type body (receive m) = (type ≡ 3) × (pb.parse_receive body ≡ some m)
IsBody pb type body error_payload = ⊥

-- Protobuf's promise: parsing what was serialized gives the message.
pub record IsCodec (pb : Protobuf) : Type 0 where
  pub config_back : (m : ConfigurationRequest) → pb.parse_config (pb.serialize_config m) ≡ some m
  pub transmit_back : (m : TransmitRequest) → pb.parse_transmit (pb.serialize_transmit m) ≡ some m
  pub receive_back : (m : ReceiveResponse) → pb.parse_receive (pb.serialize_receive m) ≡ some m

drop-resize : (n : ℕ) (xs body : List ℕ) → drop n (resize 0 n xs ++ body) ≡ body
drop-resize zero xs body = refl
drop-resize (suc n) [] body = drop-resize n [] body
drop-resize (suc n) (x ∷ xs) body = drop-resize n xs body

drop-header_bytes :
    (type : PacketType) (reserved body : List ℕ)
    → drop header_size (header_bytes type reserved ++ body) ≡ body
unfolding header_bytes
drop-header_bytes type reserved body = drop-resize 16 reserved body

header_bytes-fits :
    (type : PacketType) (reserved body : List ℕ)
    → ltb (length (header_bytes type reserved ++ body)) header_size ≡ false
unfolding header_bytes
header_bytes-fits type reserved body =
    le→not-ltb _ header_size
      (omega (arith, length-append (resize 0 16 reserved) body, length-resize {0} 0 16 reserved))

header_bytes-magic :
    (type : PacketType) (reserved body : List ℕ)
    → (read_magic (header_bytes type reserved ++ body) == magic) ≡ true
unfolding header_bytes
header_bytes-magic type reserved body = refl

header_bytes-type :
    (type : PacketType) (reserved body : List ℕ)
    → read_type (header_bytes type reserved ++ body) ≡ type_code type
unfolding header_bytes
header_bytes-type unknown reserved body = refl
header_bytes-type config_type reserved body = refl
header_bytes-type transmit_type reserved body = refl
header_bytes-type receive_type reserved body = refl

-- A buffer that begins with a header is decoded by the header's type.
decode-header_bytes :
    (pb : Protobuf) (type : PacketType) (reserved body : List ℕ)
    → decode pb (header_bytes type reserved ++ body) ≡ decode_body pb (type_code type) body
unfolding decode
decode-header_bytes pb type reserved body = rw (header_bytes-fits type reserved body) (
    rw (header_bytes-magic type reserved body)
      (rw (header_bytes-type type reserved body, drop-header_bytes type reserved body)))

module _ (pb : Protobuf) (reserved : List ℕ) where
  -- Decoding what was encoded gives the payload, the error payload included, whatever the
  -- reserved bytes hold, if protobuf parses what it serializes.
  pub decode-encode : IsCodec pb → (p : Payload) → decode pb (encode pb reserved p) ≡ p
  unfolding encode decode_body
  decode-encode c (config m) =
      decode-header_bytes pb config_type reserved (pb.serialize_config m)
      ∙ ap (or_error config) (c.config_back m)
  decode-encode c (transmit m) =
      decode-header_bytes pb transmit_type reserved (pb.serialize_transmit m)
      ∙ ap (or_error transmit) (c.transmit_back m)
  decode-encode c (receive m) =
      decode-header_bytes pb receive_type reserved (pb.serialize_receive m)
      ∙ ap (or_error receive) (c.receive_back m)
  decode-encode c error_payload =
      rw (← append-nil (header_bytes unknown reserved)) (decode-header_bytes pb unknown reserved [])

  -- The same through the framing, with any bytes behind the frame.
  pub decode-unescape-escape-encode :
      IsCodec pb
      → (p : Payload) (rest : List ℕ)
      → decode pb (unescape (escape (encode pb reserved p) ++ rest)) ≡ p
  decode-unescape-escape-encode c p rest =
      ap (decode pb) (unescape-escape (encode pb reserved p) rest) ∙ decode-encode c p

-- What a buffer that is not rejected must hold: a whole header with the magic number, one of the
-- three types, and a body that protobuf parses as that type's message.
abbrev pub IsDecoded : Protobuf → List ℕ → Payload → Type 0
IsDecoded pb buffer p =
    (header_size ≤ length buffer)
    × (read_magic buffer ≡ magic)
    × IsBody pb (read_type buffer) (drop header_size buffer) p

decode_body-IsBody :
    (pb : Protobuf) (type : ℕ) (body : List ℕ) (p : Payload)
    → decode_body pb type body ≡ p
    → p ≢ error_payload
    → IsBody pb type body p
unfolding decode_body
decode_body-IsBody pb type body (config m) h k = ground arith
decode_body-IsBody pb type body (transmit m) h k = ground arith
decode_body-IsBody pb type body (receive m) h k = ground arith
decode_body-IsBody pb type body error_payload h k = k refl

decode_sound :
    (pb : Protobuf) (buffer : List ℕ) (p : Payload)
    → decode pb buffer ≡ p
    → p ≢ error_payload
    → IsDecoded pb buffer p
unfolding decode
decode_sound pb buffer p h k =
    ground (arith, decode_body-IsBody pb (read_type buffer) (drop header_size buffer) p)

decode_complete :
    (pb : Protobuf) (buffer : List ℕ) (p : Payload) → IsDecoded pb buffer p → decode pb buffer ≡ p
unfolding decode decode_body
decode_complete pb buffer (config m) h = ground arith
decode_complete pb buffer (transmit m) h = ground arith
decode_complete pb buffer (receive m) h = ground arith
decode_complete pb buffer error_payload h = absurd h.2

-- `decode` gives a message exactly for the buffers that hold one: a whole header with the magic
-- number, one of the three types, and a body that parses as that type's message.
pub decode-eq :
    (pb : Protobuf) (buffer : List ℕ) (p : Payload)
    → p ≢ error_payload
    → (decode pb buffer ≡ p) ↔ IsDecoded pb buffer p
decode-eq pb buffer p k = (λ h. decode_sound pb buffer p h k, decode_complete pb buffer p)
