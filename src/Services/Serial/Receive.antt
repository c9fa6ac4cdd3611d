-- ===== src/Services/Serial/Receive.antt =====
-- What serial_service::receive_frame writes to the port.
use kaonic_comm.Shared.{ℕ, ◌<◌, ◌^◌, ◌≡◌, refl, ap, ◌≢◌, List, arith, length, All, IsByte, get_or}
use kaonic_comm.Radio.{Frame}
use kaonic_comm.Serial.Hdlc.{flag, escape}
use kaonic_comm.Serial.Packet.{
  Protobuf, Payload, config, transmit, receive, error_payload, magic, decode, encode,
}
use kaonic_comm.Serial.Packet.RoundTrip.{IsCodec, decode-encode}
use kaonic_comm.Services.Buffers.{buf_pack}
use kaonic_comm.Services.Buffers.Laws.{buf_pack-buf_unpack}
use kaonic_comm.Services.Serial.{SerialService, receive_frame}

first_byte : List ℕ → ℕ
first_byte bytes = get_or bytes 0 0

-- A packet begins with the magic number, a frame with the flag.
first_byte-encode :
    (pb : Protobuf) (reserved : List ℕ) (p : Payload) → first_byte (encode pb reserved p) ≡ magic
unfolding first_byte encode
first_byte-encode pb reserved (config m) = refl
first_byte-encode pb reserved (transmit m) = refl
first_byte-encode pb reserved (receive m) = refl
first_byte-encode pb reserved error_payload = refl

first_byte-escape : (packet : List ℕ) → first_byte (escape packet) ≡ flag
unfolding first_byte escape
first_byte-escape packet = refl

encode-ne-escape :
    (pb : Protobuf) (reserved : List ℕ) (p : Payload) (packet : List ℕ)
    → encode pb reserved p ≢ escape packet
encode-ne-escape pb reserved p packet e =
    omega (arith, ap first_byte e, first_byte-encode pb reserved p, first_byte-escape packet)

module _ {ℓ} {S : Type ℓ} (pb : Protobuf) (reserved : List ℕ) (s : SerialService S)
    (f : Frame) where
  -- The bytes written decode to a response, and packing its frame gives the bytes of the frame
  -- received, whatever the response held before; protobuf is to parse what it serializes.
  pub receive_frame-decode :
      (buffer : Frame)
      → IsCodec pb
      → All IsByte f
      → length f < 2 ^ 32
      → let (s', written) = receive_frame pb reserved s f in
        (decode pb written ≡ receive s'.rx_response) × (buf_pack s'.rx_response.frame buffer ≡ f)
  unfolding receive_frame
  receive_frame-decode buffer codec bytes fits = (
    decode-encode pb reserved codec _,
    buf_pack-buf_unpack f s.rx_response.frame buffer bytes fits,
  )

  -- The bytes written are the packet and not the frame made of it, which is only stored: they
  -- begin with the magic number, and no packet has a frame of such bytes.
  receive_frame_unframed :
      (packet : List ℕ)
      → ((receive_frame pb reserved s f).1 ≢ escape packet)
        × ((receive_frame pb reserved s f).0.escaped_buffer
            ≡ escape (receive_frame pb reserved s f).1)
  unfolding receive_frame
  receive_frame_unframed packet = (encode-ne-escape pb reserved (receive _) packet, refl)
