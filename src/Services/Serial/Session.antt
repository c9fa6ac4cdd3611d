-- ===== src/Services/Serial/Session.antt =====
-- The monitor thread of a serial service and the thread of `update`, which calls its listener, over
-- one service.
use kaonic_comm.Shared.{
  ℕ, ◌<◌, ◌^◌, ◌≡◌, refl, sym, ap, ◌∙◌, false, Bool-cases, Option, none, some, List, [], ◌∷◌, ◌++◌,
  map, map-append, append-nil, append_assoc, length, All, IsByte, inl, inr,
}
use kaonic_comm.Radio.{Frame}
use kaonic_comm.Serial.Hdlc.{update, unescape, Processor}
use kaonic_comm.Serial.Packet.{Protobuf, Payload, transmit, receive, config, error_payload, decode}
use kaonic_comm.Serial.Packet.RoundTrip.{IsCodec}
use kaonic_comm.Services.Buffers.{buf_pack}
use kaonic_comm.Services.RadioPort.{RadioPort}
use kaonic_comm.Services.Serial.{
  SerialService, Round, handle_packet, deliver, is_crc_match, tx_round, receive_frame, on_receive,
  last_byte, serial_service,
}
use kaonic_comm.Services.Serial.Monitor.{tx_round-IsIdle}
use kaonic_comm.Services.Serial.Receive.{receive_frame-decode}

-- What happens to the service: a pass of the monitor loop, with what it reads, or a frame from a
-- radio, with what lies on the stack when the packet is built.
pub data Event : Type 0 where
  polled : Round → Event
  heard : List ℕ → Frame → Event

-- The service, the variable `byte` of the loop, and the packets written so far.
pub record Session {ℓ} (S : Type ℓ) : Type ℓ where
  pub service : SerialService S
  pub byte : ℕ
  pub written : List (List ℕ)

abbrev pub opened {ℓ} : {S : Type ℓ} → S → Session S
opened radio = record { service = serial_service radio; byte = 0; written = [] }

module _ {ℓ} {S : Type ℓ} (port : RadioPort S) (pb : Protobuf) (crc32 : List ℕ → ℕ) where
  unfoldable pub handle : Session S → Event → Session S
  handle v (polled r) =
      let byte' = last_byte v.byte r.stored in
      record v { service = tx_round port pb crc32 v.service byte' r; byte = byte' }
  handle v (heard reserved f) =
      let (s, packet) = on_receive pb reserved v.service f in
      record v { service = s; written = v.written ++ packet ∷ [] }

  unfoldable pub handle_all : Session S → List Event → Session S
  unfolding handle
  handle_all v [] = v
  handle_all v (e ∷ events) = handle_all (handle v e) events

-- The service behind a frame from a radio, and the packet for the port.
module _ {ℓ} {S : Type ℓ} (port : RadioPort S) (pb : Protobuf) (reserved : List ℕ) (f : Frame) where
  -- A service and what becomes of it, apart from each other's part.
  abbrev Apart : SerialService S → SerialService S → (SerialService S → SerialService S) → Type ℓ
  Apart s t g =
      (g (receive_frame pb reserved s f).0 ≡ (receive_frame pb reserved t f).0)
      × ((receive_frame pb reserved t f).1 ≡ (receive_frame pb reserved s f).1)

  handle_packet-Apart :
      (s : SerialService S) (p : Payload)
      → Apart s (handle_packet port s p) (λ x. handle_packet port x p)
  unfolding handle_packet receive_frame
  handle_packet-Apart s (config m) = (refl, refl)
  handle_packet-Apart s (transmit m) = (refl, refl)
  handle_packet-Apart s (receive m) = (refl, refl)
  handle_packet-Apart s error_payload = (refl, refl)

  deliver-Apart : (s : SerialService S) → Apart s (deliver port pb s) (deliver port pb)
  unfolding deliver receive_frame
  deliver-Apart s =
      let unescaped = unescape s.hdlc_buffer in
      let payload = decode pb unescaped in
      handle_packet-Apart (record s { unescaped_buffer = unescaped; tx_payload = payload }) payload

module _ {ℓ} {S : Type ℓ} (port : RadioPort S) (pb : Protobuf) (crc32 : List ℕ → ℕ) where
  -- A pass of the loop and a frame from a radio do not touch each other's part of the service: in
  -- either order they leave the same service, and write the same packet to the port.
  pub tx_round-receive_frame :
      (s : SerialService S) (byte : ℕ) (r : Round) (reserved : List ℕ) (f : Frame)
      → (tx_round port pb crc32 (receive_frame pb reserved s f).0 byte r
          ≡ (receive_frame pb reserved (tx_round port pb crc32 s byte r) f).0)
        × ((receive_frame pb reserved (tx_round port pb crc32 s byte r) f).1
            ≡ (receive_frame pb reserved s f).1)
  unfolding tx_round receive_frame
  tx_round-receive_frame s byte r reserved f =
      let (p, buffer, done) = update s.hdlc_processor byte s.hdlc_buffer in
      let s' = record s { hdlc_processor = p; hdlc_buffer = buffer } in
      elim (Bool-cases done) [
        | inl whole ↦ elim (Bool-cases (is_crc_match crc32 r buffer)) [
          | inl match ↦ rw (whole, match) (deliver-Apart port pb reserved f s')
          | inr clash ↦ rw (whole, clash) (refl, refl)
        ]
        | inr partial ↦ rw partial (refl, refl)
      ]

-- The frames of the events.
abbrev pub heard_frames : List Event → List Frame
heard_frames [] = []
heard_frames (polled r ∷ events) = heard_frames events
heard_frames (heard reserved f ∷ events) = f ∷ heard_frames events

-- The frame in a packet, as a client reads it from the port.
unfoldable pub carried : Protobuf → List ℕ → Option Frame
carried pb packet = elim (decode pb packet) [
  | transmit m ↦ none
  | receive m ↦ some (buf_pack m.frame [])
  | config m ↦ none
  | error_payload ↦ none
]

abbrev pub IsFrame : Frame → Type 0
IsFrame f = All IsByte f × (length f < 2 ^ 32)

module _ {ℓ} {S : Type ℓ} (port : RadioPort S) (pb : Protobuf) (crc32 : List ℕ → ℕ) where
  heard-carried :
      (s : SerialService S) (reserved : List ℕ) (f : Frame)
      → IsCodec pb
      → IsFrame f
      → carried pb (receive_frame pb reserved s f).1 ≡ some f
  unfolding carried
  heard-carried s reserved f codec (bytes, fits) =
      let (decoded, packed) = receive_frame-decode pb reserved s f [] codec bytes fits in
      rw (decoded, carried) (ap some packed)

  -- What the events leave of the radio service and the detector, and what they write.
  abbrev Kept : Session S → List Event → Type ℓ
  Kept v events =
      let v' = handle_all port pb crc32 v events in
      (v'.service.radio ≡ v.service.radio)
      × (map (carried pb) v'.written ≡ map (carried pb) v.written ++ map some (heard_frames events))

  handle_all_lem :
      (v : Session S) (events : List Event)
      → IsCodec pb
      → All IsFrame (heard_frames events)
      → v.service.hdlc_processor.in_frame ≡ false
      → Kept v events
  unfolding handle_all receive_frame
  handle_all_lem v [] codec frames outside = (refl, sym (append-nil _))
  handle_all_lem v (polled r ∷ events) codec frames outside =
      let byte' = last_byte v.byte r.stored in
      let idle = tx_round-IsIdle port pb crc32 v.service byte' r outside in
      let still = ap (λ (p : Processor). p.in_frame) idle.1 ∙ outside in
      let rest = handle_all_lem (handle port pb crc32 v (polled r)) events codec frames still in
      (rest.0 ∙ idle.0, rest.1)
  handle_all_lem v (heard reserved f ∷ events) codec frames outside =
      let packet = (receive_frame pb reserved v.service f).1 in
      let rest =
        handle_all_lem (handle port pb crc32 v (heard reserved f)) events codec frames.1 outside in
      let one = heard-carried v.service reserved f codec frames.0 in
      (rest.0, rest.1 ∙ simp (map-append, append_assoc, one) refl)

  -- A session of a service that was just constructed: whatever the port delivers to the monitor loop,
  -- and whatever frames of bytes, of sizes below 2^32, the radios hear, in whatever order, the state
  -- of the radio service stays, and what is written to the port is one packet for each frame, without
  -- framing and in their order, that decodes to a response with the bytes of the frame. Protobuf is
  -- to parse what it serializes.
  pub handle_all-carried :
      (radio : S) (events : List Event)
      → IsCodec pb
      → All IsFrame (heard_frames events)
      → let v = handle_all port pb crc32 (opened radio) events in
        (v.service.radio ≡ radio) × (map (carried pb) v.written ≡ map some (heard_frames events))
  unfolding serial_service
  handle_all-carried radio events codec frames =
      handle_all_lem (opened radio) events codec frames refl
