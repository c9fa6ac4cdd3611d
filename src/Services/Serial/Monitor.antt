-- ===== src/Services/Serial/Monitor.antt =====
-- What the loop of serial_service::tx can do to the radios.
use kaonic_comm.Shared.{
  ℕ, ◌≡◌, refl, ap, ◌∙◌, ◌⊎◌, inl, inr, false, List, [], ◌∷◌, arith, ◌==◌, Bool-cases,
}
use kaonic_comm.Serial.Hdlc.{Processor, flag, unescape}
use kaonic_comm.Serial.Hdlc.Detector.{update_outside}
use kaonic_comm.Serial.Packet.{Protobuf, error_payload, decode}
use kaonic_comm.Services.RadioPort.{RadioPort}
use kaonic_comm.Services.Serial.{
  SerialService, Round, deliver, is_crc_match, tx_round, tx_from, tx, last_byte,
}

-- A frame that holds a flag alone is decoded to the error payload.
decode_lone_flag : (pb : Protobuf) → decode pb (unescape (flag ∷ [])) ≡ error_payload
unfolding decode unescape
decode_lone_flag pb = refl

module _ {ℓ} {S : Type ℓ} (port : RadioPort S) (pb : Protobuf) where
  deliver_lone_flag :
      (s : SerialService S)
      → s.hdlc_buffer ≡ flag ∷ []
      → let s' = deliver port pb s in
        (s'.radio ≡ s.radio)
        × (s'.hdlc_processor ≡ s.hdlc_processor)
        × (s'.tx_payload ≡ error_payload)
  unfolding deliver
  deliver_lone_flag s h = rw (h, decode_lone_flag pb) (refl, refl, refl)

module _ {ℓ} {S : Type ℓ} where
  -- What a round, or some rounds, leave of the service.
  abbrev pub IsIdle : SerialService S → SerialService S → Type ℓ
  IsIdle s s' =
      (s'.radio ≡ s.radio)
      × (s'.hdlc_processor ≡ s.hdlc_processor)
      × ((s'.tx_payload ≡ s.tx_payload) ⊎ (s'.tx_payload ≡ error_payload))

  -- Rounds that find the detector outside a frame leave it there.
  IsIdle-trans : (s t u : SerialService S) → IsIdle s t → IsIdle t u → IsIdle s u
  IsIdle-trans s t u a b = (b.0 ∙ a.0, b.1 ∙ a.1, ground arith)

module _ {ℓ} {S : Type ℓ} (port : RadioPort S) (pb : Protobuf) (crc32 : List ℕ → ℕ) where
  pub tx_round-IsIdle :
      (s : SerialService S) (byte : ℕ) (r : Round)
      → s.hdlc_processor.in_frame ≡ false
      → IsIdle s (tx_round port pb crc32 s byte r)
  unfolding tx_round
  tx_round-IsIdle s byte r h = elim (Bool-cases (byte == flag)) [
    | inl hit ↦
        rw (update_outside s.hdlc_processor byte s.hdlc_buffer h, hit)
          (elim (Bool-cases (is_crc_match crc32 r (flag ∷ []))) [
            | inl match ↦ rw match (
                let d = deliver_lone_flag port pb (record s { hdlc_buffer = flag ∷ [] }) refl in
                (d.0, d.1, inr d.2))
            | inr clash ↦ rw clash (refl, refl, inl refl)
          ])
    | inr miss ↦
        rw (update_outside s.hdlc_processor byte s.hdlc_buffer h, miss) (refl, refl, inl refl)
  ]

  tx_from-IsIdle :
      (s : SerialService S) (byte : ℕ) (rounds : List Round)
      → s.hdlc_processor.in_frame ≡ false
      → IsIdle s (tx_from port pb crc32 s byte rounds)
  unfolding tx_from
  tx_from-IsIdle s byte [] h = (refl, refl, inl refl)
  tx_from-IsIdle s byte (r ∷ rounds) h =
      let byte' = last_byte byte r.stored in
      let s' = tx_round port pb crc32 s byte' r in
      let first = tx_round-IsIdle s byte' r h in
      IsIdle-trans s s' (tx_from port pb crc32 s' byte' rounds) first (
        tx_from-IsIdle (tx_round port pb crc32 s byte' r) byte' rounds
          (ap (λ (p : Processor). p.in_frame) first.1 ∙ h))

  -- A service whose detector is outside a frame, as it is when constructed, never calls the radio
  -- service from the monitor loop, whatever the port delivers and whatever checksums come with it:
  -- the state of the radio service stays, and the only payload decoded is the error payload.
  pub tx-IsIdle :
      (s : SerialService S) (rounds : List Round)
      → s.hdlc_processor.in_frame ≡ false
      → IsIdle s (tx port pb crc32 s rounds)
  unfolding tx
  tx-IsIdle s rounds h = tx_from-IsIdle s 0 rounds h
