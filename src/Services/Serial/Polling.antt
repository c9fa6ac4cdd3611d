-- ===== src/Services/Serial/Polling.antt =====
-- The loop of serial_service::tx over the serial port itself: which reads it makes, and what it takes
-- from them. Services/Serial has the loop over what the reads bring.
use kaonic_comm.Shared.{
  ℕ, zero, suc, ◌≡◌, refl, ap₂, ◌∙◌, false, some, List, [], ◌∷◌, ℤ, ◌==◌, Bool-cases, inl, inr,
  if◌then◌else◌, get_or, replicate, u32,
}
use kaonic_comm.Serial.Hdlc.{update}
use kaonic_comm.Serial.Packet.{Protobuf}
use kaonic_comm.Serial.Port.Transfer.{Io, read_port, close_port}
use kaonic_comm.Services.Buffers.{bytes_words}
use kaonic_comm.Services.RadioPort.{RadioPort}
use kaonic_comm.Services.Serial.{SerialService, Round, deliver, tx_round, tx_from, tx}
use kaonic_comm.Services.Serial.Monitor.{IsIdle, tx-IsIdle}

-- The service, the variable `byte`, and the system behind the port.
pub record Polled {ℓ} (S W : Type ℓ) : Type ℓ where
  pub service : SerialService S
  pub byte : ℕ
  pub system : W

abbrev pub rx_timeout : ℕ
rx_timeout = 100

module _ {ℓ} {S W : Type ℓ} (port : RadioPort S) (pb : Protobuf) (crc32 : List ℕ → ℕ) (k : ℕ)
    (io : Io W) (fd : ℤ) where
  -- One pass: a byte, and behind a whole frame the four bytes of its checksum.
  pub poll : Polled S W → Polled S W
  poll v =
      let (count, memory, w) = read_port k io fd v.system (v.byte ∷ []) 1 rx_timeout in
      let byte = get_or memory 0 0 in
      let (p, buffer, done) = update v.service.hdlc_processor byte v.service.hdlc_buffer in
      let s = record v.service { hdlc_processor = p; hdlc_buffer = buffer } in
      let (crc_count, crc, w') = read_port k io fd w (replicate 4 0) 4 rx_timeout in
      let matched = u32 (get_or (bytes_words crc) 0 0) == u32 (crc32 buffer) in
      let answered = if crc_count == 4 then (if matched then deliver port pb s else s) else s in
      if done
      then record { service = answered; byte = byte; system = w' }
      else record { service = s; byte = byte; system = w }

  -- So many passes.
  pub poll_all : ℕ → Polled S W → Polled S W
  poll_all zero v = v
  poll_all (suc n) v = poll_all n (poll v)

  -- What a pass reads.
  abbrev pub round_of : Polled S W → Round
  round_of v =
      let (count, memory, w) = read_port k io fd v.system (v.byte ∷ []) 1 rx_timeout in
      let (crc_count, crc, w') = read_port k io fd w (replicate 4 0) 4 rx_timeout in
      record {
        stored = some (get_or memory 0 0);
        crc_count = crc_count;
        expected_crc = get_or (bytes_words crc) 0 0;
      }

  -- The byte that a pass goes by.
  abbrev pub byte_of : Polled S W → ℕ
  byte_of v = get_or (read_port k io fd v.system (v.byte ∷ []) 1 rx_timeout).1 0 0

  poll-tx_round :
      (v : Polled S W)
      → ((poll v).service ≡ tx_round port pb crc32 v.service (byte_of v) (round_of v))
        × ((poll v).byte ≡ byte_of v)
  unfolding poll tx_round
  poll-tx_round v =
      elim (Bool-cases (update v.service.hdlc_processor (byte_of v) v.service.hdlc_buffer).2) [
        | inl whole ↦ elim (Bool-cases ((round_of v).crc_count == 4)) [
          | inl full ↦ rw (whole, full) (refl, refl)
          | inr short ↦ rw (whole, short) (refl, refl)
        ]
        | inr partial ↦ rw partial (refl, refl)
      ]

  poll_all-tx_from :
      (n : ℕ) (v : Polled S W)
      → (rounds : List Round) × ((poll_all n v).service
          ≡ tx_from port pb crc32 v.service v.byte rounds)
  unfolding poll_all tx_from
  poll_all-tx_from zero v = ([], refl)
  poll_all-tx_from (suc n) v =
      let (service, byte) = poll-tx_round v in
      let (rounds, same) = poll_all-tx_from n (poll v) in
      (round_of v ∷ rounds, same ∙ ap₂ (λ s b. tx_from port pb crc32 s b rounds) service byte)

  -- The monitor loop never calls the radio service, over whatever port: after any number of passes of
  -- a service whose detector is outside a frame, as it is when constructed, the state of the radio
  -- service and the detector are as before, and the only payload decoded is the error payload.
  pub poll_all-IsIdle :
      (n : ℕ) (s : SerialService S) (w : W)
      → s.hdlc_processor.in_frame ≡ false
      → IsIdle s (poll_all n (record { service = s; byte = 0; system = w })).service
  unfolding tx
  poll_all-IsIdle n s w outside =
      let (rounds, same) = poll_all-tx_from n (record { service = s; byte = 0; system = w }) in
      rw same (tx-IsIdle port pb crc32 s rounds outside)

module _ {ℓ} {W : Type ℓ} (io : Io W) where
  -- `~serial_service`
  pub destroy : ℤ → W → W
  destroy fd w = close_port io fd w
