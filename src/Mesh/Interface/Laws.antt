-- ===== src/Mesh/Interface/Laws.antt =====
-- What radio_network_interface hands to a radio and takes from it, also over rf215_radio.
use kaonic_comm.Shared.{
  ℕ, zero, suc, ◌≤◌, ◌<◌, ◌≡◌, refl, ap, ◌∙◌, sym, ◌↔◌, ◌⊎◌, some, List, [], ◌∷◌, arith, length,
  take, resize, memcpy, memcpy_whole, length-resize, if◌then◌else◌, ◌≢◌, le→not-ltb, lt→ltb, pos,
}
use kaonic_comm.Failure.{Error, ok, fail, invalid_arg, timeout, is_ok}
use kaonic_comm.Radio.{Frame, RadioFrame, data_max_size}
use kaonic_comm.Radio.Rf215.Registers.{TrxType}
use kaonic_comm.Radio.Rf215.Device.{Driver, Rf215Radio}
use kaonic_comm.Radio.Rf215.Device.Transfer.{Succeeds, transmit_lem, receive_lem}
use kaonic_comm.Mesh.Interface.{
  RadioDevice, NetworkInterface, rf215_device, transmit, receive, rx_timeout,
}

module _ {ℓ} {A : Type ℓ} where
  take-memcpy :
      (dst src : List A) → length src ≤ length dst → take (length src) (memcpy dst src) ≡ src
  take-memcpy dst [] h = refl
  take-memcpy [] (s ∷ src) h = absurd (omega arith)
  take-memcpy (d ∷ dst) (s ∷ src) h = ap (λ r. s ∷ r) (take-memcpy dst src (omega arith))

  pub length-take : (n : ℕ) (xs : List A) → n ≤ length xs → length (take n xs) ≡ n
  length-take zero xs h = refl
  length-take (suc n) [] h = absurd (omega arith)
  length-take (suc n) (x ∷ xs) h = ap suc (length-take n xs (omega arith))

is_ok_else : (err : Error) → (if is_ok err then ok else err) ≡ err
unfolding is_ok
is_ok_else err = ground arith

-- What the radio is to hold of a frame.
abbrev pub packed_over : RadioFrame → Frame → RadioFrame
packed_over old frame = record { len = length frame; payload = memcpy old.payload frame }

module _ {ℓ} {R : Type ℓ} (device : RadioDevice R) (s : NetworkInterface R) where
  transmit_fits :
      (frame : Frame)
      → length frame ≤ data_max_size
      → let packed = packed_over s.tx_frame frame in
        transmit device s frame ≡ (
          (device.transmit s.radio packed).0,
          record s { radio = (device.transmit s.radio packed).1; tx_frame = packed },
        )
  unfolding transmit
  transmit_fits frame h = rw (le→not-ltb data_max_size (length frame) h, is_ok_else _)

  transmit_too_long :
      (frame : Frame) → data_max_size < length frame → transmit device s frame ≡ (invalid_arg, s)
  unfolding transmit
  transmit_too_long frame h = rw (lt→ltb data_max_size (length frame) h)

  receive_ok :
      (frame : Frame) (got : RadioFrame)
      → (device.receive s.radio s.rx_frame rx_timeout).0 ≡ ok
      → (device.receive s.radio s.rx_frame rx_timeout).1 ≡ got
      → got.len ≤ length got.payload
      → ((receive device s frame).0 ≡ ok) × ((receive device s frame).1 ≡ take got.len got.payload)
  unfolding receive is_ok
  receive_ok frame got e g h =
      rw (e, g)
        (
          refl,
          memcpy_whole (resize 0 _ frame) (take _ _)
              (length-resize 0 _ frame ∙ sym (length-take _ _ h)),
        )

  receive_ok_iff :
      (frame : Frame)
      → ((receive device s frame).0 ≡ ok) ↔ ((device.receive s.radio s.rx_frame rx_timeout).0 ≡ ok)
  unfolding receive is_ok
  receive_ok_iff frame = ground arith

  -- The error of the radio becomes a timeout, and the frame stays.
  receive_refused :
      (frame : Frame)
      → (device.receive s.radio s.rx_frame rx_timeout).0 ≢ ok
      → ((receive device s frame).0 ≡ timeout) × ((receive device s frame).1 ≡ frame)
  unfolding receive is_ok
  receive_refused frame e = ground arith

module _ {ℓ} {D : Type ℓ} (driver : Driver D) (s : NetworkInterface (Rf215Radio D))
    (trx : TrxType) where
  -- Over a configured rf215 radio, a frame of at most 2048 bytes is transmitted exactly if one of
  -- four attempts finds the channel free, and each attempt is given the bytes of the frame and no
  -- others, whatever the buffer held before; otherwise the error is `fail`. A longer frame is
  -- refused, and nothing changes.
  pub transmit-rf215 :
      (frame : Frame)
      → s.radio.active_trx ≡ some trx
      → length s.tx_frame.payload ≡ data_max_size
      → let whole : RadioFrame = record { len = length frame; payload = frame } in
        let (err, s') = transmit (rf215_device driver) s frame in
        (length frame ≤ data_max_size
          → ((err ≡ ok) ↔ Succeeds driver trx whole 4 s.radio.dev) × ((err ≡ ok) ⊎ (err ≡ fail)))
        × (data_max_size < length frame → (err ≡ invalid_arg) × (s' ≡ s))
  unfolding rf215_device
  transmit-rf215 frame a size = (
    λ h.
        let sent = transmit_lem driver s.radio trx (packed_over s.tx_frame frame) a in
        rw (transmit_fits (rf215_device driver) s frame h) (
          let (p, q, c) = (rw (take-memcpy s.tx_frame.payload frame (omega arith)) at sent) in
          (p, q)),
    λ h. rw (transmit_too_long (rf215_device driver) s frame h) (refl, refl),
  )

  -- Over a configured rf215 radio, a frame is received exactly if the driver returns 0 and a length
  -- above 0, and holds the bytes that the driver stored up to that length, whatever it held before;
  -- otherwise the error is `timeout` and the frame stays. The length that the driver returns is
  -- taken to be no more than that of the buffer.
  pub receive-rf215 :
      (frame : Frame)
      → s.radio.active_trx ≡ some trx
      → let got = (driver.rx s.radio.dev trx 1 data_max_size s.rx_frame.payload).0 in
        got.len ≤ length got.buffer
        → let (err, frame', s') = receive (rf215_device driver) s frame in
          ((err ≡ ok) ↔ ((got.rc ≡ pos 0) × (0 < got.len)))
          × ((err ≡ ok) → frame' ≡ take got.len got.buffer)
          × ((err ≢ ok) → (err ≡ timeout) × (frame' ≡ frame))
  unfolding rf215_device
  receive-rf215 frame a h =
      let device = rf215_device driver in
      let taken = receive_lem driver s.radio trx s.rx_frame rx_timeout a in
      let same = receive_ok_iff device s frame in
      (
        (λ e. taken.0.0 (same.0 e), λ g. same.1 (taken.0.1 g)),
        λ e. (receive_ok device s frame _ (same.0 e) (taken.1 (same.0 e)).0 h).1,
        λ e. receive_refused device s frame (λ k. e (same.1 k)),
      )
