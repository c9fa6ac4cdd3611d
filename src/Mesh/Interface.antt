-- ===== src/Mesh/Interface.antt =====
-- radio_network_interface of kaonic/src/comm/mesh/radio_network.cpp: frames of a mesh network as
-- frames of a radio. The radio is a parameter; rf215_radio is one.
pub mod Laws
mod Tests
use kaonic_comm.Shared.{
  ℕ, Bool, true, false, List, [], ◌∷◌, length, take, resize, memcpy, ltb, if◌then◌else◌,
}
use kaonic_comm.Failure.{Error, ok, invalid_arg, timeout, is_ok}
use kaonic_comm.Radio.{RadioConfig, Frame, RadioFrame, data_max_size}
use kaonic_comm.Radio.Rf215.Device.{Driver, Rf215Radio}
use kaonic_comm.Radio.Rf215.Device

-- `radio`: `receive` gives the error, the frame and the radio.
pub record RadioDevice {ℓ} (R : Type ℓ) : Type ℓ where
  pub configure : R → RadioConfig → Error × R
  pub transmit : R → RadioFrame → Error × R
  pub receive : R → RadioFrame → ℕ → Error × RadioFrame × R

unfoldable pub rf215_device {ℓ} : {D : Type ℓ} → Driver D → RadioDevice (Rf215Radio D)
rf215_device driver = record {
  configure = Device.configure driver;
  transmit = Device.transmit driver;
  receive = Device.receive driver;
}

abbrev pub rx_timeout : ℕ
rx_timeout = 1

-- `radio_network_interface`
pub record NetworkInterface {ℓ} (R : Type ℓ) : Type ℓ where
  pub radio : R
  pub tx_frame : RadioFrame
  pub rx_frame : RadioFrame

module _ {ℓ} {R : Type ℓ} (device : RadioDevice R) where
  unfoldable pub transmit : NetworkInterface R → Frame → Error × NetworkInterface R
  transmit s frame =
      if ltb data_max_size (length frame)
      then (invalid_arg, s)
      else (let packed : RadioFrame = record {
        len = length frame;
        payload = memcpy s.tx_frame.payload frame;
      } in
          let (err, radio) = device.transmit s.radio packed in
          (if is_ok err then ok else err, record s { radio = radio; tx_frame = packed }))

  -- `receive(frame)`: the error, the frame and the interface. A length above that of the array,
  -- behind which the copy would read, reads nothing here.
  unfoldable pub receive : NetworkInterface R → Frame → Error × Frame × NetworkInterface R
  receive s frame =
      let (err, got, radio) = device.receive s.radio s.rx_frame rx_timeout in
      let s' = record s { radio = radio; rx_frame = got } in
      if is_ok err
      then (ok, memcpy (resize 0 got.len frame) (take got.len got.payload), s')
      else (timeout, frame, s')
