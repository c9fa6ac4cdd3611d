-- ===== src/Mesh/Interface/Tests.antt =====
-- Instances of the theorems on radio_network_interface, with a chip that finds the channel free at
-- the second attempt and receives two bytes.
use kaonic_comm.Shared.{
  ◌≤◌, ◌<◌, ◌≡◌, ◌≢◌, ◌↔◌, ◌⊎◌, refl, false, some, List, [], ◌∷◌, arith, ℤ, pos, negsuc, replicate,
}
use kaonic_comm.Failure.{ok, fail, invalid_arg, timeout}
use kaonic_comm.Radio.{Frame, data_max_size}
use kaonic_comm.Radio.Rf215.Registers.{rf09}
use kaonic_comm.Radio.Rf215.Device.{Driver, Rf215Radio}
use kaonic_comm.Radio.Rf215.Device.Transfer.{Succeeds}
use kaonic_comm.Mesh.Interface.{NetworkInterface, rf215_device, transmit, receive}
use kaonic_comm.Mesh.Interface.Laws.{transmit-rf215, receive-rf215}

abbrev next_code : List ℤ → ℤ × List ℤ
next_code [] = (pos 0, [])
next_code (z ∷ zs) = (z, zs)

abbrev scripted : Driver (List ℤ)
scripted = record {
  get_trx_by_freq = λ d f. some rf09;
  write_reg = λ d w. d;
  write_reg_set = λ d ws. next_code d;
  set_freq = λ d t f. next_code d;
  cca_tx_frame = λ d t f. next_code d;
  rx = λ d t millis size buffer. (record { rc = pos 0; len = 2; buffer = 8 ∷ 9 ∷ 5 ∷ [] }, d);
}

abbrev configured : NetworkInterface (Rf215Radio (List ℤ))
configured = record {
  radio = record {
    dev = negsuc 0 ∷ [];
    active_trx = some rf09;
    flt_v1 = false;
    flt_v2 = false;
    tx_counter = 0;
    rx_counter = 0;
  };
  tx_frame = record { len = 0; payload = replicate 2048 0 };
  rx_frame = record { len = 0; payload = [] };
}

abbrev three_bytes : Frame
three_bytes = 1 ∷ 2 ∷ 3 ∷ []

transmit-rf215_example :
    let (err, s') = transmit (rf215_device scripted) configured three_bytes in
    (3 ≤ data_max_size
      → ((err ≡ ok)
          ↔ Succeeds scripted rf09 (record { len = 3; payload = three_bytes }) 4 (negsuc 0 ∷ []))
        × ((err ≡ ok) ⊎ (err ≡ fail)))
    × (data_max_size < 3 → (err ≡ invalid_arg) × (s' ≡ configured))
transmit-rf215_example = transmit-rf215 scripted configured rf09 three_bytes refl refl

receive-rf215_example :
    let (err, frame, s') = receive (rf215_device scripted) configured three_bytes in
    ((err ≡ ok) ↔ ((pos 0 ≡ pos 0) × (0 < 2)))
    × ((err ≡ ok) → frame ≡ 8 ∷ 9 ∷ [])
    × ((err ≢ ok) → (err ≡ timeout) × (frame ≡ three_bytes))
receive-rf215_example = receive-rf215 scripted configured rf09 three_bytes refl (omega arith)
