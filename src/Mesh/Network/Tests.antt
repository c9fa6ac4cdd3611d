-- ===== src/Mesh/Network/Tests.antt =====
-- Instances of the theorems on the mesh network, with a chip that finds the channel free at the
-- second attempt and receives two bytes.
use kaonic_comm.Shared.{
  length, ◌≤◌, ◌<◌, ◌≡◌, ◌≢◌, ◌↔◌, refl, none, some, List, [], ◌∷◌, arith, ℤ, pos, negsuc,
  replicate, ℕ, false,
}
use kaonic_comm.Failure.{ok}
use kaonic_comm.Radio.{Frame, data_max_size}
use kaonic_comm.Radio.Rf215.Registers.{rf09}
use kaonic_comm.Radio.Rf215.Device.{Driver, Rf215Radio}
use kaonic_comm.Radio.Rf215.Device.Transfer.{Succeeds}
use kaonic_comm.Mesh.Interface.{NetworkInterface, rf215_device}
use kaonic_comm.Mesh.Network.{
  interface_port, Network, tx, rx, on_receive, Rfnet, transmit, get_stats,
}
use kaonic_comm.Mesh.Network.Laws.{tx-rf215, rx-rf215, IsFirstFree, transmit-IsFirstFree}

abbrev next_code : List ℤ → ℤ × List ℤ
next_code [] = (pos 0, [])
next_code (z ∷ zs) = (z, zs)

abbrev air_bytes : List ℕ
air_bytes = 8 ∷ 9 ∷ replicate 2046 0

abbrev scripted : Driver (List ℤ)
scripted = record {
  get_trx_by_freq = λ d f. some rf09;
  write_reg = λ d w. d;
  write_reg_set = λ d ws. next_code d;
  set_freq = λ d t f. next_code d;
  cca_tx_frame = λ d t f. next_code d;
  rx = λ d t millis size buffer. (record { rc = pos 0; len = 2; buffer = air_bytes }, d);
}

abbrev configured : Network (NetworkInterface (Rf215Radio (List ℤ)))
configured = record {
  net_interface = record {
    radio = record {
      dev = negsuc 0 ∷ [];
      active_trx = some rf09;
      flt_v1 = false;
      flt_v2 = false;
      tx_counter = 0;
      rx_counter = 0;
    };
    tx_frame = record { len = 0; payload = replicate 2048 0 };
    rx_frame = record { len = 0; payload = [] };
  };
  receiver = some 4;
  net_frame = 6 ∷ [];
}

abbrev three_bytes : List ℕ
three_bytes = 1 ∷ 2 ∷ 3 ∷ []

tx-rf215_example :
    ((tx (interface_port (rf215_device scripted)) configured three_bytes).0 ≡ pos 0) ↔ (
      (3 ≤ data_max_size)
      × Succeeds scripted rf09 (record { len = 3; payload = three_bytes }) 4 (negsuc 0 ∷ []))
tx-rf215_example = tx-rf215 scripted configured rf09 three_bytes refl refl

rx-rf215_example :
    let (rc, memory, n') = rx (interface_port (rf215_device scripted)) configured three_bytes 2 in
    let IsReceived = (pos 0 ≡ pos 0) × (0 < 2) × (2 ≤ 2) in
    (IsReceived → (rc ≡ pos 2) × (memory ≡ 8 ∷ 9 ∷ 3 ∷ []))
    × (¬ IsReceived → (rc ≡ negsuc 0) × (memory ≡ three_bytes))
rx-rf215_example = rx-rf215 scripted configured rf09 three_bytes 2 refl (omega arith) refl

received_frame : (on_receive configured three_bytes).1 ≡ (4, three_bytes) ∷ []
unfolding on_receive
received_frame = refl

-- The state of rfnet is the code of `is_tx_free` and the frames that were sent.
abbrev scripted_rfnet : Rfnet (ℤ × List Frame)
scripted_rfnet = record {
  unset = (pos 1, []);
  init = λ c. (pos 0, []);
  is_tx_free = λ n. n.0;
  send = λ n f. (pos 0, (pos 1, f ∷ n.1));
  get_stats = λ n. record { tx_speed = 0; rx_speed = 0; rx_counter = 0; tx_counter = length n.1 };
  reset = λ n. n;
}

transmit-IsFirstFree_example :
    let n : ℤ × List Frame = (pos 1, []) in
    let later : List (ℤ × List Frame) = (negsuc 0, []) ∷ (pos 0, []) ∷ [] in
    ((transmit scripted_rfnet n later three_bytes ≢ none)
      ↔ ((m : ℤ × List Frame) × IsFirstFree scripted_rfnet n later m))
    × ((m : ℤ × List Frame)
        → IsFirstFree scripted_rfnet n later m
        → transmit scripted_rfnet n later three_bytes ≡ some (ok, (pos 1, three_bytes ∷ m.1)))
transmit-IsFirstFree_example =
    transmit-IsFirstFree scripted_rfnet (pos 1, []) ((negsuc 0, []) ∷ (pos 0, []) ∷ []) three_bytes

counted_stats : (get_stats scripted_rfnet (pos 0, three_bytes ∷ three_bytes ∷ [])).tx_counter ≡ 2
unfolding get_stats
counted_stats = refl
