-- ===== src/Services/Radio/Tests.antt =====
-- Instances of the theorems on the radio service, with a network that logs what it transmits.
use kaonic_comm.Shared.{ℕ, ◌≡◌, refl, true, List, [], ◌∷◌}
use kaonic_comm.Failure.{ok}
use kaonic_comm.Radio.{Frame}
use kaonic_comm.Services.Radio.{MeshConfig, NetworkPort, radio_service, frame_received}
use kaonic_comm.Services.Radio.Listeners.{KeepsReceiver, attach_all, frame_received-repeat_each}

record LogNetwork : Type 0 where
  receiver : ℕ
  sent : List Frame

abbrev log_network : NetworkPort ℕ LogNetwork
log_network = record {
  create = λ c r b. record { receiver = b; sent = [] };
  receiver = λ n. n.receiver;
  start = λ n. (ok, n);
  configure = λ n c. (ok, n);
  transmit = λ n f. (ok, record n { sent = f ∷ n.sent });
}

log_network-KeepsReceiver : KeepsReceiver log_network
log_network-KeepsReceiver = record { created = λ c r b. refl; started = λ n. refl }

abbrev idle : LogNetwork
idle = record { receiver = 0; sent = [] }

abbrev mesh_config : MeshConfig
mesh_config = record {
  packet_pattern = 0xb1ee;
  id_base = 0;
  slot_duration = 15;
  gap_duration = 2;
  beacon_interval = 500;
}

abbrev small_frame : Frame
small_frame = 7 ∷ 8 ∷ 9 ∷ 10 ∷ 11 ∷ []

-- With two radios, each of the listeners 5 and 6 hears of a frame twice.
frame_received-repeat_each_example :
    frame_received log_network
      (λ l. true)
      (attach_all (radio_service log_network mesh_config (0 ∷ 1 ∷ [])) (5 ∷ 6 ∷ []))
      1
      small_frame
    ≡ (5, small_frame) ∷ (5, small_frame) ∷ (6, small_frame) ∷ (6, small_frame) ∷ []
unfolding radio_service
frame_received-repeat_each_example =
    frame_received-repeat_each log_network log_network-KeepsReceiver mesh_config (0 ∷ 1 ∷ [])
      (5 ∷ 6 ∷ []) (λ l. true) 1 idle small_frame (λ l. refl) refl
