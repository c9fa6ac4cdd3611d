-- ===== src/Mesh/Node/Tests.antt =====
-- Instances of the theorems on the nodes: the rfnet of module 1 is free when the lock is taken again.
use kaonic_comm.Shared.{
  length, ℕ, ◌≡◌, ◌≢◌, ◌↔◌, refl, true, some, List, [], ◌∷◌, ◌==◌, get_elem?, arith, if◌then◌else◌,
  ℤ, pos,
}
use kaonic_comm.Failure.{ok}
use kaonic_comm.Messages.{FrameMessage}
use kaonic_comm.Radio.{Frame, RadioFrame}
use kaonic_comm.Mesh.Interface.{RadioDevice}
use kaonic_comm.Mesh.Network.{Rfnet}
use kaonic_comm.Mesh.Identity.{gen_id}
use kaonic_comm.Mesh.Node.{Node, node_port, create, start}
use kaonic_comm.Mesh.Node.Laws.{client_frame_sent, ids_differ, node_port-KeepsReceiver}
use kaonic_comm.Services.Radio.Listeners.{attach_all, frame_received-repeat_each}
use kaonic_comm.Services.Buffers.{grpc_buf_unpack}
use kaonic_comm.Services.Grpc.{GrpcService}
use kaonic_comm.Services.Grpc
use kaonic_comm.Services.Radio.{
  MeshConfig, RadioService, radio_port, radio_service, frame_received, create_networks, start_all,
}

abbrev deaf_device : RadioDevice ℕ
deaf_device = record {
  configure = λ r c. (ok, r);
  transmit = λ r f. (ok, r);
  receive = λ r f millis. (ok, f, r);
}

-- The state is the code of `is_tx_free` and the frames that were sent.
abbrev slow_rfnet : Rfnet (ℤ × List Frame)
slow_rfnet = record {
  unset = (pos 1, []);
  init = λ c. (pos 1, []);
  is_tx_free = λ n. n.0;
  send = λ n f. (pos 0, (pos 1, f ∷ n.1));
  get_stats = λ n. record { tx_speed = 0; rx_speed = 0; rx_counter = 0; tx_counter = length n.1 };
  reset = λ n. n;
}

-- The lock is taken again once, and rfnet is free then.
abbrev freed_later : ℤ × List Frame → List (ℤ × List Frame)
freed_later n = (pos 0, n.1) ∷ []

abbrev blank_memory : RadioFrame
blank_memory = record { len = 0; payload = [] }

abbrev plain_config : MeshConfig
plain_config = record {
  packet_pattern = 0xb1ee;
  id_base = 0;
  slot_duration = 15;
  gap_duration = 2;
  beacon_interval = 500;
}

abbrev idle_node : Node ℕ (ℤ × List Frame)
idle_node = record {
  rfnet = (pos 1, []);
  network = record {
    net_interface = record { radio = 5; tx_frame = blank_memory; rx_frame = blank_memory };
    receiver = some 0;
    net_frame = [];
  };
  config = plain_config;
  running = true;
}

abbrev two_nodes : RadioService (Node ℕ (ℤ × List Frame))
two_nodes = record {
  heap = [] ∷ [];
  broadcasters = 0 ∷ 0 ∷ [];
  networks = idle_node ∷ idle_node ∷ [];
}

abbrev server : GrpcService (RadioService (Node ℕ (ℤ × List Frame)))
server = record { radio = some two_nodes; frame_queue = []; tx_frame = []; rx_frame = [] }

abbrev five_bytes : Frame
five_bytes = 7 ∷ 8 ∷ 9 ∷ 10 ∷ 11 ∷ []

abbrev no_message : FrameMessage
no_message = record { words = []; size = 0 }

abbrev free_node : Node ℕ (ℤ × List Frame)
free_node = record idle_node { rfnet = (pos 0, []) }

abbrev free_nodes : RadioService (Node ℕ (ℤ × List Frame))
free_nodes = record two_nodes { networks = idle_node ∷ free_node ∷ [] }

client_frame_sent_example :
    let (status, g') =
      Grpc.transmit
        (radio_port (node_port deaf_device slow_rfnet freed_later blank_memory))
        (record server { radio = some free_nodes })
        (record { module_index = 257; frame = grpc_buf_unpack five_bytes no_message }) in
    (s' : RadioService (Node ℕ (ℤ × List Frame))) × (g'.radio ≡ some s')
    × ((j : ℕ)
        → get_elem? s'.networks j ≡ (
            if j == 1
            then some (record free_node { rfnet = (pos 1, five_bytes ∷ []) })
            else get_elem? free_nodes.networks j))
    × ((status ≡ Grpc.Status.ok) ↔ (pos 0 ≡ pos 0))
client_frame_sent_example =
    client_frame_sent deaf_device slow_rfnet freed_later blank_memory
      (record server { radio = some free_nodes }) 257 five_bytes no_message free_nodes free_node
      (omega arith) (omega arith) refl refl refl

abbrev node_with : ℕ → ℕ → Node ℕ (ℤ × List Frame)
node_with radio base = record idle_node {
  network = record idle_node.network {
    net_interface = record { radio = radio; tx_frame = blank_memory; rx_frame = blank_memory };
  };
  config = record plain_config { id_base = base };
}

-- Both modules generate the same id before the low bits are set.
ids_differ_example : gen_id 32 (some 0) 0xabcd 1 ≢ gen_id 32 (some 0) 0xabcd 2
unfolding radio_service create_networks start_all node_port create start
ids_differ_example =
    ids_differ deaf_device slow_rfnet freed_later blank_memory plain_config (5 ∷ 6 ∷ []) 0 1
      (node_with 5 1) (node_with 6 2) 32 0 0xabcd 0xabcd refl refl (omega arith) (omega arith)
      (λ e. omega arith)

-- The nodes fill the interface of the radio service: of two of them, each frame is told twice.
node_frames_twice :
    frame_received
      (node_port deaf_device slow_rfnet freed_later blank_memory)
      (λ l. true)
      (attach_all
        (radio_service
          (node_port deaf_device slow_rfnet freed_later blank_memory)
          plain_config
          (5 ∷ 6 ∷ []))
        (7 ∷ []))
      1
      five_bytes
    ≡ (7, five_bytes) ∷ (7, five_bytes) ∷ []
unfolding radio_service create_networks start_all node_port create start
node_frames_twice =
    frame_received-repeat_each (node_port deaf_device slow_rfnet freed_later blank_memory)
      (node_port-KeepsReceiver deaf_device slow_rfnet freed_later blank_memory) plain_config
      (5 ∷ 6 ∷ []) (7 ∷ []) (λ l. true) 1 (node_with 6 2) five_bytes (λ l. refl) refl
