-- ===== src/Mesh/Node.antt =====
-- radio_network of kaonic/src/comm/mesh/radio_network.cpp as one object: the radio, the network over
-- it and its settings, as the radio service makes and calls them.
pub mod Laws
mod Tests
use kaonic_comm.Shared.{
  ℕ, Bool, true, false, Option, none, some, List, [], ◌∷◌, if◌then◌else◌, get_or, u16,
}
use kaonic_comm.Failure.{Error, ok, precondition_failed, not_ready}
use kaonic_comm.Radio.{Frame, RadioFrame, RadioConfig}
use kaonic_comm.Mesh.Interface.{RadioDevice, NetworkInterface}
use kaonic_comm.Mesh.Network.{
  Network, RfnetConfig, Rfnet, transmit, Callback, interface_port, update,
}
use kaonic_comm.Services.Radio.{MeshConfig, NetworkPort}

abbrev pub peers_storage_size : ℕ
peers_storage_size = 16

-- The durations are cast to 16 bits.
pub rfnet_config : MeshConfig → RfnetConfig
rfnet_config config = record {
  packet_pattern = config.packet_pattern;
  peer_count = peers_storage_size;
  beacon_interval = u16 config.beacon_interval;
  slot_duration = u16 config.slot_duration;
  gap_duration = u16 config.gap_duration;
}

-- `radio_network`: the state of rfnet, the network with the interface that holds the radio, the
-- settings and the flag `_running`.
pub record Node {ℓ} (R F : Type ℓ) : Type ℓ where
  pub rfnet : F
  pub network : Network (NetworkInterface R)
  pub config : MeshConfig
  pub running : Bool

-- `_context.receiver` as an address; the constructor is given one.
abbrev pub address_of : Option ℕ → ℕ
address_of none = 0
address_of (some a) = a

module _ {ℓ} {R F : Type ℓ} (rfnet : Rfnet F) where
  -- The constructors of `radio_network` and `network`. `memory` is what lies in the two frames of the
  -- interface, which no one sets. Without a receiver rfnet is not started.
  unfoldable pub create : RadioFrame → MeshConfig → R → Option ℕ → Node R F
  unfolding rfnet_config
  create memory config radio receiver = record {
    rfnet = elim receiver [ none ↦ rfnet.unset | some r ↦ rfnet.init (rfnet_config config) ];
    network = record {
      net_interface = record { radio = radio; tx_frame = memory; rx_frame = memory };
      receiver = receiver;
      net_frame = [];
    };
    config = config;
    running = false;
  }

module _ {ℓ} {R F : Type ℓ} where
  -- `start`, with what it does to the flag; Mesh/Update has its thread.
  unfoldable pub start : Node R F → Error × Node R F
  start n = if n.running then (precondition_failed, n) else (ok, record n { running = true })

module _ {ℓ} {R F : Type ℓ} (device : RadioDevice R) where
  -- A round of `update`: the calls that rfnet makes, and the state that it ends in, are left to rfnet.
  unfoldable pub update_node : Node R F → F → List Callback → Node R F × List (ℕ × Frame)
  update_node n state callbacks =
      let (network, calls) = update (interface_port device) n.network callbacks in
      (record n { rfnet = state; network = network }, calls)

  unfoldable pub configure : Node R F → RadioConfig → Error × Node R F
  configure n config =
      let (err, radio) = device.configure n.network.net_interface.radio config in
      (
        err,
        record n {
          network = record n.network {
            net_interface = record n.network.net_interface { radio = radio };
          };
        },
      )

module _ {ℓ} {R F : Type ℓ} (rfnet : Rfnet F) (later : F → List F) where
  -- `transmit`, where `later` gives the states that its loop finds, each time it has the lock again,
  -- if it starts in a state. While it waits, `update` runs on another thread: of what that does only
  -- the states of rfnet are given, so this is the whole call where rfnet is free at once. For a loop
  -- that does not end in these states the code does not return, and the result stands for that.
  -- Mesh.Contention has the wait in single steps.
  unfoldable pub transmit_node : Node R F → Frame → Error × Node R F
  transmit_node n frame = elim (transmit rfnet n.rfnet (later n.rfnet) frame) [
    | none ↦ (not_ready, n)
    | some (err, state) ↦ (err, record n { rfnet = state })
  ]

-- The networks that the radio service makes.
unfoldable pub node_port {ℓ} :
    {R F : Type ℓ} → RadioDevice R → Rfnet F → (F → List F) → RadioFrame → NetworkPort R (Node R F)
node_port device rfnet later memory = record {
  create = λ config radio receiver. create rfnet memory config radio (some receiver);
  receiver = λ n. address_of n.network.receiver;
  start = start;
  configure = configure device;
  transmit = transmit_node rfnet later;
}
