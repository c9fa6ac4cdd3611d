-- ===== src/Daemon.antt =====
-- kaonic/src/main.cpp: which radios the daemon makes, and the services over them.
pub mod Machine
pub mod Laws
pub mod Wiring
pub mod Air
pub mod Streaming
pub mod Locks
mod Tests
use Prim.Native.String.{String}
use kaonic_comm.Shared.{
  ℕ, Bool, true, false, Option, none, some, List, [], ◌∷◌, ◌++◌, ◌==◌, get_elem?, get_or, set,
  if◌then◌else◌,
}
use kaonic_comm.Failure.{Error, is_ok}
use kaonic_comm.Radio.{Frame, RadioFrame, RadioConfig, ofdm}
use kaonic_comm.Radio.Rf215.Device.{Driver, Rf215Radio, configure}
use kaonic_comm.Radio.Rf215.Bus.{Rf215RadioConfig, Board, init}
use kaonic_comm.Drivers.Spi.{System, Spi}
use kaonic_comm.Mesh.Interface.{NetworkInterface, rf215_device}
use kaonic_comm.Mesh.Network.{Rfnet, Callback}
use kaonic_comm.Mesh.Receiver
use kaonic_comm.Mesh.Node.{Node, update_node, node_port}
use kaonic_comm.Messages.{ConfigurationRequest, TransmitRequest}
use kaonic_comm.Services.Grpc.{GrpcService, receive_frame, pop_frame}
use kaonic_comm.Services.Grpc
use kaonic_comm.Services.Radio.{
  MeshConfig, RadioService, radio_port, radio_service, attach_listener,
}
use kaonic_comm.Daemon.Machine.{select_machine_config}

-- The settings that `create_radio` makes.
abbrev pub first_config : ℕ → RadioConfig
first_config channel = record {
  freq = 869535;
  channel = channel;
  channel_spacing = 200;
  tx_power = 10;
  phy_config = ofdm (record { mcs = 6; opt = 0 });
}

-- The driver's view of the chip is the SPI device and the world behind it.
abbrev pub Chip : Type 0 → Type 0
Chip W = Spi × W

abbrev pub new_radio : {W : Type 0} → Spi → W → Rf215Radio (Chip W)
new_radio s w = record {
  dev = (s, w);
  active_trx = none;
  flt_v1 = false;
  flt_v2 = false;
  tx_counter = 0;
  rx_counter = 0;
}

module _ {W : Type 0} (sys : System W) (board : Board W) (driver : Driver (Chip W)) where
  -- `create_radio`, with the SPI object of the new radio; `none` is the null pointer.
  unfoldable pub create_radio : Spi → W → Rf215RadioConfig → ℕ → Option (Rf215Radio (Chip W))
  create_radio s w config channel =
      let (err, s', w') = init sys board s w config in
      let (err', r) = configure driver (new_radio s' w') (first_config channel) in
      if is_ok err then (if is_ok err' then some r else none) else none

abbrev pub mesh_config : MeshConfig
mesh_config = record {
  packet_pattern = 0xb1ee;
  id_base = 0;
  slot_duration = 15;
  gap_duration = 2;
  beacon_interval = 500;
}

-- `push_back` of a radio that is not null.
abbrev pub pushed {ℓ} : {A : Type ℓ} → List A → Option A → List A
pushed radios none = radios
pushed radios (some r) = radios ++ r ∷ []

-- `grpc_listener`
abbrev pub grpc_listener : ℕ
grpc_listener = 0

abbrev pub Daemon : Type 0 → Type 0 → Type 0
Daemon W F = GrpcService (RadioService (Node (Rf215Radio (Chip W)) F))

module _ {W F : Type 0} (driver : Driver (Chip W)) (rfnet : Rfnet F) (later : F → List F)
    (memory : RadioFrame) where
  -- The services over the radios.
  unfoldable pub serve : List (Rf215Radio (Chip W)) → Daemon W F
  serve radios =
      let port = node_port (rf215_device driver) rfnet later memory in
      record {
        radio = some (attach_listener (radio_service port mesh_config radios) (some grpc_listener));
        frame_queue = [];
        tx_frame = [];
        rx_frame = [];
      }

  -- `main` up to `server->Wait()`, with the first line of the machine's file, `none` if it cannot be
  -- opened. The second radio is under `if (false)`.
  unfoldable pub main : System W → Board W → Option String → Spi → W → Daemon W F
  unfolding serve
  main sys board machine s w =
      let config = select_machine_config machine in
      serve (pushed [] (create_radio sys board driver s w config.rfa_config 11))

-- The calls of listeners: `grpc_listener` adds the frame to the queue of its service.
pub deliver : {W F : Type 0} → Daemon W F → List (ℕ × Frame) → Daemon W F
deliver d [] = d
deliver d ((listener, frame) ∷ calls) =
    deliver (if listener == grpc_listener then receive_frame d frame else d) calls

-- The calls of the receivers at these addresses.
pub broadcast : (ℕ → Bool) → List Receiver.Broadcaster → List (ℕ × Frame) → List (ℕ × Frame)
broadcast alive heap [] = []
broadcast alive heap ((address, frame) ∷ calls) =
    Receiver.on_receive alive (get_or heap address []) frame ++ broadcast alive heap calls

-- A round of `update` of the network of the module `m`: the calls of its receiver are those of the
-- listeners.
unfoldable pub update_module :
    {W F : Type 0} → Driver (Chip W) → (ℕ → Bool) → Daemon W F → ℕ → F → List Callback → Daemon W F
unfolding deliver broadcast
update_module driver alive d m state callbacks = elim d.radio [
  | none ↦ d
  | some s ↦ elim (get_elem? s.networks m) [
    | none ↦ d
    | some n ↦
        let (n', calls) = update_node (rf215_device driver) n state callbacks in
        deliver (record d { radio = some (record s { networks = set s.networks m n' }) })
          (broadcast alive s.heap calls)
  ]
]

-- What happens to the daemon: a client's call of Configure or Transmit, a call of `pop_frame` in the
-- loop of a client's ReceiveStream, or an update of the network of a module, with what rfnet does in
-- it.
pub data Event (F : Type 0) : Type 0 where
  configured : ConfigurationRequest → Event F
  transmitted : TransmitRequest → Event F
  streamed : Event F
  updated : ℕ → F → List Callback → Event F

module _ {W F : Type 0} (driver : Driver (Chip W)) (rfnet : Rfnet F) (later : F → List F)
    (memory : RadioFrame) (alive : ℕ → Bool) where
  -- The handler of an event.
  unfoldable pub handle : Daemon W F → Event F → Daemon W F
  unfolding pop_frame
  handle d (configured m) =
      let port = radio_port (node_port (rf215_device driver) rfnet later memory) in
      (Grpc.configure port d m).1
  handle d (transmitted m) =
      let port = radio_port (node_port (rf215_device driver) rfnet later memory) in
      (Grpc.transmit port d m).1
  handle d streamed = elim (pop_frame d.frame_queue) [
    | none ↦ d
    | some (frame, queue) ↦ record d { frame_queue = queue; rx_frame = frame }
  ]
  handle d (updated m state callbacks) = update_module driver alive d m state callbacks

  unfoldable pub handle_all : Daemon W F → List (Event F) → Daemon W F
  unfolding handle
  handle_all d [] = d
  handle_all d (e ∷ events) = handle_all (handle d e) events
