-- ===== src/Daemon/Laws.antt =====
-- The lines that the machines share out, and the modules that the daemon serves.
use Prim.Native.String.{String}
use text.Mathlib.Text.{◌==◌ as ◌=str=◌}
use kaonic_comm.Shared.{
  ℕ, suc, ◌+◌, ◌≤◌, ◌≡◌, refl, ap, inl, inr, Bool, true, false, not, ◌&&◌, ◌==◌, Option, none, some,
  List, [], ◌∷◌, ◌++◌, map, arith, length, u8, Bool-cases, if◌then◌else◌,
}
use kaonic_comm.Failure.{Error, is_ok}
use kaonic_comm.Messages.{ConfigurationRequest, TransmitRequest}
use kaonic_comm.Radio.{Frame, RadioFrame, default_config}
use kaonic_comm.Radio.Rf215.Device.{Driver, Rf215Radio}
use kaonic_comm.Radio.Rf215.Bus.{Board, lines}
use kaonic_comm.Drivers.Gpio.{GpioSpec, LineRequest}
use kaonic_comm.Drivers.Spi.{System, Spi}
use kaonic_comm.Mesh.Interface.{rf215_device}
use kaonic_comm.Mesh.Network.{Rfnet}
use kaonic_comm.Mesh.Node.{Node, node_port}
use kaonic_comm.Services.Buffers.{grpc_buf_pack}
use kaonic_comm.Services.Grpc.{internal, status_of, config_of, configure, transmit}
use kaonic_comm.Services.Radio.{
  MeshConfig, NetworkPort, RadioService, radio_port, radio_service, create_networks, start_all,
  attach_listener,
}
use kaonic_comm.Services.Radio.Dispatch.{calls_out_of_range}
use kaonic_comm.Daemon.{Chip, Daemon, create_radio, mesh_config, pushed, grpc_listener, main}
use kaonic_comm.Daemon.Machine.{MachineConfig, config_for, select_machine_config}

abbrev pub same_line : GpioSpec → GpioSpec → Bool
same_line a b = (a.gpio_chip =str= b.gpio_chip) && a.gpio_line == b.gpio_line

abbrev pub is_among : GpioSpec → List GpioSpec → Bool
is_among a [] = false
is_among a (b ∷ specs) = if same_line a b then true else is_among a specs

abbrev pub all_differ : List GpioSpec → Bool
all_differ [] = true
all_differ (a ∷ specs) = not (is_among a specs) && all_differ specs

-- The lines that both radios of a machine ask for.
abbrev pub lines_of : MachineConfig → List GpioSpec
lines_of c = map (λ (r : LineRequest). r.spec) (lines c.rfa_config ++ lines c.rfb_config)

abbrev pub IsShareable : MachineConfig → Type 0
IsShareable c =
    (all_differ (lines_of c) ≡ true) × ((c.rfa_config.spi.dev =str= c.rfb_config.spi.dev) ≡ false)

config_for-IsShareable : (machine : String) → IsShareable (config_for machine)
unfolding lines
config_for-IsShareable machine = elim (Bool-cases (machine =str= "stm32mp1-kaonic-protoa")) [
  | inl a ↦ rw a (refl, refl)
  | inr not_a ↦ elim (Bool-cases (machine =str= "stm32mp1-kaonic-protob")) [
    | inl b ↦ rw (not_a, b) (refl, refl)
    | inr not_b ↦ elim (Bool-cases (machine =str= "stm32mp1-kaonic-protoc")) [
      | inl c ↦ rw (not_a, not_b, c) (refl, refl)
      | inr not_c ↦ rw (not_a, not_b, not_c) (refl, refl)
    ]
  ]
]

-- Whatever the file of the machine says, and without it, the two radios of the configuration use
-- different SPI devices, and none of the ten lines that they ask for is asked for twice.
select_machine_config-IsShareable :
    (machine : Option String) → IsShareable (select_machine_config machine)
unfolding select_machine_config
select_machine_config-IsShareable none = config_for-IsShareable ""
select_machine_config-IsShareable (some line) = config_for-IsShareable line

module _ {ℓ} {R N : Type ℓ} (net : NetworkPort R N) where
  length-create_networks :
      (config : MeshConfig) (i : ℕ) (radios : List R) (bs : List ℕ)
      → length (start_all net (create_networks net config i radios bs)) ≡ length radios
  unfolding create_networks start_all
  length-create_networks config i [] bs = refl
  length-create_networks config i (r ∷ radios) bs =
      ap suc (length-create_networks config (i + 1) radios bs)

  -- The service has a network for each radio.
  pub length-radio_service :
      (config : MeshConfig) (radios : List R) (listener : Option ℕ)
      → length (attach_listener (radio_service net config radios) listener).networks ≡ length radios
  unfolding radio_service attach_listener
  length-radio_service config radios none = length-create_networks config 0 radios _
  length-radio_service config radios (some l) = length-create_networks config 0 radios _

length-pushed {ℓ} : {A : Type ℓ} (o : Option A) → length (pushed [] o) ≤ 1
length-pushed none = omega arith
length-pushed (some a) = omega arith

abbrev daemon_with :
    {W F : Type 0} → RadioService (Node (Rf215Radio (Chip W)) F) → Frame → Daemon W F
daemon_with service tx_frame = record {
  radio = some service;
  frame_queue = [];
  tx_frame = tx_frame;
  rx_frame = [];
}

module _ {W F : Type 0} (driver : Driver (Chip W)) (rfnet : Rfnet F) (later : F → List F)
    (memory : RadioFrame) (sys : System W) (board : Board W) where
  -- The daemon makes one radio at most, so it serves module 0 alone, and no module if that radio did
  -- not come up: for any module, modulo 256, that is not below the number of radios, both calls fail
  -- with INTERNAL, and only the buffer of `Transmit` changes.
  pub main_refuses :
      (machine : Option String) (s : Spi) (w : W) (c : ConfigurationRequest) (t : TransmitRequest)
      → let config = (select_machine_config machine).rfa_config in
        let radios = pushed [] (create_radio sys board driver s w config 11) in
        let port = radio_port (node_port (rf215_device driver) rfnet later memory) in
        let d = main driver rfnet later memory sys board machine s w in
        (length radios ≤ 1)
        × (length radios ≤ u8 c.module_index → configure port d c ≡ (internal, d))
        × (length radios ≤ u8 t.module_index
            → transmit port d t
              ≡ (internal, record d { tx_frame = grpc_buf_pack t.frame d.tx_frame }))
  unfolding main configure transmit is_ok
  main_refuses machine s w c t =
      let config = (select_machine_config machine).rfa_config in
      let radios = pushed [] (create_radio sys board driver s w config 11) in
      let port = node_port (rf215_device driver) rfnet later memory in
      let service = attach_listener (radio_service port mesh_config radios) (some grpc_listener) in
      let size = length-radio_service port mesh_config radios (some grpc_listener) in
      let packed = grpc_buf_pack t.frame [] in
      (
        length-pushed (create_radio sys board driver s w config 11),
        λ h.
            ap
              (λ (p : Error × RadioService (Node (Rf215Radio (Chip W)) F)).
                (status_of p.0, daemon_with p.1 []))
              (calls_out_of_range port service (u8 c.module_index) (config_of c) []
                (omega (arith, size))).0,
        λ h.
            ap
              (λ (p : Error × RadioService (Node (Rf215Radio (Chip W)) F)).
                (status_of p.0, daemon_with p.1 packed))
              (calls_out_of_range port service (u8 t.module_index) default_config packed
                (omega (arith, size))).1,
      )
