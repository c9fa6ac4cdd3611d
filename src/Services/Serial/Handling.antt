-- ===== src/Services/Serial/Handling.antt =====
-- What a decoded packet makes the serial service do, and its start and stop.
use kaonic_comm.Shared.{
  ℕ, ◌<◌, ◌^◌, ◌≡◌, refl, List, [], ◌∷◌, arith, length, All, IsByte, u8, if◌then◌else◌,
}
use kaonic_comm.Failure.{precondition_failed}
use kaonic_comm.Messages.{FrameMessage, PhyMessage, ConfigurationRequest}
use kaonic_comm.Radio.{Frame}
use kaonic_comm.Serial.Packet.{config, transmit}
use kaonic_comm.Services.Buffers.{buf_unpack}
use kaonic_comm.Services.Buffers.Laws.{buf_pack-buf_unpack}
use kaonic_comm.Services.RadioPort.{RadioPort}
use kaonic_comm.Services.Serial.{SerialService, handle_packet, start_tx, stop_tx}

module _ {ℓ} {S : Type ℓ} (port : RadioPort S) (s : SerialService S) where
  -- A transmit request whose frame a client unpacked from bytes reaches the radio service as those
  -- bytes, for the module of the request modulo 256; it is also left in the buffer of the service.
  handle_packet-transmit :
      (m : ℕ) (f : Frame) (old : FrameMessage)
      → All IsByte f
      → length f < 2 ^ 32
      → let s' =
          handle_packet port s (transmit (record { module_index = m; frame = buf_unpack f old })) in
        (s'.radio ≡ (port.transmit s.radio (u8 m) f).1) × (s'.frame ≡ f)
  unfolding handle_packet
  handle_packet-transmit m f old bytes fits =
      rw (buf_pack-buf_unpack f old s.frame bytes fits) (refl, refl)

  -- The power and the modulation of a configuration request have no effect: the radio service is
  -- called as for a request that asks for any others.
  pub handle_packet_ignores_phy :
      (m : ConfigurationRequest) (power : ℕ) (phy : PhyMessage)
      → handle_packet port s (config (record m { tx_power = power; phy_config = phy }))
        ≡ handle_packet port s (config m)
  unfolding handle_packet
  handle_packet_ignores_phy m power phy = refl

-- A call of a client of the service.
pub data Command : Type 0 where
  start stop : Command

module _ {ℓ} {S : Type ℓ} where
  abbrev command : SerialService S → Command → SerialService S
  command s start = (start_tx s).1
  command s stop = (stop_tx s).1

  abbrev commands : SerialService S → List Command → SerialService S
  commands s [] = s
  commands s (c ∷ cs) = commands (command s c) cs

  -- There is a monitor thread exactly while the service is active.
  abbrev HasThread : SerialService S → Type 0
  HasThread s = s.threads ≡ (if s.is_active then 1 else 0)

  command-HasThread : (s : SerialService S) (c : Command) → HasThread s → HasThread (command s c)
  unfolding start_tx stop_tx
  command-HasThread s start h = ground arith
  command-HasThread s stop h = ground arith

  -- Over any sequence of starts and stops there is one monitor thread while the service is active
  -- and none otherwise; so a start never replaces a running thread, and a second start and a
  -- second stop are refused and change nothing.
  commands-HasThread :
      (s : SerialService S) (cs : List Command)
      → HasThread s
      → HasThread (commands s cs)
        × (start_tx (command (commands s cs) start)
            ≡ (precondition_failed, command (commands s cs) start))
        × (stop_tx (command (commands s cs) stop)
            ≡ (precondition_failed, command (commands s cs) stop))
  unfolding start_tx stop_tx
  commands-HasThread s [] h = (h, ground arith, ground arith)
  commands-HasThread s (c ∷ cs) h = commands-HasThread (command s c) cs (command-HasThread s c h)
